-- ===== src/App/Coordinator/Examples.antt =====
-- coordinator.py: a run of two scenarios through a lost connection, and one that the service breaks.
use Prim.Native.Nat.{ℕ, ◌-◌}
use value_stream_simulator.Prelude.{◌≡◌, refl, true, none, some, [], ◌∷◌, arith}
use value_stream_simulator.Prelude.Exec.{ok, raise}
use value_stream_simulator.Prelude.Naturals.{naturals}
use value_stream_simulator.Prelude.Dict.{lookup, put, remove, values}
use value_stream_simulator.Service.Schemas.{Status, JobState, OutcomeData}
use value_stream_simulator.App.Schemas.{service_unavailable, service_invalid_response, is_terminal}
use value_stream_simulator.App.Storage.{WorkspaceStore}
use value_stream_simulator.App.Storage.Admission.{new_record, new_status, new_outcome}
use value_stream_simulator.App.Storage.Examples.{limits, host, run, value}
use value_stream_simulator.App.Coordinator.{Replies, Waiting, has_cursor, has_job, poll}
use value_stream_simulator.App.Coordinator.Loop.{turn_of, has_ended, reconnect, loop}
use value_stream_simulator.App.Coordinator.Numbered.{AreNumbered, IsNumbered, open_count}
use value_stream_simulator.App.Coordinator.Numbered.Kept.{AreTidy}
use value_stream_simulator.App.Coordinator.Ended.{loop-AreTidy}
use value_stream_simulator.App.Coordinator.Backoff.{broken_turn-has_ended, loop-Reconnects}

abbrev store : WorkspaceStore ℕ
store = record { workspaces = []; runs = (3, run) ∷ []; cache = []; clock_reads = 0; ids_drawn = 0 }

abbrev counted : WorkspaceStore ℕ
counted = record store { clock_reads = 2 }

abbrev finished : ℕ → OutcomeData ℕ
finished cursor = record {
  cursor = cursor;
  model_index = cursor - 1;
  status = Status.succeeded;
  result = some value;
  error = none;
}

abbrev lost : Replies ℕ
lost = record {
  ready = raise service_unavailable;
  submit = ok 5;
  cancel = ok tt;
  status = ok JobState.running;
  outcomes = ok (record { outcomes = []; next_cursor = 0 });
}

abbrev completes : Replies ℕ
completes = record {
  ready = ok tt;
  submit = ok 5;
  cancel = ok tt;
  status = ok JobState.completed;
  outcomes = ok (record { outcomes = finished 1 ∷ finished 2 ∷ []; next_cursor = 2 });
}

abbrev incomplete : Replies ℕ
incomplete = record {
  ready = ok tt;
  submit = ok 5;
  cancel = ok tt;
  status = ok JobState.completed;
  outcomes = ok (record { outcomes = finished 1 ∷ []; next_cursor = 1 });
}

abbrev waiting : Waiting
waiting = record { retry_start = none; delay = 1 }

store-AreTidy : AreTidy store
unfolding AreTidy values IsNumbered AreNumbered open_count has_cursor new_record new_status
    new_outcome is_terminal
store-AreTidy = (record { numbered = λ k. ground arith; settled = refl }, tt)

loop-AreTidy_example :
    AreTidy (loop naturals limits host 1 0 3 waiting (lost ∷ completes ∷ []) store).1
loop-AreTidy_example =
    loop-AreTidy naturals limits host 1 0 3 waiting (lost ∷ completes ∷ []) store store-AreTidy

-- The run has ended.
loop_ends :
    has_ended 3 (loop naturals limits host 1 0 3 waiting (lost ∷ completes ∷ []) store).1 ≡ true
unfolding loop has_ended lookup new_record new_status has_job put remove
loop_ends = refl

-- What the loop waits with after two turns without the service, from a delay of one and with a second
-- of ten, and the store then.
abbrev waiting_still : Waiting
waiting_still = record { retry_start = some 2; delay = 4 }

abbrev first_left : WorkspaceStore ℕ
first_left = (reconnect limits host 10 3 waiting (poll naturals limits host 0 3 lost counted).1).1

abbrev second_left : WorkspaceStore ℕ
second_left =
    (reconnect limits host 10 3 (record { retry_start = some 2; delay = 2 })
      (poll naturals limits host 0 3 lost first_left).1).1

loop-Reconnects_example :
    loop naturals limits host 10 0 3 waiting (lost ∷ lost ∷ completes ∷ []) counted ≡ (
      2 ∷ 4 ∷ (loop naturals limits host 10 0 3 waiting_still (completes ∷ []) second_left).0,
      (loop naturals limits host 10 0 3 waiting_still (completes ∷ []) second_left).1,
    )
unfolding lookup has_ended is_terminal new_record new_status turn_of poll has_job reconnect put
loop-Reconnects_example =
    loop-Reconnects naturals limits host 10 0 3 (lost ∷ lost ∷ []) (completes ∷ []) waiting
      waiting_still counted second_left
      (
        refl,
        refl,
        (
          record { retry_start = some 2; delay = 2 },
          refl,
          (refl, refl, (waiting_still, refl, (refl, refl))),
        ),
      )

broken_turn-has_ended_example :
    has_ended 3 (loop naturals limits host 1 0 3 waiting (incomplete ∷ []) store).1 ≡ true
unfolding poll turn_of lookup has_job new_record new_status put
broken_turn-has_ended_example =
    broken_turn-has_ended naturals limits host 1 0 3 waiting incomplete [] store
      service_invalid_response _ refl refl
