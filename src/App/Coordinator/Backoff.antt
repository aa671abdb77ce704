-- ===== src/App/Coordinator/Backoff.antt =====
-- coordinator.py: the delay between two turns of the loop while the service is unavailable, and the
-- end of a run on any other error.
use Prim.Native.Nat.{ℕ, zero, suc, ◌*◌, ◌≤◌}
use value_stream_simulator.Prelude.{
  ◌≡◌, refl, ap, ◌∙◌, inl, inr, Bool, true, false, not, ◌&&◌, Option, none, some, List, [], ◌∷◌,
  ◌++◌, length, any, Bool-cases, ltb, leb, ◌-◌, if◌then◌else◌, arith,
}
use mathlib.Core.Path.{subst}
use value_stream_simulator.Prelude.Exec.{ok}
use value_stream_simulator.Prelude.Keeps.{Returns, bind-Returns}
use value_stream_simulator.Prelude.Number.{Number}
use value_stream_simulator.Prelude.Dict.{lookup, put, lookup-put_self}
use value_stream_simulator.App.Schemas.{Code, RunState, is_terminal}
use value_stream_simulator.App.Settings.{AppSettings}
use value_stream_simulator.App.Storage.{
  RunRecord, WorkspaceStore, Host, save_run, save_workspace, get_record, or_raise,
}
use value_stream_simulator.App.Storage.Access.{is_success, monotonic, finish}
use value_stream_simulator.App.Storage.Admission.{min}
use value_stream_simulator.App.Storage.Limits.{get_workspace-Keeps}
use value_stream_simulator.App.Coordinator.{
  Replies, Waiting, shown_error, fail_outcomes, update_status, with_state, poll,
}
use value_stream_simulator.App.Coordinator.Loop.{
  Slept, longer, started, wait_or_pause, reconnect, slept, after_retry, retry, fail_run, has_ended,
  broken, turn_of, after_turn, loop,
}

abbrev pub power : ℕ → ℕ
power zero = 1
power (suc k) = 2 * power k

le-scaled : (p c x : ℕ) → c ≤ x → c ≤ suc p * x
le-scaled p c x h = grind arith

min-scaled : (p c x : ℕ) → min c (suc p * min c x) ≡ min c (suc p * x)
unfolding min
min-scaled p c x = elim (Bool-cases (ltb x c)) [
  | inl less ↦ rw less refl
  | inr more ↦
      let large = le-scaled p c x (ground (arith, more)) in
      let full = le-scaled p c c (omega arith) in rw more (ground (arith, large, full))
]

module _ {F : Type 0} (settings : AppSettings) (host : Host F) (second : ℕ) where
  -- The delay after a number of failed turns in a row, from the one at the start.
  abbrev pub delay_after : ℕ → ℕ → ℕ
  delay_after delay zero = delay
  delay_after delay (suc k) = min (5 * second) (power (suc k) * delay)

  -- The delays after each of so many further failed turns.
  abbrev pub delays_after : ℕ → ℕ → ℕ → List ℕ
  delays_after delay k zero = []
  delays_after delay k (suc count) = delay_after delay (suc k) ∷ delays_after delay (suc k) count

  longer-delay_after :
      (delay k : ℕ) → longer settings host second (delay_after delay k) ≡ delay_after delay (suc k)
  unfolding longer
  longer-delay_after delay zero = ap (min (5 * second)) (omega arith)
  longer-delay_after delay (suc k) =
      let x = power (suc k) * delay in
      ap (min (5 * second)) (omega arith)
      ∙ min-scaled 1 (5 * second) x
      ∙ ap (min (5 * second)) (grind arith)

  -- The next delay, where the loop waits once more.
  abbrev IsLonger : Waiting → Option Waiting → Type 0
  IsLonger w none = Unit
  IsLonger w (some w') = w'.delay ≡ longer settings host second w.delay

  wait_or_pause-IsLonger :
      (run_id start now : ℕ) (w : Waiting) (s : WorkspaceStore F)
      → Returns (IsLonger w) (wait_or_pause settings host second run_id w start now s).0
  unfolding wait_or_pause
  wait_or_pause-IsLonger run_id start now w s =
      elim (Bool-cases (leb settings.retry_seconds (now - start))) [
        | inl late ↦ rw late (bind-Returns (IsLonger w) (update_status run_id _) _ (λ _ _. tt) s)
        | inr soon ↦ rw soon refl
      ]

  reconnect-IsLonger :
      (run_id : ℕ) (w : Waiting) (s : WorkspaceStore F)
      → Returns (IsLonger w) (reconnect settings host second run_id w s).0
  unfolding reconnect
  reconnect-IsLonger run_id w = bind-Returns (IsLonger w) (update_status run_id _) _ (λ _.
      bind-Returns (IsLonger w) (started settings host second w.retry_start) _ (λ start.
        bind-Returns (IsLonger w) (monotonic host)
          (wait_or_pause settings host second run_id w start)
          (λ now. wait_or_pause-IsLonger run_id start now w)))

failed-is_terminal : is_terminal RunState.failed ≡ true
unfolding is_terminal
failed-is_terminal = refl

module _ {F : Type 0} (settings : AppSettings) (host : Host F) (second : ℕ) where
  finish-has_ended :
      (workspace_id run_id : ℕ) (r : RunRecord F) (s : WorkspaceStore F)
      → lookup s.runs run_id ≡ some r
      → is_terminal r.status.state ≡ true
      → has_ended run_id (finish settings host workspace_id run_id s).1 ≡ true
  unfolding finish get_record or_raise save_run save_workspace has_ended
  finish-has_ended workspace_id run_id r s found over = rw found (
      get_workspace-Keeps (λ t. has_ended run_id t ≡ true) workspace_id _
        (record s { runs = put s.runs run_id (record r { reservation = 0 }) }) still
        (λ w listed.
          elim (Bool-cases (any is_success r.status.outcomes && not r.status.superseded)) [
            | inl counts ↦ rw counts still
            | inr skipped ↦ rw skipped still
          ]))
    where
      still :
          has_ended run_id (record s { runs = put s.runs run_id (record r { reservation = 0 }) })
          ≡ true
      still = rw (lookup-put_self s.runs run_id (record r { reservation = 0 }), has_ended) over

  fail_run-has_ended :
      (workspace_id run_id : ℕ) (e : Code) (r : RunRecord F) (s : WorkspaceStore F)
      → lookup s.runs run_id ≡ some r
      → has_ended run_id (fail_run settings host second workspace_id run_id e s).1 ≡ true
  unfolding fail_run update_status get_record or_raise save_run with_state
  fail_run-has_ended workspace_id run_id e r s found =
      let run = with_state RunState.failed (
        fail_outcomes (shown_error e) 0 r.status.outcomes
          (record r.status { error = some (shown_error e) })) in
      let r' = record r { status = run } in
      rw found (
        finish-has_ended workspace_id run_id r' (record s { runs = put s.runs run_id r' })
          (lookup-put_self s.runs run_id r') failed-is_terminal)

  abbrev left_by : Slept F → WorkspaceStore F
  left_by r = r.1

  guarded :
      (run_id : ℕ) (x y : Slept F) (b : Bool)
      → has_ended run_id x.1 ≡ b
      → has_ended run_id y.1 ≡ true
      → has_ended run_id (left_by (if b then x else y)) ≡ true
  guarded run_id x y true here there = here
  guarded run_id x y false here there = there

module _ (n : Number) (settings : AppSettings) (host : Host n.Float) (second : ℕ) where
  -- Where a turn of the loop raises an error other than that the service is unavailable, and the
  -- store has the run's record, the run has ended after the loop.
  pub broken_turn-has_ended :
      (workspace_id run_id : ℕ) (w : Waiting) (replies : Replies n.Float)
      (rest : List (Replies n.Float)) (s : WorkspaceStore n.Float) (e : Code)
      (r : RunRecord n.Float)
      → turn_of (poll n settings host workspace_id run_id replies s).0 ≡ broken e
      → lookup (poll n settings host workspace_id run_id replies s).1.runs run_id ≡ some r
      → has_ended run_id (loop n settings host second workspace_id run_id w (replies ∷ rest) s).1
        ≡ true
  unfolding loop after_turn
  broken_turn-has_ended workspace_id run_id w replies rest s e r turn found =
      guarded settings host second run_id ([], s) _ (has_ended run_id s) refl
        (rw turn (
          fail_run-has_ended settings host second workspace_id run_id e r
            (poll n settings host workspace_id run_id replies s).1 found))

  -- The service is unavailable for some turns of a run that has not ended, and each time the loop
  -- waits once more: from what it waits with and a store, to those after the turns.
  abbrev pub Reconnects :
      ℕ
      → ℕ
      → List (Replies n.Float)
      → Waiting
      → WorkspaceStore n.Float
      → Waiting
      → WorkspaceStore n.Float
      → Type 0
  Reconnects workspace_id run_id [] w s w' s' = (w ≡ w') × (s ≡ s')
  Reconnects workspace_id run_id (replies ∷ rest) w s w' s' =
      let polled = poll n settings host workspace_id run_id replies s in
      let left = reconnect settings host second run_id w polled.1 in
      (has_ended run_id s ≡ false)
      × (turn_of polled.0 ≡ retry)
      × ((next : Waiting) × (left.0 ≡ ok (some next))
          × Reconnects workspace_id run_id rest next left.1 w' s')

  -- From a turn on, where the loop waits with the delay after the turns before.
  loop_from :
      (workspace_id run_id delay k : ℕ) (lost rest : List (Replies n.Float)) (w w' : Waiting)
      (s s' : WorkspaceStore n.Float)
      → w.delay ≡ delay_after settings host second delay k
      → Reconnects workspace_id run_id lost w s w' s'
      → loop n settings host second workspace_id run_id w (lost ++ rest) s ≡ (
        delays_after settings host second delay k (length lost)
            ++ (loop n settings host second workspace_id run_id w' rest s').0,
        (loop n settings host second workspace_id run_id w' rest s').1,
      )
  unfolding loop after_turn after_retry slept
  loop_from workspace_id run_id delay k [] rest w w' s s' same (same_w, same_s) =
      rw (same_w, same_s) refl
  loop_from workspace_id run_id delay k (replies ∷ lost) rest w w' s s' same
        (open_run, away, (next, left, h)) =
      let after = loop n settings host second workspace_id run_id w' rest s' in
      let later : next.delay ≡ delay_after settings host second delay (suc k) =
        subst (Returns (IsLonger settings host second w)) left
          (reconnect-IsLonger settings host second run_id w _)
        ∙ ap (longer settings host second) same
        ∙ longer-delay_after settings host second delay k in
      rw (open_run, away, left)
        (ap (slept next.delay)
            (loop_from workspace_id run_id delay (suc k) lost rest next w' _ s' later h)
          ∙ ap
              (λ d.
                slept d (
                  delays_after settings host second delay (suc k) (length lost) ++ after.0,
                  after.1,
                ))
              later)

  -- Where the service is unavailable for some turns in a row, and the loop waits once more each time,
  -- it sleeps after each of them for five seconds, or for the delay at the start doubled once for each
  -- turn so far, whichever is less; then it goes on from the store that they leave.
  pub loop-Reconnects :
      (workspace_id run_id : ℕ) (lost rest : List (Replies n.Float)) (w w' : Waiting)
      (s s' : WorkspaceStore n.Float)
      → Reconnects workspace_id run_id lost w s w' s'
      → loop n settings host second workspace_id run_id w (lost ++ rest) s ≡ (
        delays_after settings host second w.delay 0 (length lost)
            ++ (loop n settings host second workspace_id run_id w' rest s').0,
        (loop n settings host second workspace_id run_id w' rest s').1,
      )
  loop-Reconnects workspace_id run_id lost rest w w' s s' h =
      loop_from workspace_id run_id w.delay 0 lost rest w w' s s' refl h
