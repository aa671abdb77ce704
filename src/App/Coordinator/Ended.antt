-- ===== src/App/Coordinator/Ended.antt =====
-- coordinator.py: through the polling loop and its failures, the cursors of all runs stay in order,
-- and a run that has ended has all its outcomes.
pub mod Poll
use Prim.Native.Nat.{ℕ, zero, suc, ◌+◌, ◌-◌, ◌≤◌, ◌<◌}
use mathlib.Core.Path.{subst}
use mathlib.Core.Option.{some-injective}
use value_stream_simulator.Prelude.{
  ◌≡◌, refl, sym, ap, ◌∙◌, inl, inr, Bool, true, false, not, ◌||◌, ◌&&◌, Option, none, some, List,
  [], ◌∷◌, get_elem?, any, count_if, All, if_both, Bool-cases, Option-cases, ltb, leb, ◌==◌,
  if◌then◌else◌, arith,
}
use value_stream_simulator.Prelude.Exec.{
  Result, ok, raise, Exec, pure, throw, gets, modify, continue, ◌>>=◌, ◌>>◌,
}
use value_stream_simulator.Prelude.Keeps.{Keeps, bind-Keeps, bind_from}
use value_stream_simulator.Prelude.Number.{Number}
use value_stream_simulator.Prelude.Dict.{Dict, lookup, put, values}
use value_stream_simulator.Service.Schemas.{OutcomeData, OutcomePage, JobState}
use value_stream_simulator.App.Schemas.{
  Code, service_unavailable, service_invalid_response, RunState, is_terminal, OutcomeSummary,
  RunStatus,
}
use value_stream_simulator.App.Settings.{AppSettings}
use value_stream_simulator.App.Storage.{
  RunRecord, WorkspaceStore, Host, Method, or_raise, save_run, save_workspace, get_workspace,
  get_record,
}
use value_stream_simulator.App.Storage.Access.{is_success, with_finished, finish, monotonic}
use value_stream_simulator.App.Storage.Editing.{lift}
use value_stream_simulator.App.Storage.Limits.{
  or_raise-Keeps, get_record-Keeps, get_workspace-Keeps,
}
use value_stream_simulator.App.Coordinator.{
  Replies, Waiting, run_state, shown_error, has_cursor, fail_outcomes, update_status, with_state,
  error_code, complete_outcome, take_outcome, take_page, has_job, submit_new, submit_job,
  cancel_job, read_page, settle, poll,
}
use value_stream_simulator.App.Coordinator.Loop.{
  started, wait_or_pause, reconnect, fresh, fail_run, has_ended, Turn, ended, again, retry, broken,
  turn_of, Slept, slept, after_retry, after_turn, loop,
}
use value_stream_simulator.App.Coordinator.Ended.Poll.{
  rewritten-IsTidy, fail_run-AreTidy, poll-AreTidy,
}
use value_stream_simulator.App.Coordinator.Numbered.{
  IsNumbered, AreNumbered, open_count, fail_outcomes_lem,
}
use value_stream_simulator.App.Coordinator.Numbered.Kept.{
  IsTidy, AreTidy, save_run-AreTidy, found-IsTidy, update_status-AreTidy, complete_outcome-Keeps,
}

module _ {F : Type 0} (settings : AppSettings) (host : Host F) (second : ℕ) where
  started-AreTidy : (start : Option ℕ) → Keeps AreTidy (started settings host second start)
  unfolding started monotonic AreTidy
  started-AreTidy none s h = h
  started-AreTidy (some zero) s h = h
  started-AreTidy (some (suc t)) s h = h

  monotonic-AreTidy : Keeps AreTidy (monotonic host)
  unfolding monotonic AreTidy
  monotonic-AreTidy s h = h

  wait_or_pause-AreTidy :
      (run_id : ℕ) (w : Waiting) (start now : ℕ)
      → Keeps AreTidy (wait_or_pause settings host second run_id w start now)
  unfolding wait_or_pause
  wait_or_pause-AreTidy run_id w start now s h =
      elim (Bool-cases (leb settings.retry_seconds (now - start))) [
        | inr waits ↦ rw waits h
        | inl gives_up ↦ rw gives_up (
            bind_from AreTidy (update_status run_id (λ run. record run { retry_paused = true }))
              (λ _. pure none) s
              (update_status-AreTidy run_id (λ run. record run { retry_paused = true }) s
                (λ r found.
                  let tidy = found-IsTidy run_id r s h found in
                  rewritten-IsTidy r.status (record r.status { retry_paused = true }) refl refl
                    tidy.settled tidy)
                h)
              (λ _ t k. k))
      ]

  reconnect-AreTidy :
      (run_id : ℕ) (w : Waiting) → Keeps AreTidy (reconnect settings host second run_id w)
  unfolding reconnect is_terminal
  reconnect-AreTidy run_id w s h =
      let lost = λ (run : RunStatus F). record run {
        state = RunState.reconnecting;
        error = some service_unavailable;
      } in
      let timed =
        λ (start : ℕ). monotonic host >>= wait_or_pause settings host second run_id w start in
      bind_from AreTidy (update_status run_id lost)
        (λ _. started settings host second w.retry_start >>= timed) s
        (update_status-AreTidy run_id lost s
          (λ r found.
            rewritten-IsTidy r.status (lost r.status) refl refl refl
              (found-IsTidy run_id r s h found))
          h)
        (λ _.
          bind-Keeps AreTidy (started settings host second w.retry_start) timed
            (started-AreTidy w.retry_start)
            (λ start.
              bind-Keeps AreTidy (monotonic host)
                (wait_or_pause settings host second run_id w start) monotonic-AreTidy
                (λ now. wait_or_pause-AreTidy run_id w start now)))

  after_retry-AreTidy :
      (workspace_id run_id : ℕ) (rest : Waiting → WorkspaceStore F → Slept F)
      (result : Result {0, 0} Code (Option Waiting)) (s : WorkspaceStore F)
      → ((w : Waiting) (t : WorkspaceStore F) → AreTidy t → AreTidy (rest w t).1)
      → AreTidy s
      → AreTidy (after_retry settings host second workspace_id run_id rest result s).1
  unfolding after_retry slept
  after_retry-AreTidy workspace_id run_id rest (raise e) s go h =
      fail_run-AreTidy settings host second workspace_id run_id e s h
  after_retry-AreTidy workspace_id run_id rest (ok none) s go h = h
  after_retry-AreTidy workspace_id run_id rest (ok (some w)) s go h = go w s h

  after_turn-AreTidy :
      (workspace_id run_id : ℕ) (w : Waiting) (rest : Waiting → WorkspaceStore F → Slept F)
      (turn : Turn) (s : WorkspaceStore F)
      → ((w : Waiting) (t : WorkspaceStore F) → AreTidy t → AreTidy (rest w t).1)
      → AreTidy s
      → AreTidy (after_turn settings host second workspace_id run_id w rest turn s).1
  unfolding after_turn slept
  after_turn-AreTidy workspace_id run_id w rest ended s go h = h
  after_turn-AreTidy workspace_id run_id w rest again s go h = go _ s h
  after_turn-AreTidy workspace_id run_id w rest (broken e) s go h =
      fail_run-AreTidy settings host second workspace_id run_id e s h
  after_turn-AreTidy workspace_id run_id w rest retry s go h =
      after_retry-AreTidy workspace_id run_id rest _ _ go (reconnect-AreTidy run_id w s h)

module _ (n : Number) (settings : AppSettings) (host : Host n.Float) (second : ℕ) where
  -- In a store where the outcomes of each run are numbered in order by their cursors, from 1 to the
  -- run's last cursor, and each run that has ended has all its outcomes, both still hold after the
  -- polling loop of a run, whatever the service answers in its turns and however it fails.
  pub loop-AreTidy :
      (workspace_id run_id : ℕ) (w : Waiting) (replies : List (Replies n.Float))
      (s : WorkspaceStore n.Float)
      → AreTidy s
      → AreTidy (loop n settings host second workspace_id run_id w replies s).1
  unfolding loop
  loop-AreTidy workspace_id run_id w [] s h = h
  loop-AreTidy workspace_id run_id w (replies ∷ rest) s h =
      if_both (λ (r : Slept n.Float). AreTidy r.1) (has_ended run_id s) h
        (after_turn-AreTidy settings host second workspace_id run_id w
          (λ w' s'. loop n settings host second workspace_id run_id w' rest s') _ _
          (λ w' t k. loop-AreTidy workspace_id run_id w' rest t k)
          (poll-AreTidy n settings host workspace_id run_id replies s h))
