-- ===== src/App/Coordinator/Ended/Poll.antt =====
-- coordinator.py: one turn of the polling loop, `finish` and the failure of a run, step by step.
use Prim.Native.Nat.{ℕ}
use mathlib.Core.Path.{subst}
use mathlib.Core.Option.{some-injective}
use value_stream_simulator.Prelude.{
  ◌≡◌, refl, sym, ◌∙◌, inl, inr, Bool, true, false, not, ◌||◌, ◌&&◌, none, some, List, [], ◌∷◌,
  get_elem?, any, Bool-cases, leb, ◌==◌, if◌then◌else◌, arith,
}
use value_stream_simulator.Prelude.Exec.{Result, pure, ◌>>=◌, ◌>>◌}
use value_stream_simulator.Prelude.Keeps.{Keeps, bind-Keeps, bind_from}
use value_stream_simulator.Prelude.Number.{Number}
use value_stream_simulator.Prelude.Dict.{lookup}
use value_stream_simulator.Service.Schemas.{OutcomeData, OutcomePage, JobState}
use value_stream_simulator.App.Schemas.{Code, RunState, is_terminal, OutcomeSummary, RunStatus}
use value_stream_simulator.App.Settings.{AppSettings}
use value_stream_simulator.App.Storage.{
  RunRecord, WorkspaceStore, Host, save_run, save_workspace, get_record,
}
use value_stream_simulator.App.Storage.Access.{is_success, finish}
use value_stream_simulator.App.Storage.Editing.{lift}
use value_stream_simulator.App.Storage.Limits.{
  or_raise-Keeps, get_record-Keeps, get_workspace-Keeps,
}
use value_stream_simulator.App.Coordinator.{
  Replies, run_state, shown_error, has_cursor, fail_outcomes, update_status, with_state, error_code,
  take_outcome, take_page, has_job, submit_new, submit_job, cancel_job, read_page, settle, poll,
}
use value_stream_simulator.App.Coordinator.Loop.{fail_run}
use value_stream_simulator.App.Coordinator.Numbered.{
  IsNumbered, AreNumbered, open_count, fail_outcomes_lem,
}
use value_stream_simulator.App.Coordinator.Numbered.Kept.{
  IsTidy, AreTidy, save_run-AreTidy, found-IsTidy, update_status-AreTidy, complete_outcome-Keeps,
}

going_on :
    (cancelled : Bool) (upstream : JobState) (b : Bool)
    → is_terminal (run_state upstream) ≡ false
    → (not (is_terminal (if cancelled then RunState.cancelling else run_state upstream)) || b)
      ≡ true
unfolding is_terminal
going_on true upstream b going = refl
going_on false upstream b going = rw going refl

or_true : (b : Bool) → (b || true) ≡ true
or_true true = refl
or_true false = refl

any-open_count :
    {F : Type 0} (os : List (OutcomeSummary F))
    → any (λ o. not (has_cursor o)) os ≡ false
    → open_count os ≡ 0
unfolding open_count
any-open_count [] h = refl
any-open_count (o ∷ os) h = ground (arith, any-open_count os)

module _ {F : Type 0} where
  -- A write that leaves the outcomes, to a state that is no end or with no outcome left undone.
  pub rewritten-IsTidy :
      (run run' : RunStatus F)
      → run'.outcomes ≡ run.outcomes
      → run'.last_cursor ≡ run.last_cursor
      → (not (is_terminal run'.state) || (open_count run.outcomes == 0)) ≡ true
      → IsTidy run
      → IsTidy run'
  unfolding IsNumbered AreNumbered
  rewritten-IsTidy run run' os last fine tidy = record {
    numbered = λ k. rw (os, last) (tidy.numbered k);
    settled = rw os fine;
  }

module _ {F : Type 0} where
  restated :
      (run_id : ℕ) (state : RunState) (s : WorkspaceStore F)
      → AreTidy s
      → ((r : RunRecord F)
          → lookup s.runs run_id ≡ some r
          → (not (is_terminal state) || (open_count r.status.outcomes == 0)) ≡ true)
      → AreTidy (update_status run_id (with_state state) s).1
  unfolding with_state
  restated run_id state s h fine =
      update_status-AreTidy run_id (with_state state) s
        (λ r found.
          rewritten-IsTidy r.status (with_state state r.status) refl refl (fine r found)
            (found-IsTidy run_id r s h found))
        h

  all_done :
      (state : RunState) (r r' : RunRecord F)
      → any (λ o. not (has_cursor o)) r.status.outcomes ≡ false
      → some r ≡ some r'
      → (not (is_terminal state) || (open_count r'.status.outcomes == 0)) ≡ true
  all_done state r r' complete same =
      subst
        (λ (x : RunRecord F).
          (not (is_terminal state) || (open_count x.status.outcomes == 0)) ≡ true)
        (some-injective _ _ same)
        (rw (any-open_count r.status.outcomes complete) (or_true (not (is_terminal state))))

  -- What `fail_run` does to the status.
  abbrev failing : Code → RunStatus F → RunStatus F
  failing e run =
      with_state RunState.failed
        (fail_outcomes (shown_error e) 0 run.outcomes (record run { error = some (shown_error e) }))

  failing-IsTidy : (e : Code) (run : RunStatus F) → IsTidy run → IsTidy (failing e run)
  unfolding with_state IsNumbered is_terminal
  failing-IsTidy e run tidy =
      let (numbered, none_left) =
        fail_outcomes_lem (shown_error e) 0 run.outcomes
          (record run { error = some (shown_error e) }) (refl, refl, tidy.numbered) in
      record { numbered = numbered; settled = rw none_left refl }

module _ {F : Type 0} (settings : AppSettings) (host : Host F) where
  finish-AreTidy :
      (workspace_id run_id : ℕ) → Keeps AreTidy (finish settings host workspace_id run_id)
  unfolding finish save_workspace AreTidy
  finish-AreTidy workspace_id run_id s h = get_record-Keeps AreTidy run_id _ s h (λ r found.
      let s' = (save_run run_id (record r { reservation = 0 }) s).1 in
      let h' =
        save_run-AreTidy run_id (record r { reservation = 0 }) (found-IsTidy run_id r s h found) s
          h in
      get_workspace-Keeps AreTidy workspace_id _ s' h' (λ w listed.
        elim (Bool-cases (any is_success r.status.outcomes && not r.status.superseded)) [
          | inl counts ↦ rw counts h'
          | inr skipped ↦ rw skipped h'
        ]))

  lift-AreTidy : {A : Type 0} (r : Result {0, 0} Code A) → Keeps (AreTidy {F = F}) (lift r)
  unfolding lift
  lift-AreTidy r s h = h

  pub fail_run-AreTidy :
      (second workspace_id run_id : ℕ) (e : Code)
      → Keeps AreTidy (fail_run settings host second workspace_id run_id e)
  unfolding fail_run with_state IsNumbered
  fail_run-AreTidy second workspace_id run_id e s h =
      bind-Keeps AreTidy (update_status run_id (failing e))
        (λ _. finish settings host workspace_id run_id)
        (λ t k.
          update_status-AreTidy run_id (failing e) t
            (λ r found. failing-IsTidy e r.status (found-IsTidy run_id r t k found)) k)
        (λ _. finish-AreTidy workspace_id run_id) s h

module _ (n : Number) (settings : AppSettings) (host : Host n.Float) where
  take_outcome-AreTidy :
      (run_id : ℕ) (outcome : OutcomeData n.Float)
      → Keeps AreTidy (take_outcome n settings host run_id outcome)
  unfolding take_outcome
  take_outcome-AreTidy run_id outcome s h = get_record-Keeps AreTidy run_id _ s h (λ r found.
      elim (Bool-cases (leb outcome.cursor r.service_cursor)) [
        | inl old ↦ rw old h
        | inr young ↦ rw young (
            or_raise-Keeps AreTidy _ (get_elem? r.service_indices outcome.model_index) _ s h
              (λ i known.
                complete_outcome-Keeps n settings host run_id i outcome.status outcome.result
                  (error_code outcome.error) false s h))
      ])

  take_page-AreTidy :
      (run_id : ℕ) (outcomes : List (OutcomeData n.Float))
      → Keeps AreTidy (take_page n settings host run_id outcomes)
  unfolding take_page
  take_page-AreTidy run_id [] s h = h
  take_page-AreTidy run_id (outcome ∷ outcomes) s h =
      bind-Keeps AreTidy (take_outcome n settings host run_id outcome)
        (λ _. take_page n settings host run_id outcomes) (take_outcome-AreTidy run_id outcome)
        (λ _. take_page-AreTidy run_id outcomes) s h

  read_page-AreTidy :
      (run_id : ℕ) (page : OutcomePage n.Float)
      → Keeps AreTidy (read_page n settings host run_id page)
  unfolding read_page
  read_page-AreTidy run_id page s h =
      bind-Keeps AreTidy (take_page n settings host run_id page.outcomes)
        (λ _. get_record run_id >>= λ r. save_run run_id (record r {
          service_cursor = page.next_cursor;
          status = record r.status { error = none };
        }))
        (take_page-AreTidy run_id page.outcomes)
        (λ _ t k. get_record-Keeps AreTidy run_id _ t k (λ r found.
          let tidy = found-IsTidy run_id r t k found in
          save_run-AreTidy run_id _ (rewritten-IsTidy r.status _ refl refl tidy.settled tidy) t k))
        s h

  submit_new-AreTidy :
      (run_id : ℕ) (replies : Replies n.Float)
      → Keeps AreTidy (submit_new n settings host run_id replies)
  unfolding submit_new
  submit_new-AreTidy run_id replies =
      let named = λ (id : ℕ). update_status run_id (λ run. record run { job_id = some id }) in
      bind-Keeps AreTidy (lift replies.ready) (λ _. lift replies.submit >>= named)
        (lift-AreTidy settings host replies.ready)
        (λ _.
          bind-Keeps AreTidy (lift replies.submit) named (lift-AreTidy settings host replies.submit)
            (λ id t k.
              update_status-AreTidy run_id (λ run. record run { job_id = some id }) t
                (λ r found.
                  let tidy = found-IsTidy run_id r t k found in
                  rewritten-IsTidy r.status _ refl refl tidy.settled tidy)
                k))

  submit_job-AreTidy :
      (run_id : ℕ) (replies : Replies n.Float)
      → Keeps AreTidy (submit_job n settings host run_id replies)
  unfolding submit_job
  submit_job-AreTidy run_id replies s h = get_record-Keeps AreTidy run_id _ s h (λ r found.
      elim (Bool-cases (has_job r.status.job_id)) [
        | inl known ↦ rw known h
        | inr unknown ↦ rw unknown (submit_new-AreTidy run_id replies s h)
      ])

  cancel_job-AreTidy :
      (run_id : ℕ) (replies : Replies n.Float)
      → Keeps AreTidy (cancel_job n settings host run_id replies)
  unfolding cancel_job is_terminal
  cancel_job-AreTidy run_id replies s h = get_record-Keeps AreTidy run_id _ s h (λ r found.
      elim (Bool-cases r.status.cancel_requested) [
        | inr going ↦ rw going h
        | inl cancelled ↦ rw cancelled (
            bind_from AreTidy (update_status run_id (with_state RunState.cancelling))
              (λ _. lift replies.cancel) s
              (restated run_id RunState.cancelling s h (λ r' found'. refl))
              (λ _. lift-AreTidy settings host replies.cancel))
      ])

  settle-AreTidy :
      (workspace_id run_id : ℕ) (upstream : JobState)
      → Keeps AreTidy (settle n settings host workspace_id run_id upstream)
  unfolding settle
  settle-AreTidy workspace_id run_id upstream s h =
      get_record-Keeps AreTidy run_id _ s h (λ r found.
        let next = if r.status.cancel_requested then RunState.cancelling else run_state upstream in
        elim (Bool-cases (is_terminal (run_state upstream))) [
          | inr going ↦ rw going (
              bind_from AreTidy (update_status run_id (with_state next)) (λ _. pure false) s
                (restated run_id next s h
                  (λ r' found'. going_on r.status.cancel_requested upstream _ going))
                (λ _ t k. k))
          | inl over ↦
              rw over (elim (Bool-cases (any (λ o. not (has_cursor o)) r.status.outcomes)) [
                | inl missing ↦ rw missing h
                | inr complete ↦ rw complete (
                    bind_from AreTidy (update_status run_id (with_state (run_state upstream)))
                      (λ _. finish settings host workspace_id run_id >> pure true) s
                      (restated run_id (run_state upstream) s h (λ r' found'.
                        all_done (run_state upstream) r r' complete (sym found ∙ found')))
                      (λ _ t k.
                        bind_from AreTidy (finish settings host workspace_id run_id)
                          (λ _. pure true) t (finish-AreTidy settings host workspace_id run_id t k)
                          (λ _ t' k'. k')))
              ])
        ])

  pub poll-AreTidy :
      (workspace_id run_id : ℕ) (replies : Replies n.Float)
      → Keeps AreTidy (poll n settings host workspace_id run_id replies)
  unfolding poll
  poll-AreTidy workspace_id run_id replies =
      let last = λ (upstream : JobState) (page : OutcomePage n.Float).
        read_page n settings host run_id page
        >> settle n settings host workspace_id run_id upstream in
      let paged = λ (upstream : JobState). lift replies.outcomes >>= last upstream in
      bind-Keeps AreTidy (submit_job n settings host run_id replies)
        (λ _. cancel_job n settings host run_id replies >> (lift replies.status >>= paged))
        (submit_job-AreTidy run_id replies)
        (λ _.
          bind-Keeps AreTidy (cancel_job n settings host run_id replies)
            (λ _. lift replies.status >>= paged) (cancel_job-AreTidy run_id replies)
            (λ _.
              bind-Keeps AreTidy (lift replies.status) paged
                (lift-AreTidy settings host replies.status)
                (λ upstream.
                  bind-Keeps AreTidy (lift replies.outcomes) (last upstream)
                    (lift-AreTidy settings host replies.outcomes)
                    (λ page.
                      bind-Keeps AreTidy (read_page n settings host run_id page)
                        (λ _. settle n settings host workspace_id run_id upstream)
                        (read_page-AreTidy run_id page)
                        (λ _. settle-AreTidy workspace_id run_id upstream)))))
