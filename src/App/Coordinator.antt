-- ===== src/App/Coordinator.antt =====
-- src/value_stream/app/coordinator.py: `complete_outcome` and `execute`, and `loss_percent` of
-- app/metrics.py. What the simulation service answers in one turn of the polling loop is a value;
-- between two turns, other calls may change the store.
pub mod Loop
pub mod Numbered
pub mod Ended
pub mod Backoff
mod Examples
use Prim.Native.Nat.{ℕ, suc, ◌+◌, ◌-◌, ◌*◌}
use value_stream_simulator.Prelude.{
  Bool, true, false, not, ◌||◌, ◌&&◌, Option, none, some, List, [], ◌∷◌, map, length, get_elem?,
  set, any, leb, ltb, ◌==◌, if◌then◌else◌,
}
use value_stream_simulator.Prelude.Exec.{
  Result, ok, raise, pure, throw, gets, modify, continue, ◌>>=◌, ◌>>◌,
}
use value_stream_simulator.Prelude.Number.{Number}
use value_stream_simulator.Service.Schemas.{
  TaskInput, ResultData, JobRequest, OutcomeData, OutcomePage, ModelError, Status, JobState,
}
use value_stream_simulator.App.Schemas.{
  Code, service_unavailable, service_invalid_response, body_too_large, internal_error,
  job_not_found, service_job_lost, model, key_error, validation_error, ConcreteScenario, RunState,
  is_terminal, OutcomeSummary, RunStatus,
}
use value_stream_simulator.App.Settings.{AppSettings}
use value_stream_simulator.App.Storage.{
  RunRecord, WorkspaceStore, Host, Method, includes, or_raise, save_run, get_record,
}
use value_stream_simulator.App.Storage.Access.{monotonic, cached_result, retain_result, finish}
use value_stream_simulator.App.Storage.Admission.{min}
use value_stream_simulator.App.Storage.Editing.{lift}

-- status.job_id is not None
unfoldable pub has_job : Option ℕ → Bool
has_job none = false
has_job (some id) = true

-- The service's answers in one turn of the loop.
pub record Replies (F : Type 0) : Type 0 where
  pub ready : Result {0, 0} Code Unit
  pub submit : Result {0, 0} Code ℕ
  pub cancel : Result {0, 0} Code Unit
  pub status : Result {0, 0} Code JobState
  pub outcomes : Result {0, 0} Code (OutcomePage F)

-- The local variables of the loop.
pub record Waiting : Type 0 where
  pub retry_start : Option ℕ
  pub delay : ℕ

unfoldable pub run_state : JobState → RunState
run_state JobState.queued = RunState.queued
run_state JobState.running = RunState.running
run_state JobState.completed = RunState.completed
run_state JobState.completed_with_errors = RunState.completed_with_errors
run_state JobState.cancelled = RunState.cancelled

-- The error that a failed run shows.
unfoldable pub shown_error : Code → Code
shown_error job_not_found = service_job_lost
shown_error key_error = internal_error
shown_error validation_error = internal_error
shown_error e = e

unfoldable pub error_code : Option ModelError → Option Code
error_code none = none
error_code (some e) = some (model e.code)

module _ {F : Type 0} where
  unfoldable pub has_cursor : OutcomeSummary F → Bool
  has_cursor o = ltb 0 o.cursor

  -- The outcome gets its status and the next cursor.
  unfoldable pub closed : Status → Option Code → Bool → ℕ → OutcomeSummary F → OutcomeSummary F
  closed status error cached last o = record o {
    status = status;
    error = error;
    cached = cached;
    cursor = suc last;
  }

  unfoldable pub with_closed :
      ℕ → Status → Option Code → Bool → OutcomeSummary F → RunStatus F → RunStatus F
  unfolding closed
  with_closed index status error cached o run = record run {
    outcomes = set run.outcomes index (closed status error cached run.last_cursor o);
    last_cursor = suc run.last_cursor;
  }

  -- complete_outcome(record, i, Status.FAILED, error=error) for each outcome without a cursor; the
  -- loop over the outcomes, from an index.
  unfoldable pub fail_outcomes : Code → ℕ → List (OutcomeSummary F) → RunStatus F → RunStatus F
  unfolding with_closed has_cursor
  fail_outcomes error index [] run = run
  fail_outcomes error index (o ∷ os) run =
      fail_outcomes error (suc index) os
        (if has_cursor o then run else with_closed index Status.failed (some error) false o run)

  unfoldable pub update_status : ℕ → (RunStatus F → RunStatus F) → Method F Unit
  unfolding get_record save_run
  update_status run_id f = do
    r ← get_record run_id
    save_run run_id (record r { status = f r.status })

  unfoldable pub with_state : RunState → RunStatus F → RunStatus F
  with_state state run = record run { state = state }

  unfoldable pub scenarios_at :
      List ℕ → List (OutcomeSummary F) → Option (List (ConcreteScenario F))
  scenarios_at [] os = some []
  scenarios_at (i ∷ is) os = elim (get_elem? os i) [
    | none ↦ none
    | some o ↦ elim (scenarios_at is os) [ none ↦ none | some ss ↦ some (o.scenario ∷ ss) ]
  ]

  -- The job that the service is asked for: the scenarios that the cache has no result for.
  unfoldable pub job_request : ℕ → RunRecord F → List (ConcreteScenario F) → JobRequest F
  job_request submission_id r scenarios = record {
    tasks = r.task_set.tasks;
    models = map (λ s. s.model) scenarios;
    seed = none;
    model_seeds = some (map (λ s. s.execution_seed) scenarios);
    submission_id = some submission_id;
  }

module _ (n : Number) (settings : AppSettings) (host : Host n.Float) where
  unfoldable pub loss_percent : n.Float → n.Float → Option n.Float
  loss_percent initial delivered =
      if n.same initial n.zero
      then none
      else some (n.div (n.mul (host.decimal 100 0) (n.sub initial delivered)) initial)

  -- sum(t.initial_value for t in tasks)
  unfoldable pub total_value : n.Float → List (TaskInput n.Float) → n.Float
  total_value total [] = total
  total_value total (t ∷ ts) = total_value (n.add total t.initial_value) ts

  unfoldable pub measured :
      RunRecord n.Float
      → Option (ResultData n.Float)
      → OutcomeSummary n.Float
      → OutcomeSummary n.Float
  unfolding loss_percent total_value
  measured r none o = o
  measured r (some result) o = record o {
    loss_percent =
        loss_percent (total_value n.zero r.task_set.tasks)
          result.summary_result.total_delivered_value;
    completion_time = some result.summary_result.completion_time;
    delivered_value = some result.summary_result.total_delivered_value;
  }

  unfoldable pub retain_if_any : ℕ → ℕ → Option (ResultData n.Float) → Method n.Float Unit
  unfolding retain_result
  retain_if_any run_id index none = pure tt
  retain_if_any run_id index (some result) = retain_result settings host run_id index result

  unfoldable pub complete_outcome :
      ℕ → ℕ → Status → Option (ResultData n.Float) → Option Code → Bool → Method n.Float Unit
  unfolding get_record or_raise has_cursor retain_if_any with_closed measured update_status
  complete_outcome run_id index status result error cached = do
    r ← get_record run_id
    o ← or_raise key_error (get_elem? r.status.outcomes index)
    if has_cursor o then pure tt else do
      retain_if_any run_id index result
      update_status run_id (with_closed index status error cached (measured r result o))

  -- The scenarios whose results the cache has, from an index.
  unfoldable pub complete_cached : ℕ → ℕ → List ℕ → Method n.Float Unit
  unfolding get_record or_raise has_cursor includes cached_result complete_outcome
  complete_cached run_id index [] = pure tt
  complete_cached run_id index (key ∷ keys) = do
    r ← get_record run_id
    o ← or_raise key_error (get_elem? r.status.outcomes index)
    if includes index r.service_indices || has_cursor o then pure tt else (do
      result ← cached_result settings host key
      complete_outcome run_id index Status.succeeded (some result) none true)
    complete_cached run_id (suc index) keys

  -- One outcome of a page.
  unfoldable pub take_outcome : ℕ → OutcomeData n.Float → Method n.Float Unit
  unfolding get_record or_raise complete_outcome error_code
  take_outcome run_id outcome = do
    r ← get_record run_id
    if leb outcome.cursor r.service_cursor then pure tt else do
      i ← or_raise service_invalid_response (get_elem? r.service_indices outcome.model_index)
      complete_outcome run_id i outcome.status outcome.result (error_code outcome.error) false

  unfoldable pub take_page : ℕ → List (OutcomeData n.Float) → Method n.Float Unit
  unfolding take_outcome
  take_page run_id [] = pure tt
  take_page run_id (outcome ∷ outcomes) = do take_outcome run_id outcome; take_page run_id outcomes

  unfoldable pub submit_new : ℕ → Replies n.Float → Method n.Float Unit
  unfolding lift update_status
  submit_new run_id replies = do
    lift replies.ready
    id ← lift replies.submit
    update_status run_id (λ run. record run { job_id = some id })

  -- The job is submitted, unless it was in an earlier turn.
  unfoldable pub submit_job : ℕ → Replies n.Float → Method n.Float Unit
  unfolding get_record submit_new
  submit_job run_id replies = do
    r ← get_record run_id
    if has_job r.status.job_id then pure tt else submit_new run_id replies

  unfoldable pub cancel_job : ℕ → Replies n.Float → Method n.Float Unit
  unfolding get_record lift update_status with_state
  cancel_job run_id replies = do
    r ← get_record run_id
    if r.status.cancel_requested
        then (do update_status run_id (with_state RunState.cancelling); lift replies.cancel)
        else pure tt

  unfoldable pub read_page : ℕ → OutcomePage n.Float → Method n.Float Unit
  unfolding take_page get_record save_run
  read_page run_id page = do
    take_page run_id page.outcomes
    r ← get_record run_id
    save_run run_id
        (record r { service_cursor = page.next_cursor; status = record r.status { error = none } })

  -- The state after a turn: an ended job must have all its outcomes. True where the run has ended.
  unfoldable pub settle : ℕ → ℕ → JobState → Method n.Float Bool
  unfolding get_record has_cursor run_state is_terminal update_status with_state finish
  settle workspace_id run_id upstream = do
    r ← get_record run_id
    if is_terminal (run_state upstream)
        then if any (λ o. not (has_cursor o)) r.status.outcomes
          then throw service_invalid_response
          else (do
            update_status run_id (with_state (run_state upstream))
            finish settings host workspace_id run_id
            pure true)
        else (do
          update_status run_id (
              with_state
                (if r.status.cancel_requested then RunState.cancelling else run_state upstream))
          pure false)

  -- One turn of the loop.
  unfoldable pub poll : ℕ → ℕ → Replies n.Float → Method n.Float Bool
  unfolding submit_job cancel_job lift read_page settle
  poll workspace_id run_id replies = do
    submit_job run_id replies
    cancel_job run_id replies
    upstream ← lift replies.status
    page ← lift replies.outcomes
    read_page run_id page
    settle workspace_id run_id upstream
