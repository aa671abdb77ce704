-- ===== src/Service/JobStore/Models.antt =====
-- job_store.py: `start_model`, `finish_model` with `_terminal`, and `cancel`.
use Prim.Native.Nat.{ℕ, ◌+◌}
use value_stream_simulator.Prelude.{
  Bool, true, false, ◌||◌, Option, none, some, List, [], ◌∷◌, ◌++◌, map, length, get_elem?, set,
  all, any, ltb, if◌then◌else◌,
}
use value_stream_simulator.Prelude.Exec.{pure, throw, gets, ◌>>=◌, ◌>>◌}
use value_stream_simulator.Service.Schemas.{
  ResultData, ModelError, result_too_large, worker_failed, Status, JobState, OutcomeData,
  valid_shape,
}
use value_stream_simulator.Service.Settings.{ServiceSettings}
use value_stream_simulator.Service.JobStore.{
  index_error, validation_error, Job, Host, Method, is_live, is_finished, same_status, is_cancelled,
  is_some, retained_bytes, save, or_raise, monotonic, get_job,
}

unfoldable pub too_large : ℕ → ModelError
too_large index = record {
  model_index = index;
  code = result_too_large;
  message = "model result exceeds configured storage limit";
}

unfoldable pub no_outcome : ℕ → ModelError
no_outcome index = record {
  model_index = index;
  code = worker_failed;
  message = "model worker failed";
}

unfoldable pub cancel_state : Status → Status
cancel_state st = if is_live st then Status.cancelled else st

-- What is stored of a reported result and error, and the bytes that it takes.
pub record Admitted (F : Type 0) : Type 0 where
  pub result : Option (ResultData F)
  pub error : Option ModelError
  pub size : ℕ

module _ {F : Type 0} where
  -- `states[index] = "running"` and `status = "running"`
  unfoldable pub begun : ℕ → Job F → Job F
  begun index job = record job {
    states = set job.states index Status.running;
    status = JobState.running;
  }

  unfoldable pub begin_model : ℕ → ℕ → Job F → Method F Bool
  begin_model job_id index job = do save job_id (begun index job); pure true

  unfoldable pub closing_state : Job F → JobState
  closing_state job =
      if is_cancelled job.status
      then job.status
      else if any (same_status Status.failed) job.states
      then JobState.completed_with_errors
      else JobState.completed

  -- What `_terminal` leaves of the job: it ends where all models have finished.
  unfoldable pub settled : ℕ → Job F → Job F
  settled now job =
      if all is_finished job.states
      then record job { status = closing_state job; terminal_at = some now }
      else job

  abbrev pub state_of : Admitted F → Status
  state_of a = if is_some a.result then Status.succeeded else Status.failed

  unfoldable pub outcome_of : ℕ → Job F → Admitted F → OutcomeData F
  outcome_of index job a = record {
    cursor = length job.outcomes + 1;
    model_index = index;
    status = state_of a;
    result = a.result;
    error = a.error;
  }

  -- The job once `states[index]` is written: `OutcomeData` has not been built yet, and may raise.
  unfoldable pub with_state : ℕ → Job F → Admitted F → Job F
  with_state index job a = record job {
    states = set job.states index (state_of a);
    result_bytes = job.result_bytes + a.size;
  }

  unfoldable pub with_outcome : ℕ → Job F → Admitted F → Job F
  with_outcome index job a = record (with_state index job a) {
    outcomes = job.outcomes ++ outcome_of index job a ∷ [];
  }

  -- The loop of `cancel` over the states from `index` on: each live model gets an outcome.
  unfoldable pub cancel_outcomes : ℕ → ℕ → List Status → List (OutcomeData F)
  cancel_outcomes cursor index [] = []
  cancel_outcomes cursor index (st ∷ rest) = elim (is_live st) [
    | true ↦
        record {
          cursor = cursor + 1;
          model_index = index;
          status = Status.cancelled;
          result = none;
          error = none;
        }
        ∷ cancel_outcomes (cursor + 1) (index + 1) rest
    | false ↦ cancel_outcomes cursor (index + 1) rest
  ]

  unfoldable pub cancelled_job : ℕ → Job F → Job F
  cancelled_job now job = record job {
    status = JobState.cancelled;
    states = map cancel_state job.states;
    outcomes = job.outcomes ++ cancel_outcomes (length job.outcomes) 0 job.states;
    terminal_at = some now;
  }

module _ {F : Type 0} (settings : ServiceSettings) (host : Host F) where
  unfoldable pub start_model : ℕ → ℕ → Method F Bool
  start_model job_id index = do
    job ← get_job settings host job_id
    state ← or_raise index_error (get_elem? job.states index)
    if same_status Status.queued state then begin_model job_id index job else pure false

  unfoldable pub close_job : ℕ → Job F → Method F Unit
  close_job job_id job = do now ← monotonic settings host; save job_id (settled now job)

  -- `_terminal`. It reads the clock where all models have finished.
  unfoldable pub close_if_finished : ℕ → Job F → Method F Unit
  close_if_finished job_id job =
      if all is_finished job.states then close_job job_id job else pure tt

  unfoldable pub exceeds : ℕ → Job F → ℕ → Bool
  exceeds retained job size =
      ltb settings.max_model_outcome_bytes size
      || ltb settings.max_job_outcome_bytes (job.result_bytes + size)
      || ltb settings.max_retained_bytes (retained + size)

  unfoldable pub admit : ℕ → ℕ → Job F → Option (ResultData F) → Option ModelError → Admitted F
  admit retained index job none none = record {
    result = none;
    error = some (no_outcome index);
    size = 0;
  }
  admit retained index job none (some e) = record { result = none; error = some e; size = 0 }
  admit retained index job (some r) error =
      let size = host.json_bytes r in
      if exceeds retained job size
      then record { result = none; error = some (too_large index); size = 0 }
      else record { result = some r; error = error; size = size }

  unfoldable pub append_outcome : ℕ → ℕ → Job F → Admitted F → Method F Unit
  append_outcome job_id index job a = do
    save job_id (with_outcome index job a)
    close_if_finished job_id (with_outcome index job a)

  unfoldable pub record_outcome : ℕ → ℕ → Job F → Admitted F → Method F Unit
  record_outcome job_id index job a = do
    save job_id (with_state index job a)
    if valid_shape (outcome_of index job a)
        then append_outcome job_id index job a
        else throw validation_error

  unfoldable pub finish_model : ℕ → ℕ → Option (ResultData F) → Option ModelError → Method F Unit
  finish_model job_id index result error = do
    job ← get_job settings host job_id
    state ← or_raise index_error (get_elem? job.states index)
    retained ← gets (λ s. retained_bytes s.jobs)
    if is_live state
        then record_outcome job_id index job (admit retained index job result error)
        else pure tt

  unfoldable pub cancel_live : ℕ → Job F → Method F Unit
  cancel_live job_id job = do now ← monotonic settings host; save job_id (cancelled_job now job)

  unfoldable pub cancel : ℕ → Method F Unit
  cancel job_id = do
    job ← get_job settings host job_id
    if is_some job.terminal_at then pure tt else cancel_live job_id job
