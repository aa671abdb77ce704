-- ===== src/Service/JobStore/Access.antt =====
-- job_store.py: `create`, `reserve`, `status` and `page`.
use Prim.Native.Nat.{ℕ, ◌+◌}
use value_stream_simulator.Prelude.{
  Bool, true, false, ◌||◌, Option, none, some, [], length, replicate, select, count_if, leb, ltb,
  ◌==◌, if◌then◌else◌,
}
use value_stream_simulator.Prelude.Exec.{pure, throw, gets, modify, ◌>>=◌, ◌>>◌}
use value_stream_simulator.Prelude.Dict.{Dict, lookup, put}
use value_stream_simulator.Service.Schemas.{Status, JobState, OutcomePage, JobStatus}
use value_stream_simulator.Service.Settings.{ServiceSettings}
use value_stream_simulator.Service.JobStore.{
  capacity_exceeded, submission_conflict, Job, JobStore, Host, Method, same_status, nonterminal,
  retained_bytes, save, monotonic, draw_id, prune, get_job,
}

module _ {F : Type 0} where
  unfoldable pub new_job : ℕ → ℕ → ℕ → Job F
  new_job job_id model_count now = record {
    job_id = job_id;
    states = replicate model_count Status.queued;
    created_at = now;
    status = JobState.queued;
    outcomes = [];
    result_bytes = 0;
    terminal_at = none;
  }

  -- The submission that `reserve` looks up: no identifier, no submission.
  unfoldable pub submitted : Option ℕ → JobStore F → Option (ℕ × ℕ)
  submitted none s = none
  submitted (some id) s = lookup s.submissions id

  unfoldable pub note_submission : Option ℕ → ℕ → ℕ → JobStore F → JobStore F
  note_submission none fingerprint job_id s = s
  note_submission (some id) fingerprint job_id s = record s {
    submissions = put s.submissions id (fingerprint, job_id);
  }

  unfoldable pub reserve_again : ℕ → ℕ × ℕ → Method F (ℕ × Bool)
  reserve_again fingerprint (previous, job_id) =
      if previous == fingerprint then pure (job_id, false) else throw submission_conflict

  unfoldable pub job_status : ℕ → Job F → JobStatus
  job_status job_id job = record {
    job_id = job_id;
    status = job.status;
    total_models = length job.states;
    queued_models = count_if (same_status Status.queued) job.states;
    running_models = count_if (same_status Status.running) job.states;
    succeeded_models = count_if (same_status Status.succeeded) job.states;
    failed_models = count_if (same_status Status.failed) job.states;
    cancelled_models = count_if (same_status Status.cancelled) job.states;
    last_cursor = length job.outcomes;
  }

  unfoldable pub job_page : ℕ → Job F → OutcomePage F
  job_page after job = record {
    outcomes = select (λ o. ltb after o.cursor) job.outcomes;
    next_cursor = length job.outcomes;
  }

module _ {F : Type 0} (settings : ServiceSettings) (host : Host F) where
  unfoldable pub is_full : Dict (Job F) → Bool
  is_full jobs =
      leb settings.max_retained_jobs (length jobs)
      || leb settings.max_retained_bytes (retained_bytes jobs)
      || leb (settings.max_active_jobs + settings.max_queued_jobs) (nonterminal jobs)

  unfoldable pub create : ℕ → Method F ℕ
  create model_count = do
    prune settings host
    full ← gets (λ s. is_full s.jobs)
    if full then throw capacity_exceeded else do
      job_id ← draw_id settings host
      now ← monotonic settings host
      save job_id (new_job job_id model_count now)
      pure job_id

  unfoldable pub reserve_new : ℕ → Option ℕ → ℕ → Method F (ℕ × Bool)
  reserve_new model_count submission_id fingerprint = do
    job_id ← create model_count
    modify (note_submission submission_id fingerprint job_id)
    pure (job_id, true)

  unfoldable pub reserve : ℕ → Option ℕ → ℕ → Method F (ℕ × Bool)
  reserve model_count submission_id fingerprint = do
    prune settings host
    found ← gets (submitted submission_id)
    elim found [
      | none ↦ reserve_new model_count submission_id fingerprint
      | some known ↦ reserve_again fingerprint known
    ]

  unfoldable pub status : ℕ → Method F JobStatus
  status job_id = do job ← get_job settings host job_id; pure (job_status job_id job)

  unfoldable pub page : ℕ → ℕ → Method F (OutcomePage F)
  page job_id after = do job ← get_job settings host job_id; pure (job_page after job)
