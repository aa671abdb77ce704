-- ===== src/Service/Scheduler/Examples.antt =====
-- The scheduler and a worker's report on a small instance. A future is whether it is done.
use Prim.Native.Nat.{ℕ, ◌+◌}
use value_stream_simulator.Prelude.{
  arith, ◌==◌, if◌then◌else◌, ◌≡◌, refl, Bool, true, false, Option, none, some, List, [], ◌∷◌,
  get_elem?,
}
use value_stream_simulator.Prelude.Exec.{raise}
use value_stream_simulator.Prelude.Dict.{lookup, put, keep, values}
use value_stream_simulator.Service.Schemas.{ResultData, pool, JobState, Status}
use value_stream_simulator.Service.Settings.{ServiceSettings}
use value_stream_simulator.Service.JobStore.{
  Error, Job, JobStore, Host, new_store, prune, is_retained, monotonic, draw_id, save, nonterminal,
  retained_bytes, is_live,
}
use value_stream_simulator.Service.JobStore.Access.{create, is_full, new_job}
use value_stream_simulator.Service.JobStore.Models.{exceeds}
use value_stream_simulator.Service.JobStore.Invariant.Methods.{Reported}
use value_stream_simulator.Service.Scheduler.{Scheduler, Pool, new_scheduler}
use value_stream_simulator.Service.Scheduler.Slots.{
  IsBusy, Step, submit_step, futures_step, forget_step, cancel_step, steps, reachable-IsBusy,
}
use value_stream_simulator.Service.Scheduler.Report.{
  Run, exited, result_output, report, report_model, report-Reported,
}
use value_stream_simulator.Service.JobStore.Invariant.{StoreIsSound}
use value_stream_simulator.Service.JobStore.Calls.{
  Call, reserve_call, start_call, finish_call, perform_all,
}
use value_stream_simulator.Service.Scheduler.Served.{served-IsSound}
use value_stream_simulator.Service.Scheduler.Stall.{misnamed_stalls}

abbrev settings : ServiceSettings
settings = record {
  max_tasks = 1000;
  max_models = 500;
  max_body_bytes = 2097152;
  max_active_jobs = 1;
  max_queued_jobs = 4;
  max_model_workers = 4;
  max_model_seconds = 120;
  max_model_outcome_bytes = 8388608;
  max_job_outcome_bytes = 1073741824;
  max_retained_jobs = 64;
  max_retained_bytes = 268435456;
  job_ttl_seconds = 3600;
}

-- A request is its number of models.
abbrev flags : Pool ℕ
flags = record {
  Future = Bool;
  submit = λ _ _ _. false;
  done = λ f. f;
  cancel = λ _. true;
  models = λ r. r;
}

abbrev queued_view : ℕ → Option JobState
queued_view id = some JobState.queued

abbrev calls : List (Step flags settings)
calls =
    submit_step 1 2
    ∷ submit_step 2 1
    ∷ submit_step 3 1
    ∷ futures_step 1 (true ∷ true ∷ [])
    ∷ forget_step queued_view 1
    ∷ cancel_step queued_view true 3
    ∷ []

reachable-IsBusy_example : IsBusy flags settings (steps flags settings calls (new_scheduler flags))
reachable-IsBusy_example = reachable-IsBusy flags settings calls

abbrev host : Host ℕ
host = record { monotonic = λ n. n; uuid4 = λ n. 100 + n; json_bytes = λ _. 10 }

abbrev result : ResultData ℕ
result = record {
  model_index = 0;
  model = record {
    developer_team = [];
    deployment_cadence = 2;
    qa_testers = pool 1 record { time_cost = 0; failure_rate = 0; failure_cost = 0 };
    toolchain_pool = pool 1 record { deployment_duration = 0; failure_rate = 0 };
    support_interval = none;
    support_task_story_points = 1;
  };
  summary_result = record { completion_time = 9; total_delivered_value = 8; loss = 1 };
  metadata = record { event_metadata = []; resource_metadata = [] };
}

abbrev good_run : Run ℕ
good_run = exited 0 600 (result_output result)

report-Reported_example :
    Reported 0 (report settings 0 good_run).result (report settings 0 good_run).error
report-Reported_example = report-Reported settings 0 good_run (λ other. other refl)

abbrev stored : JobStore ℕ
stored = (create settings host 2 new_store).1

misnamed_stalls_example :
    let after = report_model settings host 100 1 (exited 0 600 (result_output result)) stored in
    (after.0 ≡ raise Error.validation_error)
    × (job' : Job ℕ) × (lookup after.1.jobs 100 ≡ some job')
    × (get_elem? job'.states 1 ≡ some Status.succeeded)
    × (job'.outcomes ≡ [])
    × (job'.terminal_at ≡ none)
unfolding create is_full prune monotonic draw_id save new_job nonterminal retained_bytes is_retained
    new_store lookup put keep values is_live exceeds
misnamed_stalls_example =
    misnamed_stalls settings host 100 1 600 result stored (new_job 100 2 1) Status.queued refl refl
      refl (λ e. cc) (omega arith) refl

abbrev served_calls : List (Call ℕ)
served_calls =
    reserve_call 1 none 42
    ∷ start_call 100 0
    ∷ finish_call 100 0 (report settings 0 good_run).result (report settings 0 good_run).error
    ∷ []

served-IsSound_example :
    StoreIsSound settings host (perform_all settings host served_calls new_store)
served-IsSound_example =
    served-IsSound settings host served_calls
      (tt, (tt, ((good_run, λ other. other refl, refl, refl), tt)))

-- Job 1 has ended; 2 was cancelled meanwhile, 3 and 4 wait.
abbrev ended : Scheduler flags
ended = record {
  futures = (1, true ∷ true ∷ []) ∷ [];
  active_jobs = 1 ∷ [];
  pending_jobs = (2, 1) ∷ (3, 1) ∷ (4, 2) ∷ [];
  closed = false;
}

abbrev two_cancelled : ℕ → Option JobState
two_cancelled id = if id == 2 then some JobState.cancelled else some JobState.queued
