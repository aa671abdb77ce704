-- ===== src/Service/JobStore/Examples.antt =====
-- job_store.py run on a small instance: two models, a clock that ticks once a call, floats as numbers.
use Prim.Native.Nat.{ℕ, ◌+◌}
use value_stream_simulator.Prelude.{
  ◌≡◌, ◌≢◌, refl, true, false, none, some, List, [], ◌∷◌, length, drop, ◌==◌, if◌then◌else◌,
}
use value_stream_simulator.Prelude.Exec.{Result, ok, raise}
use value_stream_simulator.Prelude.Dict.{lookup, put, keep, values}
use value_stream_simulator.Service.Schemas.{ResultData, pool, OutcomePage, JobStatus, valid_shape}
use value_stream_simulator.Service.Settings.{ServiceSettings}
use value_stream_simulator.Service.JobStore.{
  Error, submission_conflict, Job, JobStore, Host, new_store, is_live, is_finished, same_status,
  nonterminal, retained_bytes, save, or_raise, monotonic, draw_id, is_retained, prune, get_job,
}
use value_stream_simulator.Service.JobStore.Access.{
  is_full, new_job, create, submitted, note_submission, reserve_new, reserve, job_status, status,
  job_page, page,
}
use value_stream_simulator.Service.JobStore.Models.{
  begun, begin_model, start_model, closing_state, settled, close_job, close_if_finished, no_outcome,
  exceeds, admit, outcome_of, with_state, with_outcome, append_outcome, record_outcome,
  finish_model, cancel_outcomes, cancel_state, cancelled_job, cancel_live, cancel,
}
use value_stream_simulator.Service.JobStore.Invariant.{StoreIsSound}
use value_stream_simulator.Service.JobStore.Calls.{
  Call, reserve_call, start_call, finish_call, perform, perform_all, reachable-IsSound,
}
use value_stream_simulator.Service.JobStore.Paging.{page-eq-drop, status_adds_up}
use value_stream_simulator.Service.JobStore.Repeats.{start_once, cancel_silences}
use value_stream_simulator.Service.JobStore.Reports.{finish_once}
use value_stream_simulator.Service.JobStore.Resubmit.{reserve_twice}

abbrev settings : ServiceSettings
settings = record {
  max_tasks = 1000;
  max_models = 500;
  max_body_bytes = 2097152;
  max_active_jobs = 4;
  max_queued_jobs = 4;
  max_model_workers = 4;
  max_model_seconds = 120;
  max_model_outcome_bytes = 8388608;
  max_job_outcome_bytes = 1073741824;
  max_retained_jobs = 64;
  max_retained_bytes = 268435456;
  job_ttl_seconds = 3600;
}

abbrev host : Host ℕ
host = record { monotonic = λ n. n; uuid4 = λ n. 100 + n; json_bytes = λ _. 10 }

abbrev result : ResultData ℕ
result = record {
  model_index = 0;
  model = record {
    developer_team = [];
    deployment_cadence = 2;
    qa_testers = pool 1 record { time_cost = 0; failure_rate = 0; failure_cost = 0 };
    toolchain_pool = pool 1 record { deployment_duration = 0; failure_rate = 0 };
    support_interval = none;
    support_task_story_points = 1;
  };
  summary_result = record { completion_time = 9; total_delivered_value = 8; loss = 1 };
  metadata = record { event_metadata = []; resource_metadata = [] };
}

abbrev calls : List (Call ℕ)
calls =
    reserve_call 2 (some 7) 42
    ∷ start_call 100 0
    ∷ finish_call 100 0 (some result) none
    ∷ start_call 100 1
    ∷ []

reachable-IsSound_example : StoreIsSound settings host (perform_all settings host calls new_store)
reachable-IsSound_example = reachable-IsSound settings host calls (tt, (tt, (refl, (tt, tt))))

abbrev reached : JobStore ℕ
reached = perform_all settings host calls new_store

abbrev reached-IsSound : StoreIsSound settings host reached
reached-IsSound = reachable-IsSound settings host calls (tt, (tt, (refl, (tt, tt))))

-- What a call returned, where it did.
abbrev answer : {A : Type 0} → A → Result Error A → A
answer d (ok a) = a
answer d (raise e) = d

abbrev read_page : OutcomePage ℕ
read_page = answer record { outcomes = []; next_cursor = 0 } (page settings host 100 0 reached).0

page_read : length read_page.outcomes ≡ 1
unfolding perform_all perform reserve submitted reserve_new create is_full note_submission prune
    monotonic draw_id save new_job nonterminal retained_bytes is_retained get_job or_raise
    start_model begin_model begun finish_model record_outcome append_outcome with_state with_outcome
    outcome_of valid_shape admit exceeds close_if_finished page job_page is_live is_finished
    same_status new_store lookup put keep values
page_read = refl

page-eq-drop_example :
    (job : Job ℕ) × (lookup (page settings host 100 0 reached).1.jobs 100 ≡ some job)
    × (read_page.outcomes ≡ drop 0 job.outcomes)
    × (read_page.next_cursor ≡ length job.outcomes)
unfolding perform_all perform reserve submitted reserve_new create is_full note_submission prune
    monotonic draw_id save new_job nonterminal retained_bytes is_retained get_job or_raise
    start_model begin_model begun finish_model record_outcome append_outcome with_state with_outcome
    outcome_of valid_shape admit exceeds close_if_finished page job_page is_live is_finished
    same_status new_store lookup put keep values
page-eq-drop_example = page-eq-drop settings host 100 0 reached read_page reached-IsSound refl

abbrev read_status : JobStatus
read_status = answer (job_status 0 (new_job {F = ℕ} 0 0 0)) (status settings host 100 reached).0

status_adds_up_example :
    (read_status.queued_models
        + read_status.running_models
        + (read_status.succeeded_models + read_status.failed_models + read_status.cancelled_models)
      ≡ read_status.total_models)
    × (read_status.last_cursor
        ≡ read_status.succeeded_models + read_status.failed_models + read_status.cancelled_models)
unfolding perform_all perform reserve submitted reserve_new create is_full note_submission prune
    monotonic draw_id save new_job nonterminal retained_bytes is_retained get_job or_raise
    start_model begin_model begun finish_model record_outcome append_outcome with_state with_outcome
    outcome_of valid_shape admit exceeds close_if_finished page job_page is_live is_finished
    same_status new_store lookup put keep values status job_status
status_adds_up_example = status_adds_up settings host 100 reached read_status reached-IsSound refl

abbrev early_calls : List (Call ℕ)
early_calls = reserve_call 2 (some 7) 42 ∷ []

abbrev early : JobStore ℕ
early = perform_all settings host early_calls new_store

start_once_example :
    let s' = (start_model settings host 100 1 early).1 in
    ((start_model settings host 100 1 s').0 ≢ ok true)
    × ((start_model settings host 100 1 s').1 ≡ (prune settings host s').1)
unfolding perform_all perform reserve submitted reserve_new create is_full note_submission prune
    monotonic draw_id save new_job nonterminal retained_bytes is_retained get_job or_raise
    start_model begin_model begun finish_model record_outcome append_outcome with_state with_outcome
    outcome_of valid_shape admit exceeds close_if_finished page job_page is_live is_finished
    same_status new_store lookup put keep values
start_once_example =
    start_once settings host 100 1 early (reachable-IsSound settings host early_calls (tt, tt)) refl

finish_once_example :
    let s' = (finish_model settings host 100 1 none none reached).1 in
    (finish_model settings host 100 1 (some result) none s').1 ≡ (prune settings host s').1
unfolding perform_all perform reserve submitted reserve_new create is_full note_submission prune
    monotonic draw_id save new_job nonterminal retained_bytes is_retained get_job or_raise
    start_model begin_model begun finish_model record_outcome append_outcome with_state with_outcome
    outcome_of valid_shape admit exceeds close_if_finished page job_page is_live is_finished
    same_status new_store lookup put keep values no_outcome close_job settled closing_state
finish_once_example =
    finish_once settings host 100 1 none none (some result) none reached reached-IsSound tt refl

cancel_silences_example :
    let s' = (cancel settings host 100 reached).1 in
    ((finish_model settings host 100 1 (some result) none s').1 ≡ (prune settings host s').1)
    × ((start_model settings host 100 1 s').1 ≡ (prune settings host s').1)
    × ((start_model settings host 100 1 s').0 ≢ ok true)
unfolding perform_all perform reserve submitted reserve_new create is_full note_submission prune
    monotonic draw_id save new_job nonterminal retained_bytes is_retained get_job or_raise
    start_model begin_model begun finish_model record_outcome append_outcome with_state with_outcome
    outcome_of valid_shape admit exceeds close_if_finished page job_page is_live is_finished
    same_status new_store lookup put keep values cancel cancel_live cancelled_job cancel_outcomes
    cancel_state
cancel_silences_example =
    cancel_silences settings host 100 1 (some result) none reached reached-IsSound refl

reserve_twice_example :
    let s' = (reserve settings host 2 (some 7) 42 new_store).1 in
    (reserve settings host 3 (some 7) 43 s').0
    ≡ (if 42 == 43 then ok (100, false) else raise submission_conflict)
unfolding perform_all perform reserve submitted reserve_new create is_full note_submission prune
    monotonic draw_id save new_job nonterminal retained_bytes is_retained get_job or_raise
    start_model begin_model begun finish_model record_outcome append_outcome with_state with_outcome
    outcome_of valid_shape admit exceeds close_if_finished page job_page is_live is_finished
    same_status new_store lookup put keep values
reserve_twice_example = reserve_twice settings host 2 7 42 3 43 new_store 100 refl
