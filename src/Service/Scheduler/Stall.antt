-- ===== src/Service/Scheduler/Stall.antt =====
-- scheduler.py and job_store.py together: a worker that exits with a result for another model.
use Prim.Native.Nat.{ℕ, ◌+◌, ◌≤◌}
use value_stream_simulator.Prelude.{
  ◌≡◌, ◌≢◌, refl, ap, ◌∙◌, true, false, some, get_elem?, ltb, ◌==◌, arith, get_elem?-set_self,
}
use value_stream_simulator.Prelude.Exec.{raise}
use value_stream_simulator.Prelude.Dict.{lookup, lookup-put_self}
use value_stream_simulator.Service.Schemas.{
  worker_failed, ResultData, ModelError, Status, valid_shape,
}
use value_stream_simulator.Service.Settings.{ServiceSettings}
use value_stream_simulator.Service.JobStore.{
  Error, Job, JobStore, Host, is_live, or_raise, save, prune, retained_bytes,
}
use value_stream_simulator.Service.JobStore.Models.{
  exceeds, admit, outcome_of, with_state, record_outcome, finish_model,
}
use value_stream_simulator.Service.JobStore.Invariant.{get_job_found}
use value_stream_simulator.Service.Scheduler.Report.{
  exited, result_output, report, report_output, report_model, ignore_missing, pass_missing, failure,
}

module _ {F : Type 0} (settings : ServiceSettings) (host : Host F) where
  finish_both :
      (job_id index : ℕ) (r : ResultData F) (e : ModelError) (s : JobStore F) (job : Job F)
      (st : Status)
      → lookup (prune settings host s).1.jobs job_id ≡ some job
      → get_elem? job.states index ≡ some st
      → is_live st ≡ true
      → exceeds settings host
          (retained_bytes (prune settings host s).1.jobs)
          job
          (host.json_bytes r)
        ≡ false
      → finish_model settings host job_id index (some r) (some e) s ≡ (
        raise Error.validation_error,
        (save job_id
            (with_state index job
              record { result = some r; error = some e; size = host.json_bytes r })
            (prune settings host s).1).1,
      )
  unfolding finish_model or_raise admit record_outcome save valid_shape outcome_of with_state
  finish_both job_id index r e s job st found at live fits =
      rw (get_job_found settings host job_id _ s job found) (rw (at, live, fits) refl)

  -- Where the model is live and its result fits: the report of a worker that exited normally with a
  -- result for another model raises pydantic's error, and leaves the model marked as succeeded and
  -- the job without an outcome for it and without an end.
  pub misnamed_stalls :
      (job_id index size : ℕ) (r : ResultData F) (s : JobStore F) (job : Job F) (st : Status)
      → lookup (prune settings host s).1.jobs job_id ≡ some job
      → get_elem? job.states index ≡ some st
      → is_live st ≡ true
      → r.model_index ≢ index
      → size ≤ settings.max_model_outcome_bytes + 4096
      → exceeds settings host
          (retained_bytes (prune settings host s).1.jobs)
          job
          (host.json_bytes r)
        ≡ false
      → let after = report_model settings host job_id index (exited 0 size (result_output r)) s in
        (after.0 ≡ raise Error.validation_error)
        × (job' : Job F) × (lookup after.1.jobs job_id ≡ some job')
        × (get_elem? job'.states index ≡ some Status.succeeded)
        × (job'.outcomes ≡ job.outcomes)
        × (job'.terminal_at ≡ job.terminal_at)
  unfolding report_model ignore_missing pass_missing report report_output save with_state
  misnamed_stalls job_id index size r s job st found at live other small fits =
      let wrong : (r.model_index == index) ≡ false = ground arith in
      let small' : ltb (settings.max_model_outcome_bytes + 4096) size ≡ false = ground arith in
      let e = failure worker_failed "worker returned the wrong model index" index in
      let raised = ap pass_missing (finish_both job_id index r e s job st found at live fits) in
      rw (small', wrong)
        (
          ap (λ q. q.0) raised,
          _,
          ap (λ q. lookup q.1.jobs job_id) raised
              ∙ lookup-put_self (prune settings host s).1.jobs job_id _,
          get_elem?-set_self job.states index Status.succeeded at,
          refl,
          refl,
        )
