-- ===== src/Service/Scheduler/Report.antt =====
-- scheduler.py: `_run_model`, from the start of a model to the report that it makes to the store. What
-- the worker process did is given as a value.
use Prim.Native.Nat.{ℕ, ◌+◌}
use Prim.Native.String.{String}
use value_stream_simulator.Prelude.{
  ◌≢◌, refl, inl, inr, Bool, true, false, not, Option, none, some, ltb, ◌==◌, ==_iff, if◌then◌else◌,
  arith, Bool-cases,
}
use value_stream_simulator.Prelude.Exec.{Result, ok, raise, pure, ◌>>=◌}
use value_stream_simulator.Service.Schemas.{
  ResultData, ModelError, ErrorCode, worker_failed, model_timeout,
}
use value_stream_simulator.Service.Settings.{ServiceSettings}
use value_stream_simulator.Service.JobStore.{Error, JobStore, Host, Method}
use value_stream_simulator.Service.JobStore.Models.{start_model, finish_model}
use value_stream_simulator.Service.JobStore.Invariant.Methods.{Reported}

-- The JSON object that a worker prints; `invalid` is one that fails to parse or to validate, with
-- the text of the exception.
pub data Output (F : Type 0) : Type 0 where
  result_output : ResultData F → Output F
  error_output : ModelError → Output F
  other_output : Output F
  invalid : String → Output F

-- What became of the worker process: it was not started or lost (with the exception's text), the job
-- was cancelled by then, the time was over, or it exited.
pub data Run (F : Type 0) : Type 0 where
  lost : String → Run F
  cancelled : Run F
  timed_out : Run F
  exited : ℕ → ℕ → Output F → Run F

-- `result` and `error` at the end of the `try` statement.
pub record Report (F : Type 0) : Type 0 where
  pub result : Option (ResultData F)
  pub error : Option ModelError

unfoldable pub failure : ErrorCode → String → ℕ → ModelError
failure code message index = record { model_index = index; code = code; message = message }

module _ {F : Type 0} where
  unfoldable pub failed_with : String → ℕ → Report F
  failed_with message index = record {
    result = none;
    error = some (failure worker_failed message index);
  }

  -- `result` is assigned before its index is tested, and stays when the test raises.
  unfoldable pub report_output : ℕ → Output F → Report F
  report_output index (result_output r) = record {
    result = some r;
    error =
        if r.model_index == index
        then none
        else some (failure worker_failed "worker returned the wrong model index" index);
  }
  report_output index (error_output e) =
      if e.model_index == index
      then record { result = none; error = some e }
      else failed_with "worker returned the wrong model index" index
  report_output index other_output = failed_with "worker did not return a model outcome" index
  report_output index (invalid message) = failed_with message index

  unfoldable pub report : ServiceSettings → ℕ → Run F → Report F
  report settings index (lost message) = failed_with message index
  report settings index cancelled = record { result = none; error = none }
  report settings index timed_out = record {
    result = none;
    error = some (failure model_timeout "model exceeded time limit" index);
  }
  report settings index (exited returncode size output) =
      if not (returncode == 0)
      then failed_with "model worker exited unexpectedly" index
      else if ltb (settings.max_model_outcome_bytes + 4096) size
      then failed_with "model result exceeds configured size limit" index
      else report_output index output

  -- A report of a job that is gone is dropped.
  unfoldable pub pass_missing :
      Result {0, 0} Error Unit × JobStore F → Result {0, 0} Error Unit × JobStore F
  pass_missing (raise Error.job_not_found, s) = (ok tt, s)
  pass_missing r = r

  unfoldable pub ignore_missing : Method F Unit → Method F Unit
  ignore_missing m s = pass_missing (m s)

  module _ (settings : ServiceSettings) (host : Host F) where
    unfoldable pub report_model : ℕ → ℕ → Run F → Method F Unit
    report_model job_id index run =
        let made = report settings index run in
        ignore_missing (finish_model settings host job_id index made.result made.error)

    -- The worker is run only where the store says that the model is this one's to run.
    unfoldable pub run_model : ℕ → ℕ → Run F → Method F Unit
    run_model job_id index run = ignore_missing do
      started ← start_model settings host job_id index
      if started then report_model job_id index run else pure tt

  abbrev pub Misprints : ℕ → Output F → Type 0
  Misprints index (result_output r) = r.model_index ≢ index
  Misprints index _ = ⊥

  -- The worker printed a result for another model.
  abbrev pub Misnamed : ℕ → Run F → Type 0
  Misnamed index (exited returncode size output) = Misprints index output
  Misnamed index _ = ⊥

  fallback :
      (a b : Bool) (m m' : String) (index : ℕ) (r : Report F)
      → Reported index r.result r.error
      → let r' = if a then failed_with m index else if b then failed_with m' index else r in
        Reported index r'.result r'.error
  unfolding failed_with failure
  fallback true b m m' index r h = refl
  fallback false true m m' index r h = refl
  fallback false false m m' index r h = h

  output-Reported :
      (index : ℕ) (output : Output F)
      → ¬ Misprints index output
      → Reported index (report_output index output).result (report_output index output).error
  unfolding report_output failed_with failure
  output-Reported index (result_output r) named = elim (Bool-cases (r.model_index == index)) [
    | inl same ↦ rw same ((==_iff _ _).0 same)
    | inr other ↦ absurd (named (ground (arith, other)))
  ]
  output-Reported index (error_output e) named = elim (Bool-cases (e.model_index == index)) [
    | inl same ↦ rw same ((==_iff _ _).0 same)
    | inr other ↦ rw other refl
  ]
  output-Reported index other_output named = refl
  output-Reported index (invalid message) named = refl

  -- Whatever the worker did, the report names its model and is not both a result and an error, as the
  -- store asks of it, unless the worker exited with a result for another model.
  pub report-Reported :
      (settings : ServiceSettings) (index : ℕ) (run : Run F)
      → ¬ Misnamed index run
      → Reported index (report settings index run).result (report settings index run).error
  unfolding report failed_with failure
  report-Reported settings index (lost message) named = refl
  report-Reported settings index cancelled named = tt
  report-Reported settings index timed_out named = refl
  report-Reported settings index (exited code size output) named =
      fallback (not (code == 0)) (ltb (settings.max_model_outcome_bytes + 4096) size)
        "model worker exited unexpectedly" "model result exceeds configured size limit" index
        (report_output index output) (output-Reported index output named)
