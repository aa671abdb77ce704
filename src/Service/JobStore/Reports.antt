-- ===== src/Service/JobStore/Reports.antt =====
-- job_store.py: a submission that is sent again, and a model that is reported again.
use Prim.Native.Nat.{ℕ}
use value_stream_simulator.Prelude.{
  ◌≡◌, refl, sym, ap, ◌∙◌, inl, inr, not, true, Option, none, some, get_elem?, Bool-cases,
  get_elem?-set_self, if◌then◌else◌, arith,
}
use value_stream_simulator.Prelude.Exec.{gets, ok, pure, ◌>>=◌}
use value_stream_simulator.Prelude.Dict.{lookup, lookup-put_self}
use value_stream_simulator.Service.Schemas.{valid_shape, ResultData, ModelError, Status}
use value_stream_simulator.Service.Settings.{ServiceSettings}
use value_stream_simulator.Service.JobStore.{
  Job, JobStore, Host, index_error, is_live, is_finished, or_raise, prune, retained_bytes,
}
use value_stream_simulator.Service.JobStore.Models.{
  Admitted, state_of, outcome_of, with_state, with_outcome, settled, finish_model, record_outcome,
  admit,
}
use value_stream_simulator.Service.JobStore.Invariant.{StoreIsSound, get_job_inv}
use value_stream_simulator.Service.JobStore.Invariant.Methods.{
  Reported, admit-shape, record_outcome_lem, finish_model-Keeps,
}
use value_stream_simulator.Service.JobStore.Repeats.{finish_finished}

module _ {F : Type 0} (settings : ServiceSettings) (host : Host F) where
  settled_states : (now : ℕ) (job : Job F) → (settled now job).states ≡ job.states
  unfolding settled
  settled_states now job = ground arith

  -- What a report on a live model leaves of the job.
  report_stores :
      (job_id index : ℕ) (job : Job F) (a : Admitted F) (s : JobStore F) (old : Status)
      → get_elem? job.states index ≡ some old
      → valid_shape (outcome_of index job a) ≡ true
      → (job' : Job F) × (lookup (record_outcome settings host job_id index job a s).1.jobs job_id
          ≡ some job')
        × (get_elem? job'.states index ≡ some (state_of a))
  unfolding with_outcome with_state
  report_stores job_id index job a s old at shape = (
    settled (host.monotonic s.clock_reads) (with_outcome index job a),
    rw ((record_outcome_lem settings host job_id index job a s shape).0)
        (lookup-put_self s.jobs job_id _),
    rw (settled_states (host.monotonic s.clock_reads) (with_outcome index job a))
        (get_elem?-set_self job.states index _ at),
  )

  state_of-finished : (a : Admitted F) → is_finished (state_of a) ≡ true
  unfolding is_finished is_live
  state_of-finished a = ground arith

  finish_stores :
      (job_id index : ℕ) (result : Option (ResultData F)) (error : Option ModelError) (job : Job F)
      (s : JobStore F) (found : Option Status)
      → Reported index result error
      → get_elem? job.states index ≡ found
      → lookup s.jobs job_id ≡ some job
      → let ran =
          (or_raise index_error found >>= λ st. gets (λ s. retained_bytes s.jobs) >>= λ retained.
          if is_live st
          then record_outcome settings host job_id index job
              (admit settings host retained index job result error)
          else pure tt)
            s in
        ran.0 ≡ ok tt
        → (job' : Job F) × (st : Status) × (lookup ran.1.jobs job_id ≡ some job')
          × (get_elem? job'.states index ≡ some st)
          × (is_finished st ≡ true)
  unfolding or_raise is_finished
  finish_stores job_id index result error job s none reported found at h = cc
  finish_stores job_id index result error job s (some st) reported found at h =
      elim (Bool-cases (is_live st)) [
        | inl live ↦
            let a = admit settings host (retained_bytes s.jobs) index job result error in
            let (job', kept, state) =
              report_stores job_id index job a s st found (
                admit-shape settings host (retained_bytes s.jobs) index job result error
                  reported) in
            rw live (job', state_of a, kept, state, state_of-finished a)
        | inr done ↦ rw done (job, st, at, found, ap not done)
      ]

  -- In a sound store, once `finish_model` has returned for a model, on a report that names the model
  -- and is not both a result and an error, a second report on it, whatever it says, changes nothing
  -- but for pruning.
  pub finish_once :
      (job_id index : ℕ) (result : Option (ResultData F)) (error : Option ModelError)
      (result' : Option (ResultData F)) (error' : Option ModelError) (s : JobStore F)
      → StoreIsSound settings host s
      → Reported index result error
      → (finish_model settings host job_id index result error s).0 ≡ ok tt
      → let s' = (finish_model settings host job_id index result error s).1 in
        (finish_model settings host job_id index result' error' s').1 ≡ (prune settings host s').1
  unfolding finish_model
  finish_once job_id index result error result' error' s v reported h =
      let (job, found, ran) = get_job_inv settings host job_id _ s h in
      let (job', st, kept, at, done) =
        finish_stores job_id index result error job (prune settings host s).1 _ reported refl found
          (ap (λ r. r.0) (sym ran) ∙ h) in
      finish_finished settings host job_id index result' error' _ job' st
        (finish_model-Keeps settings host job_id index result error reported s v)
        (ap (λ r. lookup r.1.jobs job_id) ran ∙ kept) at done
