-- ===== src/Service/JobStore/Repeats.antt =====
-- Repeated and late calls of job_store.py: a model that is reported twice, a worker that reports
-- after its job was cancelled, and a submission that is sent again.
use Prim.Native.Nat.{ℕ}
use value_stream_simulator.Prelude.{
  ◌≡◌, ◌≢◌, refl, sym, ap, ◌∙◌, ◌⊎◌, inl, inr, Bool, true, false, Option, none, some, get_elem?,
  all, Option-cases, get_elem?-set_self, if◌then◌else◌, arith,
}
use value_stream_simulator.Prelude.Exec.{ok, pure, ◌>>=◌}
use value_stream_simulator.Prelude.Dict.{lookup, lookup-put_self, lookup-keep, All-lookup}
use value_stream_simulator.Service.Schemas.{ResultData, ModelError, Status}
use value_stream_simulator.Service.Settings.{ServiceSettings}
use value_stream_simulator.Service.JobStore.{
  Job, JobStore, Host, index_error, is_live, is_finished, same_status, is_some, or_raise, prune,
  save, is_retained, monotonic,
}
use value_stream_simulator.Service.JobStore.Models.{
  finish_model, begun, begin_model, start_model, cancel, cancel_live, cancelled_job,
}
use value_stream_simulator.Service.JobStore.States.{all-get}
use value_stream_simulator.Service.JobStore.JobInvariant.{IsValid}
use value_stream_simulator.Service.JobStore.Invariant.{
  StoreIsSound, get_job_inv, get_job_found, get_job_missing,
}
use value_stream_simulator.Service.JobStore.Invariant.Methods.{start_model-Keeps, cancel-Keeps}

module _ {F : Type 0} (settings : ServiceSettings) (host : Host F) where
  -- Pruning takes a job away or leaves it as it is.
  prune-lookup :
      (s : JobStore F) (job_id : ℕ) (job : Job F)
      → StoreIsSound settings host s
      → lookup s.jobs job_id ≡ some job
      → (lookup (prune settings host s).1.jobs job_id ≡ none)
        ⊎ (lookup (prune settings host s).1.jobs job_id ≡ some job)
  unfolding prune monotonic
  prune-lookup s job_id job v found = ground (
    arith,
    found,
    lookup-keep (is_retained settings host (host.monotonic s.clock_reads)) s.jobs job_id v.unique,
  )

  -- A report on a model that has finished changes nothing, whatever it says: the call only prunes.
  pub finish_finished :
      (job_id index : ℕ) (result : Option (ResultData F)) (error : Option ModelError)
      (s : JobStore F) (job : Job F) (st : Status)
      → StoreIsSound settings host s
      → lookup s.jobs job_id ≡ some job
      → get_elem? job.states index ≡ some st
      → is_finished st ≡ true
      → (finish_model settings host job_id index result error s).1 ≡ (prune settings host s).1
  unfolding finish_model or_raise is_finished
  finish_finished job_id index result error s job st v found at done =
      elim (prune-lookup s job_id job v found) [
        | inl gone ↦ ap (λ r. r.1) (get_job_missing settings host job_id _ s gone)
        | inr stays ↦
            ap (λ r. r.1) (get_job_found settings host job_id _ s job stays)
            ∙ ground (arith, at, done)
      ]

  -- A finished model is not queued.
  finished-not_queued : (st : Status) → is_finished st ≡ true → same_status Status.queued st ≡ false
  unfolding is_finished is_live same_status
  finished-not_queued Status.queued h = cc
  finished-not_queued Status.running h = refl
  finished-not_queued Status.succeeded h = refl
  finished-not_queued Status.failed h = refl
  finished-not_queued Status.cancelled h = refl

  -- Neither does a worker that starts a model that is not queued, and it is told not to run it.
  pub start_not_queued :
      (job_id index : ℕ) (s : JobStore F) (job : Job F) (st : Status)
      → StoreIsSound settings host s
      → lookup s.jobs job_id ≡ some job
      → get_elem? job.states index ≡ some st
      → same_status Status.queued st ≡ false
      → ((start_model settings host job_id index s).1 ≡ (prune settings host s).1)
        × ((start_model settings host job_id index s).0 ≢ ok true)
  unfolding start_model or_raise
  start_not_queued job_id index s job st v found at busy =
      elim (prune-lookup s job_id job v found) [
        | inl gone ↦ rw (get_job_missing settings host job_id _ s gone) (refl, λ e. cc)
        | inr stays ↦
            rw (get_job_found settings host job_id _ s job stays) (rw (at, busy) (refl, λ e. cc))
      ]

  -- What a call of `start_model` that returned true has stored.
  started :
      (job_id index : ℕ) (job : Job F) (s : JobStore F) (found : Option Status)
      → get_elem? job.states index ≡ found
      → let ran =
          (or_raise index_error found >>= λ st.
          if same_status Status.queued st then begin_model job_id index job else pure false)
            s in
        ran.0 ≡ ok true
        → lookup ran.1.jobs job_id ≡ some (begun index job)
          × (get_elem? (begun index job).states index ≡ some Status.running)
  unfolding or_raise same_status begin_model begun save
  started job_id index job s none e h = cc
  started job_id index job s (some Status.queued) e h =
      (lookup-put_self s.jobs job_id _, get_elem?-set_self job.states index Status.running e)
  started job_id index job s (some Status.running) e h = cc
  started job_id index job s (some Status.succeeded) e h = cc
  started job_id index job s (some Status.failed) e h = cc
  started job_id index job s (some Status.cancelled) e h = cc

  -- In a sound store, a model that `start_model` has handed to a worker is handed to no other: the
  -- next call for it does not return true, and changes nothing but for pruning.
  pub start_once :
      (job_id index : ℕ) (s : JobStore F)
      → StoreIsSound settings host s
      → (start_model settings host job_id index s).0 ≡ ok true
      → let s' = (start_model settings host job_id index s).1 in
        ((start_model settings host job_id index s').0 ≢ ok true)
        × ((start_model settings host job_id index s').1 ≡ (prune settings host s').1)
  unfolding start_model same_status
  start_once job_id index s v h =
      let (job, found, ran) = get_job_inv settings host job_id _ s h in
      let s' : JobStore F = (start_model settings host job_id index s).1 in
      let (kept, runs) =
        started job_id index job (prune settings host s).1 _ refl (ap (λ r. r.0) (sym ran) ∙ h) in
      let (same, refused) =
        start_not_queued job_id index s' (begun index job) Status.running
          (start_model-Keeps settings host job_id index s v)
          (ap (λ r. lookup r.1.jobs job_id) ran ∙ kept) runs refl in
      (refused, same)

  cancel_ends :
      (job_id : ℕ) (job : Job F) (s : JobStore F) (ended : Bool)
      → is_some job.terminal_at ≡ ended
      → lookup s.jobs job_id ≡ some job
      → (job' : Job F) × (lookup
            ((if ended then pure tt else cancel_live settings host job_id job) s).1.jobs
            job_id
          ≡ some job')
        × (is_some job'.terminal_at ≡ true)
  unfolding cancel_live monotonic save cancelled_job
  cancel_ends job_id job s true e found = (job, found, e)
  cancel_ends job_id job s false e found = (_, lookup-put_self s.jobs job_id _, refl)

  -- After a call of `cancel` that has not raised, all models of the job have finished.
  cancel_finishes :
      (job_id : ℕ) (s : JobStore F)
      → StoreIsSound settings host s
      → (cancel settings host job_id s).0 ≡ ok tt
      → (job : Job F) × (lookup (cancel settings host job_id s).1.jobs job_id ≡ some job)
        × (all is_finished job.states ≡ true)
  unfolding cancel
  cancel_finishes job_id s v h =
      let (job, found, ran) = get_job_inv settings host job_id _ s h in
      let (job', kept, ended) = cancel_ends job_id job (prune settings host s).1 _ refl found in
      let stored = ap (λ r. lookup r.1.jobs job_id) ran ∙ kept in
      (
        job',
        stored,
        (All-lookup (IsValid settings host) _ job_id (cancel-Keeps settings host job_id s v).valid
              stored).closed
            ended,
      )

  -- A report on a job all of whose models have finished only prunes, out of range too.
  finish_ended :
      (job_id index : ℕ) (result : Option (ResultData F)) (error : Option ModelError)
      (s : JobStore F) (job : Job F)
      → StoreIsSound settings host s
      → lookup s.jobs job_id ≡ some job
      → all is_finished job.states ≡ true
      → (finish_model settings host job_id index result error s).1 ≡ (prune settings host s).1
  unfolding finish_model or_raise
  finish_ended job_id index result error s job v found done =
      elim (prune-lookup s job_id job v found) [
        | inl gone ↦ ap (λ r. r.1) (get_job_missing settings host job_id _ s gone)
        | inr stays ↦ elim (Option-cases (get_elem? job.states index)) [
          | inl out ↦ rw (get_job_found settings host job_id _ s job stays, out) refl
          | inr (st, at) ↦
              finish_finished job_id index result error s job st v found at
                (all-get is_finished job.states index done at)
        ]
      ]

  start_ended :
      (job_id index : ℕ) (s : JobStore F) (job : Job F)
      → StoreIsSound settings host s
      → lookup s.jobs job_id ≡ some job
      → all is_finished job.states ≡ true
      → ((start_model settings host job_id index s).1 ≡ (prune settings host s).1)
        × ((start_model settings host job_id index s).0 ≢ ok true)
  unfolding start_model or_raise is_finished is_live same_status
  start_ended job_id index s job v found done = elim (prune-lookup s job_id job v found) [
    | inl gone ↦ rw (get_job_missing settings host job_id _ s gone) (refl, λ e. cc)
    | inr stays ↦ elim (Option-cases (get_elem? job.states index)) [
      | inl out ↦ rw (get_job_found settings host job_id _ s job stays, out) (refl, λ e. cc)
      | inr (st, at) ↦
          start_not_queued job_id index s job st v found at
            (finished-not_queued st (all-get is_finished job.states index done at))
    ]
  ]

  -- In a sound store, after a call of `cancel` that has not raised, a worker that still runs a model
  -- of the job, or that is about to start one, changes nothing: its report and its start only
  -- prune, whatever the index, and the start does not return true.
  pub cancel_silences :
      (job_id index : ℕ) (result : Option (ResultData F)) (error : Option ModelError)
      (s : JobStore F)
      → StoreIsSound settings host s
      → (cancel settings host job_id s).0 ≡ ok tt
      → let s' = (cancel settings host job_id s).1 in
        ((finish_model settings host job_id index result error s').1 ≡ (prune settings host s').1)
        × ((start_model settings host job_id index s').1 ≡ (prune settings host s').1)
        × ((start_model settings host job_id index s').0 ≢ ok true)
  cancel_silences job_id index result error s v h =
      let (job, found, done) = cancel_finishes job_id s v h in
      let v' = cancel-Keeps settings host job_id s v in
      let (same, refused) = start_ended job_id index _ job v' found done in
      (finish_ended job_id index result error _ job v' found done, same, refused)
