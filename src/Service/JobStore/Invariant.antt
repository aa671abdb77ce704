-- ===== src/Service/JobStore/Invariant.antt =====
-- The invariant of the whole store of job_store.py: each job is valid, the limits of the settings
-- hold, and each submission names a stored job. Every method keeps it.
pub mod Methods
pub mod Creation
use Prim.Native.Nat.{ℕ, zero, suc, ◌+◌, ◌≤◌, ◌<◌}
use value_stream_simulator.Prelude.{
  ◌≡◌, refl, sym, ap, ◌∙◌, ◌⊎◌, inl, inr, Bool, true, false, Option, none, some, List, [], length,
  get_elem?, sum_of, count_if, All, All-weaken, Bool-cases, Option-cases, ◌==◌, if◌then◌else◌,
  arith,
}
use value_stream_simulator.Prelude.Exec.{ok, raise, pure, gets, modify, continue, ◌>>=◌, ◌>>◌}
use value_stream_simulator.Prelude.Dict.{
  Dict, lookup, has_key, put, keep, values, lookup-put, lookup-put_self, sum_of-put, sum_of-put_new,
  sum_of-keep, keep_passes, length-put, length-keep, put-put, has_key-put, IsUnique, put-IsUnique,
  keep-IsUnique, All-lookup, All-put, All-keep,
}
use value_stream_simulator.Service.Schemas.{ResultData, ModelError, Status, valid_shape}
use value_stream_simulator.Service.Settings.{ServiceSettings}
use value_stream_simulator.Service.JobStore.{
  Error, Job, JobStore, Host, Method, is_live, is_some, is_nonterminal, nonterminal, retained_bytes,
  save, or_raise, monotonic, draw_id, is_retained, prune, get_job, new_store,
}
use value_stream_simulator.Service.JobStore.Access.{
  is_full, new_job, create, submitted, note_submission, reserve_new, reserve_again, reserve, status,
  page,
}
use value_stream_simulator.Service.JobStore.Models.{
  Admitted, admit, exceeds, outcome_of, with_state, with_outcome, begun, begin_model, start_model,
  settled, close_job, close_if_finished, append_outcome, record_outcome, finish_model,
  cancelled_job, cancel_live, cancel,
}
use value_stream_simulator.Service.JobStore.JobInvariant.{IsValid, outcome_bytes, new_job-IsValid}
use value_stream_simulator.Service.JobStore.JobInvariant.Finish.{
  begin-IsValid, with_outcome-Accounts, with_outcome-open, settled-IsValid,
}
use value_stream_simulator.Service.JobStore.JobInvariant.Cancel.{cancelled_job-IsValid}

module _ {F : Type 0} (settings : ServiceSettings) (host : Host F) where
  pub record IsSound (jobs : Dict (Job F)) (submissions : Dict (ℕ × ℕ)) : Type 0 where
    pub unique : IsUnique jobs
    pub valid : All (IsValid settings host) (values jobs)
    pub retained : retained_bytes jobs ≤ settings.max_retained_bytes
    pub stored : length jobs ≤ settings.max_retained_jobs
    pub active : nonterminal jobs ≤ settings.max_active_jobs + settings.max_queued_jobs
    pub linked : All (λ v. has_key jobs v.1 ≡ true) (values submissions)

  abbrev pub StoreIsSound : JobStore F → Type 0
  StoreIsSound s = IsSound s.jobs s.submissions

  -- A job is replaced by one that is valid, no longer active than it and within the limits.
  pub put-IsSound :
      (jobs : Dict (Job F)) (submissions : Dict (ℕ × ℕ)) (job_id : ℕ) (job job' : Job F)
      → IsSound jobs submissions
      → lookup jobs job_id ≡ some job
      → IsValid settings host job'
      → retained_bytes jobs + job'.result_bytes ≤ settings.max_retained_bytes + job.result_bytes
      → (if is_nonterminal job' then 1 else 0) ≤ (if is_nonterminal job then 1 else 0)
      → IsSound (put jobs job_id job') submissions
  unfolding retained_bytes nonterminal
  put-IsSound jobs submissions job_id job job' v found ok' room less = record {
    unique = put-IsUnique jobs job_id job' v.unique;
    valid = All-put (IsValid settings host) jobs job_id job' v.valid ok';
    retained =
        omega (arith, room, sum_of-put (λ (j : Job F). j.result_bytes) jobs job_id job' found);
    stored = ground (arith, v.stored, length-put jobs job_id job', found);
    active = omega (
      arith,
      v.active,
      less,
      sum_of-put (λ j. if is_nonterminal j then 1 else 0) jobs job_id job' found,
    );
    linked =
        All-weaken _ _ (values submissions) (λ r h. has_key-put jobs job_id r.1 job' h) v.linked;
  }

  -- `_prune` keeps the invariant.
  pub prune-IsSound : (s : JobStore F) → StoreIsSound s → StoreIsSound (prune settings host s).1
  unfolding prune retained_bytes nonterminal
  prune-IsSound s v =
      let kept = is_retained settings host (host.monotonic s.clock_reads) in
      record {
        unique = keep-IsUnique kept s.jobs v.unique;
        valid = All-keep (IsValid settings host) kept s.jobs v.valid;
        retained =
            omega (arith, v.retained, sum_of-keep (λ (j : Job F). j.result_bytes) kept s.jobs);
        stored = omega (arith, v.stored, length-keep kept s.jobs);
        active =
            omega
              (arith, v.active, sum_of-keep (λ j. if is_nonterminal j then 1 else 0) kept s.jobs);
        linked = keep_passes _ s.submissions;
      }

  abbrev pub Keeps : {A : Type 0} → Method F A → Type 0
  Keeps m = (s : JobStore F) → StoreIsSound s → StoreIsSound (m s).1

  -- A method that looks a job up and goes on with it.
  pub get_job-Keeps :
      {A : Type 0} (job_id : ℕ) (k : Job F → Method F A)
      → ((job : Job F) (s : JobStore F)
          → StoreIsSound s
          → lookup s.jobs job_id ≡ some job
          → StoreIsSound (k job s).1)
      → Keeps (get_job settings host job_id >>= k)
  unfolding get_job prune or_raise
  get_job-Keeps job_id k keeps s v = go (lookup (prune settings host s).1.jobs job_id) refl
    where
      s' : JobStore F
      s' = (prune settings host s).1

      go :
          (found : Option (Job F))
          → lookup s'.jobs job_id ≡ found
          → StoreIsSound ((or_raise Error.job_not_found found >>= k) s').1
      go none e = prune-IsSound s v
      go (some job) e = keeps job s' (prune-IsSound s v) e

  -- A method that looks a job up and succeeds has found it, and went on from the pruned store.
  pub get_job_inv :
      {A : Type 0} (job_id : ℕ) (k : Job F → Method F A) (s : JobStore F) {a : A}
      → ((get_job settings host job_id >>= k) s).0 ≡ ok a
      → let s' = (prune settings host s).1 in
        (job : Job F) × (lookup s'.jobs job_id ≡ some job)
        × ((get_job settings host job_id >>= k) s ≡ k job s')
  unfolding get_job prune or_raise
  get_job_inv {A} job_id k s {a} h = go (lookup (prune settings host s).1.jobs job_id) refl
    where
      s' : JobStore F
      s' = (prune settings host s).1

      go :
          (found : Option (Job F))
          → lookup s'.jobs job_id ≡ found
          → (job : Job F) × (lookup s'.jobs job_id ≡ some job)
            × ((get_job settings host job_id >>= k) s ≡ k job s')
      go none e = cc (sym (ap (λ o. ((or_raise Error.job_not_found o >>= k) s').0) e) ∙ h)
      go (some job) e = (job, e, ap (λ o. (or_raise Error.job_not_found o >>= k) s') e)

  -- A method that looks a job up, where pruning has left the job and where it has not.
  pub get_job_found :
      {A : Type 0} (job_id : ℕ) (k : Job F → Method F A) (s : JobStore F) (job : Job F)
      → lookup (prune settings host s).1.jobs job_id ≡ some job
      → (get_job settings host job_id >>= k) s ≡ k job (prune settings host s).1
  unfolding get_job prune or_raise
  get_job_found job_id k s job e =
      ap (λ o. (or_raise Error.job_not_found o >>= k) (prune settings host s).1) e

  pub get_job_missing :
      {A : Type 0} (job_id : ℕ) (k : Job F → Method F A) (s : JobStore F)
      → lookup (prune settings host s).1.jobs job_id ≡ none
      → (get_job settings host job_id >>= k) s
        ≡ (raise Error.job_not_found, (prune settings host s).1)
  unfolding get_job prune or_raise
  get_job_missing job_id k s e =
      ap (λ o. (or_raise Error.job_not_found o >>= k) (prune settings host s).1) e
