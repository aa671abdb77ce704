-- ===== src/Service/JobStore/Invariant/Creation.antt =====
-- `create` and `reserve` of job_store.py keep the store's invariant.
use Prim.Native.Nat.{ℕ, suc}
use value_stream_simulator.Prelude.{
  ◌≡◌, refl, inl, inr, Bool, true, false, Option, none, some, All-weaken, Bool-cases, Option-cases,
  ◌==◌, if◌then◌else◌, arith,
}
use value_stream_simulator.Prelude.Exec.{Result, ok, raise, pure, modify, continue, ◌>>◌}
use value_stream_simulator.Prelude.Dict.{
  Dict, has_key, put, values, lookup-put_self, sum_of-put-le, length-put, has_key-put, put-IsUnique,
  All-put,
}
use value_stream_simulator.Service.Settings.{ServiceSettings}
use value_stream_simulator.Service.JobStore.{
  Error, Job, JobStore, Host, is_nonterminal, nonterminal, retained_bytes, save, monotonic, draw_id,
  prune,
}
use value_stream_simulator.Service.JobStore.Access.{
  is_full, new_job, create, submitted, note_submission, reserve_new, reserve_again, reserve,
}
use value_stream_simulator.Service.JobStore.JobInvariant.{IsValid, new_job-IsValid}
use value_stream_simulator.Service.JobStore.Invariant.{IsSound, StoreIsSound, prune-IsSound, Keeps}
use value_stream_simulator.Service.JobStore.Invariant.Methods.{if-Keeps}

module _ {F : Type 0} (settings : ServiceSettings) (host : Host F) where
  -- A job comes to a store that is not full; should its identifier be in use, it takes that place.
  insert-IsSound :
      (jobs : Dict (Job F)) (submissions : Dict (ℕ × ℕ)) (job_id model_count now : ℕ)
      → IsSound settings host jobs submissions
      → is_full settings host jobs ≡ false
      → IsSound settings host (put jobs job_id (new_job job_id model_count now)) submissions
  unfolding is_full new_job retained_bytes nonterminal
  insert-IsSound jobs submissions job_id model_count now v room = record {
    unique = put-IsUnique jobs job_id _ v.unique;
    valid =
        All-put (IsValid settings host) jobs job_id _ v.valid
          (new_job-IsValid settings host job_id model_count now);
    retained = omega (
      arith,
      v.retained,
      sum_of-put-le (λ (j : Job F). j.result_bytes) jobs job_id (new_job job_id model_count now),
    );
    stored = ground (arith, length-put jobs job_id (new_job job_id model_count now));
    active = ground (
      arith,
      sum_of-put-le (λ (j : Job F). if is_nonterminal j then 1 else 0) jobs job_id
          (new_job job_id model_count now),
    );
    linked =
        All-weaken _ _ (values submissions)
          (λ r h. has_key-put jobs job_id r.1 (new_job job_id model_count now) h) v.linked;
  }

  pub create-Keeps : (model_count : ℕ) → Keeps settings host (create settings host model_count)
  unfolding create prune draw_id monotonic save
  create-Keeps model_count s v =
      let s' : JobStore F = (prune settings host s).1 in
      if-Keeps settings host (is_full settings host s'.jobs) _ _ s'
        (λ full. prune-IsSound settings host s v)
        (λ room.
          insert-IsSound s'.jobs s'.submissions (host.uuid4 s.ids_drawn) model_count
            (host.monotonic (suc s.clock_reads)) (prune-IsSound settings host s v) room)

  create_stores :
      (model_count : ℕ) (s : JobStore F) {job_id : ℕ}
      → (create settings host model_count s).0 ≡ ok job_id
      → has_key (create settings host model_count s).1.jobs job_id ≡ true
  unfolding create prune draw_id monotonic save
  create_stores model_count s {job_id} h =
      let s' : JobStore F = (prune settings host s).1 in
      elim (Bool-cases (is_full settings host s'.jobs)) [
        | inl full ↦ ground arith
        | inr room ↦ ground (
          arith,
          lookup-put_self s'.jobs (host.uuid4 s.ids_drawn)
              (new_job (host.uuid4 s.ids_drawn) model_count (host.monotonic (suc s.clock_reads))),
        )
      ]

  note_submission-IsSound :
      (submission_id : Option ℕ) (fingerprint job_id : ℕ) (s : JobStore F)
      → StoreIsSound settings host s
      → has_key s.jobs job_id ≡ true
      → StoreIsSound settings host (note_submission submission_id fingerprint job_id s)
  unfolding note_submission
  note_submission-IsSound none fingerprint job_id s v h = v
  note_submission-IsSound (some id) fingerprint job_id s v h = record {
    unique = v.unique;
    valid = v.valid;
    retained = v.retained;
    stored = v.stored;
    active = v.active;
    linked = All-put (λ r. has_key s.jobs r.1 ≡ true) s.submissions id _ v.linked h;
  }

  reserve_new-Keeps :
      (model_count : ℕ) (submission_id : Option ℕ) (fingerprint : ℕ)
      → Keeps settings host (reserve_new settings host model_count submission_id fingerprint)
  unfolding reserve_new
  reserve_new-Keeps model_count submission_id fingerprint s v =
      go (create settings host model_count s).0 refl
    where
      s' : JobStore F
      s' = (create settings host model_count s).1

      go :
          (r : Result Error ℕ)
          → (create settings host model_count s).0 ≡ r
          → StoreIsSound settings host
              (continue {B = ℕ × Bool} r
                (λ job_id.
                  modify (note_submission submission_id fingerprint job_id) >> pure (job_id, true))
                s').1
      go (ok job_id) e =
          note_submission-IsSound submission_id fingerprint job_id s' (create-Keeps model_count s v)
            (create_stores model_count s e)
      go (raise x) e = create-Keeps model_count s v

  reserve_again-Keeps :
      (fingerprint : ℕ) (known : ℕ × ℕ) → Keeps settings host (reserve_again fingerprint known)
  unfolding reserve_again
  reserve_again-Keeps fingerprint (previous, job_id) s v =
      if-Keeps settings host (previous == fingerprint) _ _ s (λ _. v) (λ _. v)

  pub reserve-Keeps :
      (model_count : ℕ) (submission_id : Option ℕ) (fingerprint : ℕ)
      → Keeps settings host (reserve settings host model_count submission_id fingerprint)
  unfolding reserve prune monotonic
  reserve-Keeps model_count submission_id fingerprint s v =
      let s' : JobStore F = (prune settings host s).1 in
      let v' : StoreIsSound settings host s' = prune-IsSound settings host s v in
      elim (Option-cases (submitted submission_id s')) [
        | inl new ↦ rw new (reserve_new-Keeps model_count submission_id fingerprint s' v')
        | inr (known, old) ↦ rw old (reserve_again-Keeps fingerprint known s' v')
      ]
