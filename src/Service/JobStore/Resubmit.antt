-- ===== src/Service/JobStore/Resubmit.antt =====
-- job_store.py: `reserve` for a submission that is sent again.
use Prim.Native.Nat.{ℕ, suc}
use value_stream_simulator.Prelude.{
  ◌≡◌, ◌≢◌, refl, ap, inl, inr, Bool, true, false, none, some, Bool-cases, Option-cases, ◌==◌,
  if◌then◌else◌, arith,
}
use value_stream_simulator.Prelude.Exec.{
  Result, ok, raise, pure, modify, continue, ◌>>◌, ok-injective,
}
use value_stream_simulator.Prelude.Dict.{lookup, lookup-put_self, lookup-keep_stays}
use value_stream_simulator.Service.Settings.{ServiceSettings}
use value_stream_simulator.Service.JobStore.{
  Error, submission_conflict, Job, JobStore, Host, prune, is_retained, monotonic, draw_id, save,
}
use value_stream_simulator.Service.JobStore.Access.{
  is_full, new_job, create, submitted, note_submission, reserve_new, reserve_again, reserve,
}

module _ {F : Type 0} (settings : ServiceSettings) (host : Host F) where
  -- The submission names a stored job that has not ended.
  IsReserved : ℕ → ℕ → ℕ → JobStore F → Type 0
  IsReserved id fingerprint job_id s =
      (lookup s.submissions id ≡ some (fingerprint, job_id))
      × (job : Job F) × (lookup s.jobs job_id ≡ some job)
      × (job.terminal_at ≡ none)

  prune-IsReserved :
      (id fingerprint job_id : ℕ) (s : JobStore F)
      → IsReserved id fingerprint job_id s
      → lookup (prune settings host s).1.submissions id ≡ some (fingerprint, job_id)
  unfolding IsReserved prune monotonic is_retained
  prune-IsReserved id fingerprint job_id s (named, job, found, opened) =
      let kept = is_retained settings host (host.monotonic s.clock_reads) in
      lookup-keep_stays _ s.submissions id named
        (ground (arith, lookup-keep_stays kept s.jobs job_id found (ground (arith, opened))))

  again :
      (model_count id fingerprint fingerprint' job_id : ℕ) (s : JobStore F)
      → IsReserved id fingerprint job_id s
      → (reserve settings host model_count (some id) fingerprint' s).0
        ≡ (if fingerprint == fingerprint' then ok (job_id, false) else raise submission_conflict)
  unfolding reserve submitted reserve_again prune
  again model_count id fingerprint fingerprint' job_id s h =
      rw (prune-IsReserved id fingerprint job_id s h) (ground arith)

  created :
      (model_count : ℕ) (s : JobStore F) {job_id : ℕ}
      → (create settings host model_count s).0 ≡ ok job_id
      → (job : Job F) × (lookup (create settings host model_count s).1.jobs job_id ≡ some job)
        × (job.terminal_at ≡ none)
  unfolding create prune draw_id monotonic save new_job
  created model_count s {job_id} h =
      let s' : JobStore F = (prune settings host s).1 in
      elim (Bool-cases (is_full settings host s'.jobs)) [
        | inl full ↦ ground arith
        | inr room ↦
            let id = host.uuid4 s.ids_drawn in
            let job = new_job id model_count (host.monotonic (suc s.clock_reads)) in
            let same : id ≡ job_id = ok-injective (rw room at h) in
            (job, rw room (rw (← same) (lookup-put_self s'.jobs id job)), refl)
      ]

  reserve_new-IsReserved :
      (model_count id fingerprint : ℕ) (s : JobStore F) (job_id : ℕ)
      → (reserve_new settings host model_count (some id) fingerprint s).0 ≡ ok (job_id, true)
      → IsReserved id fingerprint job_id
          (reserve_new settings host model_count (some id) fingerprint s).1
  unfolding reserve_new note_submission IsReserved
  reserve_new-IsReserved model_count id fingerprint s job_id =
      go (create settings host model_count s).0 refl
    where
      s' : JobStore F
      s' = (create settings host model_count s).1

      go :
          (r : Result Error ℕ)
          → (create settings host model_count s).0 ≡ r
          → let ran =
              continue {B = ℕ × Bool} r
                (λ job_id.
                  modify (note_submission (some id) fingerprint job_id) >> pure (job_id, true))
                s' in
            ran.0 ≡ ok (job_id, true) → IsReserved id fingerprint job_id ran.1
      go (ok made) e h =
          let same : made ≡ job_id = ap (λ p. p.0) (ok-injective h) in
          let (job, found, opened) = created model_count s e in
          rw (← same) (lookup-put_self s'.submissions id (fingerprint, made), job, found, opened)
      go (raise x) e h = cc

  not_again :
      (fingerprint : ℕ) (known : ℕ × ℕ) (s : JobStore F) (job_id : ℕ)
      → (reserve_again fingerprint known s).0 ≢ ok (job_id, true)
  unfolding reserve_again
  not_again fingerprint (previous, old) s job_id h = elim (Bool-cases (previous == fingerprint)) [
    | inl same ↦ cc (ap (λ p. p.1) (ok-injective (rw same at h)))
    | inr other ↦ cc (rw other at h)
  ]

  reserve-IsReserved :
      (model_count id fingerprint : ℕ) (s : JobStore F) (job_id : ℕ)
      → (reserve settings host model_count (some id) fingerprint s).0 ≡ ok (job_id, true)
      → IsReserved id fingerprint job_id
          (reserve settings host model_count (some id) fingerprint s).1
  unfolding reserve submitted prune
  reserve-IsReserved model_count id fingerprint s job_id h =
      let s' : JobStore F = (prune settings host s).1 in
      elim (Option-cases (lookup s'.submissions id)) [
        | inl new ↦
            rw new (reserve_new-IsReserved model_count id fingerprint s' job_id (rw new at h))
        | inr (known, old) ↦ absurd (not_again fingerprint known s' job_id (rw old at h))
      ]

  -- After `reserve` has made a job for a submission, from any store: the next call with the same
  -- submission makes no other job, however long ago the first was. With the same fingerprint it
  -- returns that job's identifier and false; with another fingerprint it raises the conflict.
  pub reserve_twice :
      (model_count id fingerprint model_count' fingerprint' : ℕ) (s : JobStore F) (job_id : ℕ)
      → (reserve settings host model_count (some id) fingerprint s).0 ≡ ok (job_id, true)
      → let s' = (reserve settings host model_count (some id) fingerprint s).1 in
        (reserve settings host model_count' (some id) fingerprint' s').0
        ≡ (if fingerprint == fingerprint' then ok (job_id, false) else raise submission_conflict)
  reserve_twice model_count id fingerprint model_count' fingerprint' s job_id h =
      again model_count' id fingerprint fingerprint' job_id _
        (reserve-IsReserved model_count id fingerprint s job_id h)
