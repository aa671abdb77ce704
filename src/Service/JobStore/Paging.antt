-- ===== src/Service/JobStore/Paging.antt =====
-- `page` and `status` of job_store.py: what a client that polls with a cursor reads.
use Prim.Native.Nat.{ℕ, zero, suc, ◌+◌, ◌≤◌}
use value_stream_simulator.Prelude.{
  ◌≡◌, refl, sym, ap, ◌∙◌, some, List, [], ◌∷◌, length, drop, select, count_if, ltb, arith,
}
use value_stream_simulator.Prelude.Exec.{ok, ok-injective}
use value_stream_simulator.Prelude.Dict.{lookup, All-lookup}
use value_stream_simulator.Service.Schemas.{Status, OutcomeData, OutcomePage, JobStatus}
use value_stream_simulator.Service.Settings.{ServiceSettings}
use value_stream_simulator.Service.JobStore.{Job, JobStore, Host, is_live, is_finished, same_status}
use value_stream_simulator.Service.JobStore.Access.{job_page, job_status, page, status}
use value_stream_simulator.Service.JobStore.JobInvariant.{Numbered, IsValid}
use value_stream_simulator.Service.JobStore.Invariant.{StoreIsSound, prune-IsSound, get_job_inv}

module _ {F : Type 0} where
  select_beyond :
      (n after : ℕ) (os : List (OutcomeData F))
      → Numbered n os
      → after ≤ n
      → select (λ o. ltb after o.cursor) os ≡ os
  select_beyond n after [] h le = refl
  select_beyond n after (o ∷ os) h le =
      ground (arith, h.0, select_beyond (n + 1) after os h.1 (omega arith))

  select-Numbered :
      (n k after : ℕ) (os : List (OutcomeData F))
      → Numbered n os
      → n + k ≡ after
      → select (λ o. ltb after o.cursor) os ≡ drop k os
  select-Numbered n zero after os h e = select_beyond n after os h (omega arith)
  select-Numbered n (suc k) after [] h e = refl
  select-Numbered n (suc k) after (o ∷ os) h e =
      ground (arith, h.0, select-Numbered (n + 1) k after os h.1 (omega arith))

tally :
    (states : List Status)
    → (count_if (same_status Status.succeeded) states
          + count_if (same_status Status.failed) states
          + count_if (same_status Status.cancelled) states
        ≡ count_if is_finished states)
      × (count_if (same_status Status.queued) states
            + count_if (same_status Status.running) states
            + count_if is_finished states
          ≡ length states)
unfolding same_status is_finished is_live
tally [] = (refl, refl)
tally (st ∷ states) = ground (arith, tally states)

module _ {F : Type 0} (settings : ServiceSettings) (host : Host F) where
  -- In a sound store, a page that is read after the cursor `after` holds exactly the outcomes of the
  -- stored job from the position `after` on, in their order, and its next cursor is their number.
  pub page-eq-drop :
      (job_id after : ℕ) (s : JobStore F) (p : OutcomePage F)
      → StoreIsSound settings host s
      → (page settings host job_id after s).0 ≡ ok p
      → (job : Job F) × (lookup (page settings host job_id after s).1.jobs job_id ≡ some job)
        × (p.outcomes ≡ drop after job.outcomes)
        × (p.next_cursor ≡ length job.outcomes)
  unfolding page job_page
  page-eq-drop job_id after s p v h =
      let (job, found, ran) = get_job_inv settings host job_id _ s h in
      let valid =
        All-lookup (IsValid settings host) _ job_id (prune-IsSound settings host s v).valid found in
      let same = ok-injective (ap (λ r. r.0) (sym ran) ∙ h) in
      (
        job,
        ap (λ r. lookup r.1.jobs job_id) ran ∙ found,
        ap (λ q. q.outcomes) (sym same)
            ∙ select-Numbered 0 after after job.outcomes valid.numbered (omega arith),
        ap (λ q. q.next_cursor) (sym same),
      )

  -- In a sound store, the five counts of a job's status add up to the number of its models, and the
  -- last cursor is the number of models that succeeded, failed or were cancelled.
  pub status_adds_up :
      (job_id : ℕ) (s : JobStore F) (st : JobStatus)
      → StoreIsSound settings host s
      → (status settings host job_id s).0 ≡ ok st
      → (st.queued_models
            + st.running_models
            + (st.succeeded_models + st.failed_models + st.cancelled_models)
          ≡ st.total_models)
        × (st.last_cursor ≡ st.succeeded_models + st.failed_models + st.cancelled_models)
  unfolding status job_status
  status_adds_up job_id s st v h =
      let (job, found, ran) = get_job_inv settings host job_id _ s h in
      let valid =
        All-lookup (IsValid settings host) _ job_id (prune-IsSound settings host s v).valid found in
      let same = ok-injective (ap (λ r. r.0) (sym ran) ∙ h) in
      rw (← same) (omega (arith, tally job.states, valid.tallied))
