-- ===== src/Service/JobStore/JobInvariant/Cancel.antt =====
-- `cancel` of job_store.py keeps a job valid.
use Prim.Native.Nat.{ℕ, zero, suc, ◌+◌, ◌<◌}
use value_stream_simulator.Prelude.{
  ◌≡◌, refl, ap, ◌∙◌, inl, inr, true, false, ◌||◌, none, some, List, [], ◌∷◌, map, length,
  get_elem?, sum_of, count_if, all, any, ◌==◌, All, All-append, All-weaken, sum_of-append,
  length-append, Bool-cases, arith,
}
use value_stream_simulator.Service.Schemas.{Status, OutcomeData, valid_shape}
use value_stream_simulator.Service.Settings.{ServiceSettings}
use value_stream_simulator.Service.JobStore.{Job, Host, is_live, is_finished, same_status}
use value_stream_simulator.Service.JobStore.States.{finished_at}
use value_stream_simulator.Service.JobStore.Models.{cancel_outcomes, cancel_state, cancelled_job}
use value_stream_simulator.Service.JobStore.JobInvariant.{
  Numbered, Numbered-append, outcomes_of, Reports, outcome_bytes, IsValid,
}

-- What `cancel` adds to the outcomes, from the cursor `c` and the model `k` on.
module _ (F : Type 0) where
  cancel-Numbered :
      (c k : ℕ) (states : List Status) → Numbered c (cancel_outcomes {F = F} c k states)
  unfolding cancel_outcomes
  cancel-Numbered c k [] = tt
  cancel-Numbered c k (st ∷ states) = elim (Bool-cases (is_live st)) [
    | inl live ↦ rw (live, Numbered) (refl, cancel-Numbered (c + 1) (k + 1) states)
    | inr done ↦ rw (done, Numbered) (cancel-Numbered c (k + 1) states)
  ]

  cancel_below :
      (c k j : ℕ) (states : List Status)
      → j < k
      → outcomes_of j (cancel_outcomes {F = F} c k states) ≡ 0
  unfolding cancel_outcomes
  cancel_below c k j [] h = refl
  cancel_below c k j (st ∷ states) h = ground (
    arith,
    cancel_below (c + 1) (k + 1) j states (omega arith),
    cancel_below c (k + 1) j states (omega arith),
  )

  cancel-accounted :
      (c k i j : ℕ) (states : List Status)
      → k + i ≡ j
      → outcomes_of j (cancel_outcomes {F = F} c k states) + finished_at states i
        ≡ finished_at (map cancel_state states) i
  unfolding cancel_outcomes cancel_state is_finished
  cancel-accounted c k i j [] h = ground arith
  cancel-accounted c k zero j (st ∷ states) h = ground (
    arith,
    cancel_below (c + 1) (k + 1) j states (omega arith),
    cancel_below c (k + 1) j states (omega arith),
  )
  cancel-accounted c k (suc i) j (st ∷ states) h = ground (
    arith,
    cancel-accounted (c + 1) (k + 1) i j states (omega arith),
    cancel-accounted c (k + 1) i j states (omega arith),
  )

  -- Each new outcome reports a model that `cancel` has just finished.
  abbrev ReportsFrom : ℕ → List Status → OutcomeData F → Type 0
  ReportsFrom k states o =
      (i : ℕ) × (o.model_index ≡ k + i)
      × (get_elem? (map cancel_state states) i ≡ some o.status)
      × (is_finished o.status ≡ true)

  cancel-ReportsFrom :
      (c k : ℕ) (states : List Status)
      → All (ReportsFrom k states) (cancel_outcomes {F = F} c k states)
  unfolding cancel_outcomes cancel_state is_finished is_live
  cancel-ReportsFrom c k [] = tt
  cancel-ReportsFrom c k (st ∷ states) = elim (Bool-cases (is_live st)) [
    | inl live ↦
        rw (live, All)
          (
            (0, omega arith, ground arith, ground arith),
            All-weaken (ReportsFrom (k + 1) states) (ReportsFrom k (st ∷ states)) _
                (λ o (i, e, g, d). (suc i, omega arith, g, d))
                (cancel-ReportsFrom (c + 1) (k + 1) states),
          )
    | inr done ↦
        rw (done, All)
          (All-weaken (ReportsFrom (k + 1) states) (ReportsFrom k (st ∷ states)) _
            (λ o (i, e, g, d). (suc i, omega arith, g, d)) (cancel-ReportsFrom c (k + 1) states))
  ]

  length-cancel :
      (c k : ℕ) (states : List Status)
      → length (cancel_outcomes {F = F} c k states) + count_if is_finished states ≡ length states
  unfolding cancel_outcomes is_finished
  length-cancel c k [] = refl
  length-cancel c k (st ∷ states) =
      ground (arith, length-cancel (c + 1) (k + 1) states, length-cancel c (k + 1) states)

  cancel-shaped :
      (c k : ℕ) (states : List Status)
      → All (λ o. valid_shape o ≡ true) (cancel_outcomes {F = F} c k states)
  unfolding cancel_outcomes valid_shape
  cancel-shaped c k [] = tt
  cancel-shaped c k (st ∷ states) = elim (Bool-cases (is_live st)) [
    | inl live ↦ rw (live, All) (refl, cancel-shaped (c + 1) (k + 1) states)
    | inr done ↦ rw (done, All) (cancel-shaped c (k + 1) states)
  ]

-- `cancel` leaves a finished model as it is.
get_elem?-cancelled :
    (states : List Status) (i : ℕ) (st : Status)
    → get_elem? states i ≡ some st
    → is_finished st ≡ true
    → get_elem? (map cancel_state states) i ≡ some st
unfolding cancel_state is_finished is_live
get_elem?-cancelled [] i st h d = cc
get_elem?-cancelled (x ∷ xs) zero st h d = ground arith
get_elem?-cancelled (x ∷ xs) (suc i) st h d = get_elem?-cancelled xs i st h d

count-cancelled :
    (states : List Status) → count_if is_finished (map cancel_state states) ≡ length states
unfolding cancel_state is_finished is_live
count-cancelled [] = refl
count-cancelled (st ∷ states) = ground (arith, count-cancelled states)

all-cancelled : (states : List Status) → all is_finished (map cancel_state states) ≡ true
unfolding cancel_state is_finished is_live
all-cancelled [] = refl
all-cancelled (st ∷ states) = ground (arith, all-cancelled states)

-- A model that has not finished is cancelled.
any-cancelled :
    (states : List Status)
    → all is_finished states ≡ false
    → any (same_status Status.cancelled) (map cancel_state states) ≡ true
unfolding cancel_state is_finished is_live same_status
any-cancelled [] h = cc
any-cancelled (st ∷ states) h = ground (arith, any-cancelled states)

-- Once cancelled, a job has a cancelled model, unless it has none at all.
closes :
    (states : List Status)
    → (0 < length states → all is_finished states ≡ false)
    → any (same_status Status.cancelled) (map cancel_state states)
        || length (map cancel_state states) == 0
      ≡ true
closes [] h = refl
closes (st ∷ states) h = rw (any-cancelled (st ∷ states) (h (omega arith))) refl

module _ {F : Type 0} (settings : ServiceSettings) (host : Host F) where
  cancel-bytes :
      (c k : ℕ) (states : List Status)
      → sum_of (outcome_bytes settings host) (cancel_outcomes c k states) ≡ 0
  unfolding cancel_outcomes
  cancel-bytes c k [] = refl
  cancel-bytes c k (st ∷ states) =
      ground (arith, cancel-bytes (c + 1) (k + 1) states, cancel-bytes c (k + 1) states)

  pub cancelled_job-IsValid :
      (now : ℕ) (job : Job F)
      → IsValid settings host job
      → job.terminal_at ≡ none
      → IsValid settings host (cancelled_job now job)
  unfolding cancelled_job
  cancelled_job-IsValid now job v opened = record {
    accounts = record {
      numbered =
          Numbered-append 0 (length job.outcomes) job.outcomes _ v.numbered (omega arith)
            (cancel-Numbered F (length job.outcomes) 0 job.states);
      accounted = λ i. rw sum_of-append (
          omega (
            arith,
            v.accounted i,
            cancel-accounted F (length job.outcomes) 0 i i job.states (omega arith),
          ));
      reports =
          All-append (Reports _) job.outcomes _
            (All-weaken _ _ job.outcomes
              (λ o (same, d). (get_elem?-cancelled job.states o.model_index o.status same d, d))
              v.reports)
            (All-weaken (ReportsFrom F 0 job.states) _ _
              (λ o (i, e, g, d).
                let same : o.model_index ≡ i = omega arith in
                (ap (get_elem? (map cancel_state job.states)) same ∙ g, d))
              (cancel-ReportsFrom F (length job.outcomes) 0 job.states));
      shaped =
          All-append _ job.outcomes _ v.shaped (cancel-shaped F (length job.outcomes) 0 job.states);
      tallied = rw length-append (
          omega (
            arith,
            v.tallied,
            length-cancel F (length job.outcomes) 0 job.states,
            count-cancelled job.states,
          ));
      bytes =
          rw sum_of-append
            (omega (arith, v.bytes, cancel-bytes (length job.outcomes) 0 job.states));
      fits = v.fits;
    };
    lifecycle = record {
      open_state = λ h. cc;
      open_live = λ h _. cc;
      closed = λ _. all-cancelled job.states;
      open_uncancelled = λ h. cc;
      closed_state = λ _. rw (closes job.states (v.open_live opened)) refl;
    };
  }
