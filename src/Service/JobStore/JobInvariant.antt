-- ===== src/Service/JobStore/JobInvariant.antt =====
-- What holds of one job of job_store.py between two calls, and that a new job has it.
pub mod Finish
pub mod Cancel
use Prim.Native.Nat.{ℕ, zero, suc, ◌+◌, ◌≤◌, ◌<◌}
use value_stream_simulator.Prelude.{
  ◌≡◌, ◌≢◌, refl, ap, ◌∙◌, sym, ◌⊎◌, inl, inr, Bool, true, false, ◌||◌, Option, none, some, List,
  [], ◌∷◌, ◌++◌, map, length, get_elem?, set, replicate, sum_of, count_if, all, any, All,
  All-append, All-weaken, sum_of-append, sum_of-set, length-append, get_elem?-set_self,
  get_elem?-set_ne, ==_iff, ==_refl, Bool-cases, Option-cases, ◌==◌, if◌then◌else◌, arith,
}
use value_stream_simulator.Service.Schemas.{
  ResultData, ModelError, Status, JobState, OutcomeData, valid_shape,
}
use value_stream_simulator.Service.Settings.{ServiceSettings}
use value_stream_simulator.Service.JobStore.{
  Job, Host, is_live, is_finished, same_status, is_cancelled, is_some, is_nonterminal,
}
use value_stream_simulator.Service.JobStore.States.{
  finished_at, count-replicate, finished_at-replicate, all-replicate, finished_at-set, all-set_live,
  all-get, live-not_finished, any-set_other,
}
use value_stream_simulator.Service.JobStore.Access.{new_job}
use value_stream_simulator.Service.JobStore.Models.{
  Admitted, state_of, exceeds, admit, outcome_of, with_state, with_outcome, closing_state,
  cancel_outcomes, cancel_state, cancelled_job, begun, settled,
}

module _ {F : Type 0} where
  -- The cursors count up from `n`.
  abbrev pub Numbered : ℕ → List (OutcomeData F) → Type 0
  Numbered n [] = Unit
  Numbered n (o ∷ os) = (o.cursor ≡ n + 1) × Numbered (n + 1) os

  -- How many outcomes the model at `index` has.
  abbrev pub outcomes_of : ℕ → List (OutcomeData F) → ℕ
  outcomes_of index = count_if (λ o. o.model_index == index)

  -- The outcome's status is the model's, and it is a finished one.
  abbrev pub Reports : List Status → OutcomeData F → Type 0
  Reports states o =
      (get_elem? states o.model_index ≡ some o.status) × (is_finished o.status ≡ true)

  pub Numbered-append :
      (n k : ℕ) (xs ys : List (OutcomeData F))
      → Numbered n xs
      → n + length xs ≡ k
      → Numbered k ys
      → Numbered n (xs ++ ys)
  Numbered-append n k [] ys h e h' = let e' : n ≡ k = omega arith in rw e' h'
  Numbered-append n k (x ∷ xs) ys h e h' =
      (h.0, Numbered-append (n + 1) k xs ys h.1 (omega arith) h')

  -- The job's own state and end agree with its models' states.
  pub record Lifecycle (job : Job F) : Type 0 where
    pub open_state :
        job.terminal_at ≡ none → (job.status ≡ JobState.queued) ⊎ (job.status ≡ JobState.running)
    pub open_live :
        job.terminal_at ≡ none → 0 < length job.states → all is_finished job.states ≡ false
    pub open_uncancelled :
        job.terminal_at ≡ none → any (same_status Status.cancelled) job.states ≡ false
    pub closed : is_some job.terminal_at ≡ true → all is_finished job.states ≡ true
    pub closed_state :
        is_some job.terminal_at ≡ true
        → job.status ≡ (
            if any (same_status Status.cancelled) job.states || length job.states == 0
            then JobState.cancelled
            else if any (same_status Status.failed) job.states
            then JobState.completed_with_errors
            else JobState.completed)

module _ {F : Type 0} (settings : ServiceSettings) (host : Host F) where
  -- The bytes that an outcome's result takes.
  abbrev pub outcome_bytes : OutcomeData F → ℕ
  outcome_bytes o = elim o.result [ none ↦ 0 | some r ↦ host.json_bytes r ]

  -- The outcomes account for the finished models.
  pub record Accounts (job : Job F) : Type 0 where
    pub numbered : Numbered 0 job.outcomes
    pub accounted : (index : ℕ) → outcomes_of index job.outcomes ≡ finished_at job.states index
    pub reports : All (Reports job.states) job.outcomes
    pub shaped : All (λ o. valid_shape o ≡ true) job.outcomes
    pub tallied : length job.outcomes ≡ count_if is_finished job.states
    pub bytes : job.result_bytes ≡ sum_of outcome_bytes job.outcomes
    pub fits : job.result_bytes ≤ settings.max_job_outcome_bytes

  pub record IsValid (job : Job F) : Type 0 where
    pub accounts : Accounts job
    pub open accounts use *
    pub lifecycle : Lifecycle job
    pub open lifecycle use *

  none_cancelled : (n : ℕ) → any (same_status Status.cancelled) (replicate n Status.queued) ≡ false
  unfolding same_status
  none_cancelled zero = refl
  none_cancelled (suc n) = none_cancelled n

  pub new_job-IsValid :
      (job_id model_count now : ℕ) → IsValid (new_job {F = F} job_id model_count now)
  unfolding new_job
  new_job-IsValid job_id model_count now = record {
    accounts = record {
      numbered = tt;
      accounted = λ index. sym (finished_at-replicate model_count index);
      reports = tt;
      shaped = tt;
      tallied = sym (count-replicate model_count);
      bytes = refl;
      fits = omega arith;
    };
    lifecycle = record {
      open_state = λ _. inl refl;
      open_live = λ _. all-replicate model_count;
      open_uncancelled = λ _. none_cancelled model_count;
      closed = λ h. cc;
      closed_state = λ h. cc;
    };
  }
