-- ===== src/Service/JobStore/JobInvariant/Finish.antt =====
-- `start_model` and `finish_model` of job_store.py keep a job valid.
use Prim.Native.Nat.{ℕ, zero, suc, ◌+◌, ◌≤◌}
use value_stream_simulator.Prelude.{
  ◌≡◌, refl, ap, ◌∙◌, ◌⊎◌, inl, inr, true, false, Option, none, some, List, [], ◌∷◌, length,
  get_elem?, set, count_if, all, any, All-append, All-weaken, sum_of-append, sum_of-set,
  length-append, get_elem?-set_self, get_elem?-set_ne, Bool-cases, Option-cases, ◌==◌,
  if◌then◌else◌, arith,
}
use value_stream_simulator.Service.Schemas.{Status, JobState, OutcomeData, valid_shape}
use value_stream_simulator.Service.Settings.{ServiceSettings}
use value_stream_simulator.Service.JobStore.{Job, Host, is_live, is_finished, same_status}
use value_stream_simulator.Service.JobStore.States.{
  finished_at, finished_at-set, all-set_live, all-get, live-not_finished, any-set_other,
}
use value_stream_simulator.Service.JobStore.Models.{
  Admitted, state_of, outcome_of, with_state, with_outcome, closing_state, begun, settled,
}
use value_stream_simulator.Service.JobStore.JobInvariant.{
  Numbered-append, outcomes_of, Reports, outcome_bytes, Accounts, Lifecycle, IsValid,
}

module _ {F : Type 0} where
  -- An outcome reports on a finished model, so a write to a live one leaves it true.
  Reports-set :
      (states : List Status) (i : ℕ) (st : Status) {old : Status}
      → get_elem? states i ≡ some old
      → is_live old ≡ true
      → (o : OutcomeData F) → Reports states o
      → Reports (set states i st) o
  Reports-set states i st {old} at live o (same, done) =
      (get_elem?-set_ne states i o.model_index st (λ e. clash e) ∙ same, done)
    where
      clash : i ≡ o.model_index → ⊥
      clash e = cc (ap (get_elem? states) e, at, same, live-not_finished old live)

live-uncancelled : (st : Status) → is_live st ≡ true → same_status Status.cancelled st ≡ false
unfolding is_live same_status
live-uncancelled st h = ground arith

-- A list with a state in it, once one is written, is not empty.
length-set_found :
    (states : List Status) (i : ℕ) (st : Status) {old : Status}
    → get_elem? states i ≡ some old
    → (length (set states i st) == 0) ≡ false
length-set_found [] i st h = cc
length-set_found (x ∷ xs) zero st h = ground arith
length-set_found (x ∷ xs) (suc i) st h = ground arith

module _ {F : Type 0} (settings : ServiceSettings) (host : Host F) where
  -- A valid job with a live model is open.
  pub still_open :
      (job : Job F) (index : ℕ) (st : Status)
      → IsValid settings host job
      → get_elem? job.states index ≡ some st
      → is_live st ≡ true
      → job.terminal_at ≡ none
  still_open job index st v at live = elim (Option-cases job.terminal_at) [
    | inl e ↦ e
    | inr (t, ended) ↦
        let done = all-get is_finished job.states index {x = st} (v.closed (rw ended)) at in
        absurd (cc (done, live-not_finished st live))
  ]

  -- A valid job with a live model has no cancelled one, and has none after a write that cancels none.
  pub still_uncancelled :
      (job : Job F) (index : ℕ) (old st : Status)
      → IsValid settings host job
      → get_elem? job.states index ≡ some old
      → is_live old ≡ true
      → same_status Status.cancelled st ≡ false
      → any (same_status Status.cancelled) (set job.states index st) ≡ false
  still_uncancelled job index old st v at live other =
      any-set_other (same_status Status.cancelled) job.states index st at
        (live-uncancelled old live) other
      ∙ v.open_uncancelled (still_open job index old v at live)

  -- Where the account of a live model moves by `n`, that of the outcomes moves with it.
  tallied-set :
      (job : Job F) (index : ℕ) (old st : Status)
      → IsValid settings host job
      → get_elem? job.states index ≡ some old
      → is_live old ≡ true
      → count_if is_finished (set job.states index st)
        ≡ length job.outcomes + (if is_finished st then 1 else 0)
  tallied-set job index old st v at live = ground (
    arith,
    v.tallied,
    live-not_finished old,
    sum_of-set (λ x. if is_finished x then 1 else 0) job.states index st at,
  )

  accounted-set :
      (job : Job F) (index i : ℕ) (old st : Status)
      → IsValid settings host job
      → get_elem? job.states index ≡ some old
      → is_live old ≡ true
      → finished_at (set job.states index st) i
        ≡ outcomes_of i job.outcomes + (if index == i then (if is_finished st then 1 else 0) else 0)
  accounted-set job index i old st v at live =
      ground (arith, v.accounted i, live-not_finished old, finished_at-set job.states index i st at)

  pub begin-IsValid :
      (job : Job F) (index : ℕ)
      → IsValid settings host job
      → get_elem? job.states index ≡ some Status.queued
      → IsValid settings host (begun index job)
  unfolding begun is_live is_finished same_status
  begin-IsValid job index v at =
      let opened = still_open job index Status.queued v at refl in
      record {
        accounts = record {
          numbered = v.numbered;
          accounted =
              λ i. ground (arith, accounted-set job index i Status.queued Status.running v at refl);
          reports =
              All-weaken _ _ job.outcomes (Reports-set job.states index Status.running at refl)
                v.reports;
          shaped = v.shaped;
          tallied = omega (arith, tallied-set job index Status.queued Status.running v at refl);
          bytes = v.bytes;
          fits = v.fits;
        };
        lifecycle = record {
          open_state = λ _. inr refl;
          open_live = λ _ _. all-set_live job.states index Status.running at refl;
          open_uncancelled =
              λ _. still_uncancelled job index Status.queued Status.running v at refl refl;
          closed = λ h. cc;
          closed_state = λ h. cc;
        };
      }

  -- The outcome of a finished model, and the job that has it.
  module _ (job : Job F) (index : ℕ) (old : Status) (a : Admitted F) (v : IsValid settings host job)
      (at : get_elem? job.states index ≡ some old) (live : is_live old ≡ true)
      (shape : valid_shape (outcome_of index job a) ≡ true)
      (size : a.size ≡ outcome_bytes settings host (outcome_of index job a))
      (room : job.result_bytes + a.size ≤ settings.max_job_outcome_bytes) where
    state_finished : is_finished (state_of a) ≡ true
    unfolding is_finished is_live
    state_finished = ground arith

    pub with_outcome-Accounts : Accounts settings host (with_outcome index job a)
    unfolding with_outcome with_state outcome_of
    with_outcome-Accounts = record {
      numbered =
          Numbered-append 0 (length job.outcomes) job.outcomes _ v.numbered (omega arith)
            (refl, tt);
      accounted = λ i.
          rw sum_of-append
            (ground (arith, state_finished, accounted-set job index i old (state_of a) v at live));
      reports =
          All-append (Reports _) job.outcomes _
            (All-weaken _ _ job.outcomes (Reports-set job.states index (state_of a) at live)
              v.reports)
            ((get_elem?-set_self job.states index (state_of a) at, state_finished), tt);
      shaped = All-append _ job.outcomes _ v.shaped (shape, tt);
      tallied =
          rw length-append
            (ground (arith, state_finished, tallied-set job index old (state_of a) v at live));
      bytes = rw sum_of-append (omega (arith, v.bytes, size));
      fits = room;
    }

    pub with_outcome-uncancelled :
        any (same_status Status.cancelled) (with_outcome index job a).states ≡ false
    unfolding with_outcome with_state same_status
    with_outcome-uncancelled = still_uncancelled job index old (state_of a) v at live (ground arith)

    pub with_outcome-any_model : (length (with_outcome index job a).states == 0) ≡ false
    unfolding with_outcome with_state
    with_outcome-any_model = length-set_found job.states index (state_of a) at

    pub with_outcome-open : (with_outcome index job a).terminal_at ≡ none
    unfolding with_outcome with_state
    with_outcome-open = still_open job index old v at live

  Accounts-close :
      (job : Job F) (status : JobState) (terminal_at : Option ℕ)
      → Accounts settings host job
      → Accounts settings host (record job { status = status; terminal_at = terminal_at })
  Accounts-close job status terminal_at c = record {
    numbered = c.numbered;
    accounted = c.accounted;
    reports = c.reports;
    shaped = c.shaped;
    tallied = c.tallied;
    bytes = c.bytes;
    fits = c.fits;
  }

  settled-Lifecycle :
      (job : Job F) (now : ℕ)
      → job.terminal_at ≡ none
      → (job.status ≡ JobState.queued) ⊎ (job.status ≡ JobState.running)
      → any (same_status Status.cancelled) job.states ≡ false
      → (length job.states == 0) ≡ false
      → Lifecycle (settled now job)
  unfolding settled closing_state
  settled-Lifecycle job now opened state whole inhabited = record {
    open_state = ground arith;
    open_live = ground arith;
    open_uncancelled = ground (arith, whole);
    closed = ground arith;
    closed_state = ground (arith, whole, inhabited);
  }

  -- `_terminal` keeps an open job valid.
  pub settled-IsValid :
      (job : Job F) (now : ℕ)
      → Accounts settings host job
      → job.terminal_at ≡ none
      → (job.status ≡ JobState.queued) ⊎ (job.status ≡ JobState.running)
      → any (same_status Status.cancelled) job.states ≡ false
      → (length job.states == 0) ≡ false
      → IsValid settings host (settled now job)
  settled-IsValid job now c opened state whole inhabited = record {
    accounts = elim (Bool-cases (all is_finished job.states)) [
      | inl done ↦ unfold settled in rw done (Accounts-close job _ _ c)
      | inr more ↦ unfold settled in rw more c
    ];
    lifecycle = settled-Lifecycle job now opened state whole inhabited;
  }
