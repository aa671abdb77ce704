-- ===== src/Service/Scheduler/Slots.antt =====
-- scheduler.py: how many jobs run at once, and which wait.
use Prim.Native.Nat.{ℕ, suc, ◌≤◌}
use value_stream_simulator.Prelude.{
  ◌≡◌, ◌⊎◌, refl, ap, inl, inr, Bool, true, false, not, Option, none, some, List, [], ◌∷◌, map,
  length, select, all, ltb, leb, Bool-cases, Option-cases, ◌==◌, arith,
}
use value_stream_simulator.Prelude.Dict.{lookup, put}
use value_stream_simulator.Service.Schemas.{JobState}
use value_stream_simulator.Service.Settings.{ServiceSettings}
use value_stream_simulator.Service.Scheduler.{
  Pool, Scheduler, new_scheduler, add, discard, start_job, submit, is_wanted, start_pending, forget,
  forget_finished, cancel_futures, newly_done, futures_of, withdraw, cancel, cancel_all, close,
}

length-add : (x : ℕ) (xs : List ℕ) → length (add x xs) ≤ suc (length xs)
unfolding add
length-add x xs = ground arith

length-select {ℓ} : {A : Type ℓ} (p : A → Bool) (xs : List A) → length (select p xs) ≤ length xs
length-select p [] = omega arith
length-select p (x ∷ xs) = ground (arith, length-select p xs)

module _ {Request : Type 0} (pool : Pool Request) (settings : ServiceSettings) where
  -- No more jobs are active than the settings allow, and while the scheduler is open a job waits
  -- only where all slots are taken.
  pub record IsBusy (s : Scheduler pool) : Type 0 where
    pub bounded : length s.active_jobs ≤ settings.max_active_jobs
    pub filled :
        (s.closed ≡ true)
        ⊎ (s.pending_jobs ≡ [])
        ⊎ (settings.max_active_jobs ≤ length s.active_jobs)

  start_pending-IsBusy :
      (view : ℕ → Option JobState) (pending : List (ℕ × Request)) (s : Scheduler pool)
      → length s.active_jobs ≤ settings.max_active_jobs
      → IsBusy (start_pending pool settings view pending s)
  unfolding start_pending start_job
  start_pending-IsBusy view [] s h = record { bounded = h; filled = inr (inl refl) }
  start_pending-IsBusy view ((job_id, request) ∷ rest) s h = elim (Bool-cases s.closed) [
    | inl shut ↦ rw shut record { bounded = h; filled = inl refl }
    | inr opened ↦ elim (Bool-cases (ltb (length s.active_jobs) settings.max_active_jobs)) [
      | inr full ↦
          rw (opened, full, start_pending)
            record { bounded = h; filled = inr (inr (ground (arith, full))) }
      | inl room ↦ elim (Bool-cases (is_wanted (view job_id))) [
        | inl wanted ↦
            rw (opened, room, wanted, start_pending)
              (start_pending-IsBusy view rest _
                (ground (arith, room, length-add job_id s.active_jobs)))
        | inr other ↦ rw (opened, room, other, start_pending) (start_pending-IsBusy view rest _ h)
      ]
    ]
  ]

  submit-IsBusy :
      (job_id : ℕ) (request : Request) (s : Scheduler pool)
      → IsBusy s
      → IsBusy (submit pool settings job_id request s).1
  unfolding submit start_job
  submit-IsBusy job_id request s v = elim (Bool-cases s.closed) [
    | inl shut ↦ simp shut v
    | inr opened ↦ elim (Bool-cases (leb settings.max_active_jobs (length s.active_jobs))) [
      | inl full ↦
          simp (opened, full)
            record { bounded = v.bounded; filled = inr (inr (ground (arith, full))) }
      | inr room ↦
          simp (opened, room)
            record {
              bounded = ground (arith, room, length-add job_id s.active_jobs);
              filled = inr (inl (ground (arith, v.filled, opened, room)));
            }
    ]
  ]

  forget_finished-IsBusy :
      (view : ℕ → Option JobState) (job_id : ℕ) (s : Scheduler pool)
      → IsBusy s
      → IsBusy (forget_finished pool settings view job_id s)
  unfolding forget_finished forget discard
  forget_finished-IsBusy view job_id s v = elim (Option-cases (lookup s.futures job_id)) [
    | inl gone ↦ rw (gone, forget_finished) v
    | inr (futures, there) ↦ elim (Bool-cases (all pool.done futures)) [
      | inl done ↦
          rw (there, forget_finished, done)
            (start_pending-IsBusy view s.pending_jobs _
              (omega (arith, v.bounded, length-select (λ y. not (y == job_id)) s.active_jobs)))
      | inr running ↦ rw (there, forget_finished, running) v
    ]
  ]

  still_filled :
      (job_id : ℕ) (s : Scheduler pool)
      → IsBusy s
      → (s.closed ≡ true)
        ⊎ (select (λ p. not (p.0 == job_id)) s.pending_jobs ≡ [])
        ⊎ (settings.max_active_jobs ≤ length s.active_jobs)
  still_filled job_id s v = elim v.filled [
    | inl shut ↦ inl shut
    | inr (inl idle) ↦ inr (inl (ap (select (λ p. not (p.0 == job_id))) idle))
    | inr (inr full) ↦ inr (inr full)
  ]

  cancel_futures-IsBusy :
      (job_id : ℕ) (s : Scheduler pool) → IsBusy s → IsBusy (cancel_futures pool job_id s)
  unfolding cancel_futures
  cancel_futures-IsBusy job_id s v = go (lookup s.futures job_id)
    where
      go :
          (found : Option (List pool.Future))
          → IsBusy (elim found [
            | none ↦ s
            | some futures ↦ record s { futures = put s.futures job_id (map pool.cancel futures) }
          ])
      go none = v
      go (some futures) = record { bounded = v.bounded; filled = v.filled }

  withdraw-IsBusy : (job_id : ℕ) (s : Scheduler pool) → IsBusy s → IsBusy (withdraw pool job_id s)
  unfolding withdraw
  withdraw-IsBusy job_id s v =
      cancel_futures-IsBusy job_id _
        record { bounded = v.bounded; filled = still_filled job_id s v }

  cancel-IsBusy :
      (view : ℕ → Option JobState) (found : Bool) (job_id : ℕ) (s : Scheduler pool)
      → IsBusy s
      → IsBusy (cancel pool settings view found job_id s).1
  unfolding cancel
  cancel-IsBusy view false job_id s v = v
  cancel-IsBusy view true job_id s v =
      elim (Bool-cases (newly_done pool (futures_of pool job_id s))) [
        | inl done ↦ rw done (forget_finished-IsBusy view job_id _ (withdraw-IsBusy job_id s v))
        | inr none' ↦ rw none' (withdraw-IsBusy job_id s v)
      ]

  cancel_all-IsBusy :
      (view : ℕ → Option JobState) (found : ℕ → Bool) (ids : List ℕ) (s : Scheduler pool)
      → IsBusy s
      → IsBusy (cancel_all pool settings view found ids s)
  unfolding cancel_all
  cancel_all-IsBusy view found [] s v = v
  cancel_all-IsBusy view found (id ∷ ids) s v =
      cancel_all-IsBusy view found ids _ (cancel-IsBusy view (found id) id s v)

  close-IsBusy :
      (view : ℕ → Option JobState) (found : ℕ → Bool) (s : Scheduler pool)
      → IsBusy s
      → IsBusy (close pool settings view found s)
  unfolding close
  close-IsBusy view found s v = elim (Bool-cases s.closed) [
    | inl shut ↦ simp shut v
    | inr opened ↦
        simp opened
          (cancel_all-IsBusy view found _ _ record { bounded = v.bounded; filled = inl refl })
  ]

  -- The calls of the methods, and of the callback of a future that has ended. What the store answers,
  -- and how a job's futures stand, may be another each time.
  pub data Step : Type 0 where
    submit_step : ℕ → Request → Step
    futures_step : ℕ → List pool.Future → Step
    forget_step : (ℕ → Option JobState) → ℕ → Step
    cancel_step : (ℕ → Option JobState) → Bool → ℕ → Step
    close_step : (ℕ → Option JobState) → (ℕ → Bool) → Step

  pub step : Step → Scheduler pool → Scheduler pool
  step (submit_step id r) s = (submit pool settings id r s).1
  step (futures_step id fs) s = record s { futures = put s.futures id fs }
  step (forget_step view id) s = forget_finished pool settings view id s
  step (cancel_step view found id) s = (cancel pool settings view found id s).1
  step (close_step view found) s = close pool settings view found s

  pub steps : List Step → Scheduler pool → Scheduler pool
  steps [] s = s
  steps (c ∷ cs) s = steps cs (step c s)

  step-IsBusy : (c : Step) (s : Scheduler pool) → IsBusy s → IsBusy (step c s)
  unfolding step
  step-IsBusy (submit_step id r) s v = submit-IsBusy id r s v
  step-IsBusy (futures_step id fs) s v = record { bounded = v.bounded; filled = v.filled }
  step-IsBusy (forget_step view id) s v = forget_finished-IsBusy view id s v
  step-IsBusy (cancel_step view found id) s v = cancel-IsBusy view found id s v
  step-IsBusy (close_step view found) s v = close-IsBusy view found s v

  steps-IsBusy : (cs : List Step) (s : Scheduler pool) → IsBusy s → IsBusy (steps cs s)
  unfolding steps
  steps-IsBusy [] s v = v
  steps-IsBusy (c ∷ cs) s v = steps-IsBusy cs (step c s) (step-IsBusy c s v)

  -- From a new scheduler, after any calls, callbacks and ends of futures in any order: no more jobs
  -- are active than the settings allow, and unless the scheduler is closed or no job waits, all
  -- slots are taken.
  pub reachable-IsBusy : (calls : List Step) → IsBusy (steps calls (new_scheduler pool))
  unfolding new_scheduler
  reachable-IsBusy calls =
      steps-IsBusy calls (new_scheduler pool)
        record { bounded = omega arith; filled = inr (inl refl) }
