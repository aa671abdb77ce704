-- ===== src/Task/History/Refusals.antt =====
-- What a call on a history of task_history.py refuses, and what it undoes.
use Prim.Native.Nat.{ℕ}
use value_stream_simulator.Prelude.{
  ◌≡◌, ◌≢◌, refl, ap, Bool, true, ◌&&◌, Option, none, some, List, [], ◌∷◌, ◌++◌, ◌==◌, ==_refl,
  Bool-cases, inl, inr, arith,
}
use value_stream_simulator.Prelude.Exec.{Result, ok, raise, ok-injective}
use value_stream_simulator.Prelude.Number.{Number}
use value_stream_simulator.Task.Event.{
  TaskType, EventStatus, EventType, ValueError, is_end, TaskEvent, end_event,
}
use value_stream_simulator.Task.History.{
  TaskHistory, last, but_last, is_active, check_start, ending, finish, check_resume, resume,
  check_terminate, last_event, of_result,
}
use value_stream_simulator.Task.History.Calls.{
  Call, start_call, finish_call, resume_call, terminate_call, run, start_cases, finish_cases,
  resume_cases, terminate_cases,
}

module _ (n : Number) where
  -- A call that raises leaves the history as it was.
  pub run_raises :
      (c : Call n) (h : TaskHistory n) (x : ValueError)
      → (run n c h).0 ≡ raise x
      → (run n c h).1 ≡ h
  unfolding run
  run_raises (start_call t e tt' r id) h x =
      start_cases n (λ r. r.0 ≡ raise x → r.1 ≡ h) h t e tt' r id (λ _ _ _ bad. cc) (λ _ _. refl)
  run_raises (finish_call t tt' r e st l id) h x =
      finish_cases n (λ r. r.0 ≡ raise x → r.1 ≡ h) h t tt' r e st l id (λ _ _ _ _ bad. cc)
        (λ _ _. refl)
  run_raises (resume_call e) h x =
      resume_cases n (λ r. r.0 ≡ raise x → r.1 ≡ h) h e (λ _ bad. cc) (λ _ _. refl)
  run_raises (terminate_call t e tt' r st id) h x =
      terminate_cases n (λ r. r.0 ≡ raise x → r.1 ≡ h) h t e tt' r st id (λ _ _ _ bad. cc)
        (λ _ _. refl)

  abbrev pub Raises : Result {0, 0} ValueError Unit × TaskHistory n → Type 0
  Raises r = (x : ValueError) × (r.0 ≡ raise x)

  last-append : (es : List (TaskEvent n)) (e : TaskEvent n) → last n (es ++ e ∷ []) ≡ some e
  last-append [] e = refl
  last-append (a ∷ []) e = refl
  last-append (a ∷ b ∷ es) e = last-append (b ∷ es) e

  but_last-append : (es : List (TaskEvent n)) (e : TaskEvent n) → but_last n (es ++ e ∷ []) ≡ es
  but_last-append [] e = refl
  but_last-append (a ∷ []) e = refl
  but_last-append (a ∷ b ∷ es) e = ap (◌∷◌ a) (but_last-append (b ∷ es) e)

  start_terminal :
      (t : n.Float) (q : TaskEvent n)
      → q.event_type ≡ EventType.terminal
      → check_start n t (some q) ≢ ok tt
  unfolding check_start
  start_terminal t q ended h = ground arith

  finish_terminal :
      (t : n.Float) (tt' : TaskType) (r : Bool) (event : Option ℕ) (st : EventStatus) (l : n.Float)
      (id : Option ℕ) (q : TaskEvent n) {e : TaskEvent n}
      → q.event_type ≡ EventType.terminal
      → ending n t tt' r event st l id (some q) ≢ ok e
  unfolding ending
  finish_terminal t tt' r event st l id q ended h = ground arith

  resume_terminal :
      (event : ℕ) (q : TaskEvent n)
      → q.event_type ≡ EventType.terminal
      → check_resume n event (some q) ≢ ok tt
  unfolding check_resume
  resume_terminal event q ended h = ground arith

  terminate_terminal :
      (t : n.Float) (q : TaskEvent n)
      → q.event_type ≡ EventType.terminal
      → check_terminate n t (some q) ≢ ok tt
  unfolding check_terminate
  terminate_terminal t q ended h = ground arith

  -- After a terminal event, every call raises.
  pub terminal_refuses :
      (c : Call n) (h : TaskHistory n) (e : TaskEvent n)
      → last n h.events ≡ some e
      → e.event_type ≡ EventType.terminal
      → Raises (run n c h)
  unfolding run
  terminal_refuses (start_call t e tt' r id) h q at ended =
      start_cases n Raises h t e tt' r id
        (λ time timed passed. absurd (start_terminal time q ended (rw at at passed)))
        (λ x. (x, refl))
  terminal_refuses (finish_call t tt' r e st l id) h q at ended =
      finish_cases n Raises h t tt' r e st l id
        (λ time ev timed passed.
          absurd (finish_terminal time tt' r e st l id q ended (rw at at passed)))
        (λ x. (x, refl))
  terminal_refuses (resume_call e) h q at ended =
      resume_cases n Raises h e (λ passed. absurd (resume_terminal e q ended (rw at at passed)))
        (λ x. (x, refl))
  terminal_refuses (terminate_call t e tt' r st id) h q at ended =
      terminate_cases n Raises h t e tt' r st id
        (λ time timed passed. absurd (terminate_terminal time q ended (rw at at passed)))
        (λ x. (x, refl))

  -- The event that `end` appends for a state it is given.
  ending_event :
      (t : n.Float) (tt' : TaskType) (r : Bool) (event : ℕ) (st : EventStatus) (l : n.Float)
      (id : Option ℕ) (q : Option (TaskEvent n)) (e : TaskEvent n)
      → ending n t tt' r (some event) st l id q ≡ ok e
      → (is_end e.event_type ≡ true) × ((e.event == event) ≡ true)
  unfolding ending end_event
  ending_event t tt' r event st l id none e h = cc
  ending_event t tt' r event st l id (some q) e h = elim (Bool-cases (n.lt t q.time)) [
    | inl early ↦ cc (rw early at h)
    | inr timely ↦ elim (Bool-cases (is_active n q && (q.event == event))) [
      | inr wrong ↦ cc (rw (timely, wrong) at h)
      | inl right ↦ rw (← ok-injective (rw (timely, right) at h)) (refl, ==_refl event)
    ]
  ]

  -- Resuming the state that a successful end has just closed takes the history back to what it was
  -- before the end.
  pub resume-finish :
      (t : n.Float) (task_type : TaskType) (is_rework : Bool) (event : ℕ) (status : EventStatus)
      (loss : n.Float) (id : Option ℕ) (h : TaskHistory n)
      → (finish n t task_type is_rework (some event) status loss id h).0 ≡ ok tt
      → resume n event (finish n t task_type is_rework (some event) status loss id h).1 ≡ (ok tt, h)
  unfolding resume last_event of_result check_resume
  resume-finish t tt' r event st l id h =
      finish_cases n (λ r. r.0 ≡ ok tt → resume n event r.1 ≡ (ok tt, h)) h t tt' r (some event) st
        l id
        (λ time ev timed passed _.
          let (ends, same) = ending_event time tt' r event st l id _ ev passed in
          rw (last-append h.events ev) (rw (ends, same, but_last-append h.events ev) refl))
        (λ x bad. cc)
