-- ===== src/Task/History/Chain.antt =====
-- The order of the events of a history of task_history.py.
use Prim.Native.Nat.{ℕ}
use value_stream_simulator.Prelude.{
  ◌≡◌, refl, Bool, true, false, ◌&&◌, Option, none, some, List, [], ◌∷◌, ◌++◌, ◌==◌, ==_iff,
  Bool-cases, inl, inr, arith,
}
use value_stream_simulator.Prelude.Exec.{ok, ok-injective}
use value_stream_simulator.Prelude.Number.{Number}
use value_stream_simulator.Task.Event.{
  TaskType, EventStatus, EventType, is_end, is_terminal, TaskEvent, start_event, end_event,
  terminal_event,
}
use value_stream_simulator.Task.History.{
  TaskHistory, new_history, last, but_last, is_active, named, check_start, start, ending, finish,
  resume, check_terminate, terminate,
}
use value_stream_simulator.Task.History.Calls.{
  Call, start_call, finish_call, resume_call, terminate_call, run, run_all, start_cases,
  finish_cases, resume_cases, terminate_cases,
}

both : (a b : Bool) → (a && b) ≡ true → (a ≡ true) × (b ≡ true)
both a b h = ground arith

module _ (n : Number) where
  -- How an event fits the one before it. Time does not decrease; a start follows an event that is
  -- neither active nor terminal; an end closes the active event of its state, and lasted from it; a
  -- terminal event follows no other.
  abbrev pub Fits : EventType → TaskEvent n → TaskEvent n → Type 0
  Fits EventType.start p e =
      (is_active n p ≡ false)
      × (is_terminal p.event_type ≡ false)
      × (e.status ≡ EventStatus.success)
  Fits EventType.end p e =
      (is_active n p ≡ true) × (p.event ≡ e.event) × (e.duration ≡ some (n.sub e.time p.time))
  Fits EventType.terminal p e = is_terminal p.event_type ≡ false

  abbrev pub Follows : TaskEvent n → TaskEvent n → Type 0
  Follows p e = (n.lt e.time p.time ≡ false) × Fits e.event_type p e

  abbrev pub Tail : TaskEvent n → List (TaskEvent n) → Type 0
  Tail p [] = Unit
  Tail p (e ∷ es) = Follows p e × Tail e es

  -- The first event is no end.
  abbrev pub IsChain : List (TaskEvent n) → Type 0
  IsChain [] = Unit
  IsChain (e ∷ es) = (is_end e.event_type ≡ false) × Tail e es

  Tail-append :
      (p : TaskEvent n) (es : List (TaskEvent n)) (e : TaskEvent n)
      → Tail p es
      → ((q : TaskEvent n) → last n (p ∷ es) ≡ some q → Follows q e)
      → Tail p (es ++ e ∷ [])
  Tail-append p [] e h f = (f p refl, tt)
  Tail-append p (e' ∷ es) e h f = (h.0, Tail-append e' es e h.1 f)

  IsChain-append :
      (es : List (TaskEvent n)) (e : TaskEvent n)
      → IsChain es
      → (last n es ≡ none → is_end e.event_type ≡ false)
      → ((q : TaskEvent n) → last n es ≡ some q → Follows q e)
      → IsChain (es ++ e ∷ [])
  IsChain-append [] e h first f = (first refl, tt)
  IsChain-append (p ∷ es) e h first f = (h.0, Tail-append p es e h.1 f)

  Tail-but_last :
      (p e : TaskEvent n) (es : List (TaskEvent n)) → Tail p (e ∷ es) → Tail p (but_last n (e ∷ es))
  Tail-but_last p e [] h = tt
  Tail-but_last p e (e' ∷ es) h = (h.0, Tail-but_last e e' es h.1)

  IsChain-but_last : (es : List (TaskEvent n)) → IsChain es → IsChain (but_last n es)
  IsChain-but_last [] h = tt
  IsChain-but_last (e ∷ []) h = tt
  IsChain-but_last (e ∷ e' ∷ es) h = (h.0, Tail-but_last e e' es h.1)

  start-Follows :
      (t : n.Float) (q : TaskEvent n) (event : ℕ) (task_type : TaskType) (is_rework : Bool)
      (id : Option ℕ)
      → check_start n t (some q) ≡ ok tt
      → Follows q (start_event n event t task_type is_rework EventStatus.success id)
  unfolding check_start start_event
  start-Follows t q event task_type is_rework id h = ground arith

  ending-Follows :
      (t : n.Float) (task_type : TaskType) (is_rework : Bool) (event : Option ℕ)
      (status : EventStatus) (loss : n.Float) (id : Option ℕ) (q e : TaskEvent n)
      → ending n t task_type is_rework event status loss id (some q) ≡ ok e
      → Follows q e
  unfolding ending end_event
  ending-Follows t task_type is_rework event status loss id q e h =
      elim (Bool-cases (n.lt t q.time)) [
        | inl early ↦ cc (rw early at h)
        | inr timely ↦ elim (Bool-cases (is_active n q && (q.event == named n event q))) [
          | inr wrong ↦ cc (rw (timely, wrong) at h)
          | inl right ↦
              let (active, named_so) = both (is_active n q) (q.event == named n event q) right in
              rw (← ok-injective (rw (timely, right) at h))
                (timely, (active, (==_iff _ _).0 named_so, refl))
        ]
      ]

  terminate-Follows :
      (t : n.Float) (q : TaskEvent n) (event : ℕ) (task_type : TaskType) (is_rework : Bool)
      (status : EventStatus) (id : Option ℕ)
      → check_terminate n t (some q) ≡ ok tt
      → Follows q (terminal_event n event t task_type is_rework status id)
  unfolding check_terminate terminal_event
  terminate-Follows t q event task_type is_rework status id h = ground arith

  start-Keeps :
      (t : n.Float) (e : ℕ) (tt' : TaskType) (r : Bool) (id : Option ℕ) (h : TaskHistory n)
      → IsChain h.events
      → IsChain (start n t e tt' r id h).1.events
  start-Keeps t e tt' r id h chain =
      start_cases n (λ r. IsChain r.1.events) h t e tt' r id
        (λ time timed passed.
          IsChain-append h.events _ chain (λ _. unfold start_event in refl)
            (λ q at. start-Follows time q e tt' r id (rw at at passed)))
        (λ x. chain)

  finish-Keeps :
      (t : n.Float) (tt' : TaskType) (r : Bool) (e : Option ℕ) (st : EventStatus) (l : n.Float)
      (id : Option ℕ) (h : TaskHistory n)
      → IsChain h.events
      → IsChain (finish n t tt' r e st l id h).1.events
  unfolding ending
  finish-Keeps t tt' r e st l id h chain =
      finish_cases n (λ r. IsChain r.1.events) h t tt' r e st l id
        (λ time ev timed passed.
          IsChain-append h.events _ chain (λ empty. cc (rw empty at passed))
            (λ q at. ending-Follows time tt' r e st l id q ev (rw at at passed)))
        (λ x. chain)

  resume-Keeps : (e : ℕ) (h : TaskHistory n) → IsChain h.events → IsChain (resume n e h).1.events
  resume-Keeps e h chain =
      resume_cases n (λ r. IsChain r.1.events) h e (λ _. IsChain-but_last h.events chain)
        (λ x. chain)

  terminate-Keeps :
      (t : n.Float) (e : ℕ) (tt' : TaskType) (r : Bool) (st : EventStatus) (id : Option ℕ)
      (h : TaskHistory n)
      → IsChain h.events
      → IsChain (terminate n t e tt' r st id h).1.events
  terminate-Keeps t e tt' r st id h chain =
      terminate_cases n (λ r. IsChain r.1.events) h t e tt' r st id
        (λ time timed passed.
          IsChain-append h.events _ chain (λ _. unfold terminal_event in refl)
            (λ q at. terminate-Follows time q e tt' r st id (rw at at passed)))
        (λ x. chain)

  run-Keeps : (c : Call n) (h : TaskHistory n) → IsChain h.events → IsChain (run n c h).1.events
  unfolding run
  run-Keeps (start_call t e tt' r id) = start-Keeps t e tt' r id
  run-Keeps (finish_call t tt' r e st l id) = finish-Keeps t tt' r e st l id
  run-Keeps (resume_call e) = resume-Keeps e
  run-Keeps (terminate_call t e tt' r st id) = terminate-Keeps t e tt' r st id

  run_all-Keeps :
      (cs : List (Call n)) (h : TaskHistory n) → IsChain h.events → IsChain (run_all n cs h).events
  unfolding run_all
  run_all-Keeps [] h chain = chain
  run_all-Keeps (c ∷ cs) h chain = run_all-Keeps cs (run n c h).1 (run-Keeps c h chain)

  -- From a new history, after any calls in any order, refused ones included: no event is earlier than
  -- the one before it, a start stands only where no event is active, an end closes the start right
  -- before it, of the same state, with the time passed since as its duration, nothing follows a
  -- terminal event, and the first event is no end.
  pub reachable-IsChain :
      (calls : List (Call n)) (epoch_start : n.Float)
      → IsChain (run_all n calls (new_history n epoch_start)).events
  unfolding new_history
  reachable-IsChain calls epoch_start = run_all-Keeps calls (new_history n epoch_start) tt
