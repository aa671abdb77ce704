-- ===== src/Resources/Tracker/Backlog.antt =====
-- resource_tracker.py: the running sums of what a tracker records.
use Prim.Native.Nat.{ℕ, zero, suc, ◌+◌, ◌-◌}
use value_stream_simulator.Prelude.{
  ◌≡◌, refl, ap, ◌∙◌, Option, none, some, List, [], ◌∷◌, ◌++◌, leb, if◌then◌else◌, arith,
}
use value_stream_simulator.Prelude.Int.{ℤ, pos, negsuc}
use value_stream_simulator.Prelude.Number.{Number}
use value_stream_simulator.Task.Event.{EventStatus}
use value_stream_simulator.Resources.Tracker.{
  ResourceMetadata, Tracker, new_tracker, append, at, metadata, register, start_work, complete_work,
  interruption, start_waiting, complete_waiting,
}

-- A level moved by an integer: none where it would fall below zero.
abbrev pub move : ℤ → ℕ → Option ℕ
move (pos k) level = some (level + k)
move (negsuc zero) zero = none
move (negsuc zero) (suc level) = some level
move (negsuc (suc k)) level = if leb (k + 2) level then some (level - (k + 2)) else none

module _ (n : Number) where
  pub data Call : Type 0 where
    register_call : n.Float → ℕ → Call
    start_work_call : n.Float → ℕ → n.Float → Call
    complete_work_call : n.Float → ℕ → EventStatus → Option n.Float → Call
    interruption_call : n.Float → ℕ → n.Float → Call
    start_waiting_call : n.Float → ℕ → Call
    complete_waiting_call : n.Float → ℕ → n.Float → Call

  pub track : Call → Tracker n → Tracker n
  track (register_call now state) = register n now state
  track (start_work_call now state t) = start_work n now state t
  track (complete_work_call now state st t) = complete_work n now state st t
  track (interruption_call now state t) = interruption n now state t
  track (start_waiting_call now state) = start_waiting n now state
  track (complete_waiting_call now state t) = complete_waiting n now state t

  pub track_all : List Call → Tracker n → Tracker n
  track_all [] t = t
  track_all (c ∷ cs) t = track_all cs (track c t)

  -- The sum of a column over the records from a level on.
  pub level : (ResourceMetadata n → ℤ) → List (ResourceMetadata n) → ℕ → Option ℕ
  level column [] l = some l
  level column (m ∷ ms) l = elim (move (column m) l) [ none ↦ none | some l' ↦ level column ms l' ]

  -- How many requests wait, told from the calls.
  pub waiting_after : List Call → ℕ → Option ℕ
  waiting_after [] l = some l
  waiting_after (start_waiting_call now state ∷ cs) l = waiting_after cs (suc l)
  waiting_after (complete_waiting_call now state t ∷ cs) zero = none
  waiting_after (complete_waiting_call now state t ∷ cs) (suc l) = waiting_after cs l
  waiting_after (register_call now state ∷ cs) l = waiting_after cs l
  waiting_after (start_work_call now state t ∷ cs) l = waiting_after cs l
  waiting_after (complete_work_call now state st t ∷ cs) l = waiting_after cs l
  waiting_after (interruption_call now state t ∷ cs) l = waiting_after cs l

  -- The record that a call appends.
  recorded : Call → Tracker n → ResourceMetadata n
  recorded (register_call now state) t = record (at n now state t) { allocated = pos 1 }
  recorded (start_work_call now state e) t = record (at n now state t) {
    active = pos 1;
    idle_t = some e;
  }
  recorded (complete_work_call now state EventStatus.failure e) t = record (at n now state t) {
    active = negsuc 0;
    failure_t = e;
  }
  recorded (complete_work_call now state EventStatus.success e) t = record (at n now state t) {
    active = negsuc 0;
    success_t = e;
  }
  recorded (interruption_call now state e) t = record (at n now state t) { interruption_t = some e }
  recorded (start_waiting_call now state) t = record (at n now state t) { waiting = pos 1 }
  recorded (complete_waiting_call now state e) t = record (at n now state t) {
    waiting = negsuc 0;
    waiting_t = some e;
  }

  track-recorded : (c : Call) (t : Tracker n) → track c t ≡ append n (recorded c t) t
  unfolding track recorded register start_work complete_work interruption start_waiting
      complete_waiting
  track-recorded (register_call now state) t = refl
  track-recorded (start_work_call now state e) t = refl
  track-recorded (complete_work_call now state EventStatus.failure e) t = refl
  track-recorded (complete_work_call now state EventStatus.success e) t = refl
  track-recorded (interruption_call now state e) t = refl
  track-recorded (start_waiting_call now state) t = refl
  track-recorded (complete_waiting_call now state e) t = refl

  abbrev after : (ResourceMetadata n → ℤ) → ResourceMetadata n → Option ℕ → Option ℕ
  after column m none = none
  after column m (some l) = move (column m) l

  level-append :
      (column : ResourceMetadata n → ℤ) (xs : List (ResourceMetadata n)) (m : ResourceMetadata n)
      (l : ℕ)
      → level column (xs ++ m ∷ []) l ≡ after column m (level column xs l)
  unfolding level
  level-append column [] m l = go (move (column m) l)
    where
      go : (o : Option ℕ) → (elim o [ none ↦ none | some l' ↦ some l' ]) ≡ o
      go none = refl
      go (some l') = refl
  level-append column (x ∷ xs) m l = go (move (column x) l) (λ l'. level-append column xs m l')
    where
      go :
          (o : Option ℕ)
          → ((l' : ℕ) → level column (xs ++ m ∷ []) l' ≡ after column m (level column xs l'))
          → (elim o [ none ↦ none | some l' ↦ level column (xs ++ m ∷ []) l' ])
            ≡ after column m (elim o [ none ↦ none | some l' ↦ level column xs l' ])
      go none f = refl
      go (some l') f = f l'

  level-track :
      (column : ResourceMetadata n → ℤ) (c : Call) (t : Tracker n)
      → level column (track c t).recorded_data 0
        ≡ after column (recorded c t) (level column t.recorded_data 0)
  unfolding append
  level-track column c t =
      rw (track-recorded c t) (level-append column t.recorded_data (recorded c t) 0)

  level-none :
      (column : ResourceMetadata n → ℤ) (cs : List Call) (t : Tracker n)
      → level column t.recorded_data 0 ≡ none
      → level column (track_all cs t).recorded_data 0 ≡ none
  unfolding track_all
  level-none column [] t h = h
  level-none column (c ∷ cs) t h =
      level-none column cs (track c t) (level-track column c t ∙ ap (after column (recorded c t)) h)

  moved :
      (c : Call) (t : Tracker n) (l : ℕ)
      → level (λ m. m.waiting) t.recorded_data 0 ≡ some l
      → level (λ m. m.waiting) (track c t).recorded_data 0 ≡ move (recorded c t).waiting l
  moved c t l h = level-track (λ m. m.waiting) c t ∙ ap (after (λ m. m.waiting) (recorded c t)) h

  waiting_lem :
      (cs : List Call) (t : Tracker n) (l : ℕ)
      → level (λ m. m.waiting) t.recorded_data 0 ≡ some l
      → level (λ m. m.waiting) (track_all cs t).recorded_data 0 ≡ waiting_after cs l
  unfolding track_all waiting_after recorded at metadata
  waiting_lem [] t l h = h
  waiting_lem (register_call now state ∷ cs) t l h =
      waiting_lem cs _ l (moved (register_call now state) t l h ∙ ap some (omega arith))
  waiting_lem (start_work_call now state x ∷ cs) t l h =
      waiting_lem cs _ l (moved (start_work_call now state x) t l h ∙ ap some (omega arith))
  waiting_lem (complete_work_call now state EventStatus.failure x ∷ cs) t l h =
      waiting_lem cs _ l
        (moved (complete_work_call now state EventStatus.failure x) t l h ∙ ap some (omega arith))
  waiting_lem (complete_work_call now state EventStatus.success x ∷ cs) t l h =
      waiting_lem cs _ l
        (moved (complete_work_call now state EventStatus.success x) t l h ∙ ap some (omega arith))
  waiting_lem (interruption_call now state x ∷ cs) t l h =
      waiting_lem cs _ l (moved (interruption_call now state x) t l h ∙ ap some (omega arith))
  waiting_lem (start_waiting_call now state ∷ cs) t l h =
      waiting_lem cs _ (suc l) (moved (start_waiting_call now state) t l h ∙ ap some (omega arith))
  waiting_lem (complete_waiting_call now state x ∷ cs) t zero h =
      level-none (λ m. m.waiting) cs _ (moved (complete_waiting_call now state x) t zero h)
  waiting_lem (complete_waiting_call now state x ∷ cs) t (suc l) h =
      waiting_lem cs _ l (moved (complete_waiting_call now state x) t (suc l) h)

  -- From a new tracker, whatever the calls: the running sum of the recorded `waiting` never falls
  -- below zero exactly where no wait is completed that was not started, and then it ends at the
  -- number of requests that still wait.
  pub backlog_of_calls :
      (now : n.Float) (calls : List Call)
      → level (λ m. m.waiting) (track_all calls (new_tracker n now)).recorded_data 0
        ≡ waiting_after calls 0
  unfolding new_tracker level
  backlog_of_calls now calls = waiting_lem calls (new_tracker n now) 0 refl
