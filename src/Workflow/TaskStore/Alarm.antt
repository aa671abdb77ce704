-- ===== src/Workflow/TaskStore/Alarm.antt =====
-- The alarm of task_store.py: what a signal that is set on a store is raised with, and when.
use Prim.Native.Nat.{ℕ, ◌<◌}
use mathlib.Core.Path.{subst}
use value_stream_simulator.Prelude.{
  ◌≡◌, refl, sym, ap, ◌∙◌, inl, inr, true, false, Option, none, some, List, [], ◌∷◌, ◌++◌, length,
  length-append, drop, leb, ==_iff, Bool-cases, ◌==◌, arith,
}
use value_stream_simulator.Prelude.Exec.{Result, ok, raise, ok-injective}
use value_stream_simulator.Prelude.Number.{Number}
use value_stream_simulator.Task.Event.{EventStatus, ValueError}
use value_stream_simulator.Task.Delivery.{Task, TaskMethod, start_task, terminate_task}
use value_stream_simulator.Workflow.TaskStore.{
  Simpy, StorePut, TaskStore, all_but_last, mark, check_alarm, put_unalarmed, put_with, put,
  terminal_put, set_alarm,
}

-- What the simulation library documents: `put` on a store without a capacity appends at once, and an
-- event that succeeds is triggered with the value given.
pub record SimpyLaws (n : Number) (lib : Simpy n) : Type 0 where
  pub puts : (items : List (Task n)) (t : Task n) → lib.put_items items t ≡ items ++ t ∷ []
  pub succeeds : (v : List (Task n)) (e : lib.Event) → lib.triggered (lib.succeed v e) ≡ true
  pub carries : (v : List (Task n)) (e : lib.Event) → lib.value (lib.succeed v e) ≡ some v

all_but_last-append {ℓ} : {A : Type ℓ} (xs : List A) (x : A) → all_but_last (xs ++ x ∷ []) ≡ xs
all_but_last-append [] x = refl
all_but_last-append (a ∷ []) x = refl
all_but_last-append (a ∷ b ∷ xs) x = ap (◌∷◌ a) (all_but_last-append (b ∷ xs) x)

drop-append {ℓ} : {A : Type ℓ} (xs ys : List A) → drop (length xs) (xs ++ ys) ≡ ys
drop-append [] ys = refl
drop-append (x ∷ xs) ys = drop-append xs ys

pub append-nil {ℓ} : {A : Type ℓ} (xs : List A) → xs ++ [] ≡ xs
append-nil [] = refl
append-nil (x ∷ xs) = ap (◌∷◌ x) (append-nil xs)

pub append_assoc {ℓ} : {A : Type ℓ} (xs ys zs : List A) → (xs ++ ys) ++ zs ≡ xs ++ (ys ++ zs)
append_assoc [] ys zs = refl
append_assoc (x ∷ xs) ys zs = ap (◌∷◌ x) (append_assoc xs ys zs)

module _ (n : Number) (lib : Simpy n) where
  -- The store holds `new` behind what it held when the alarm was set; the signal is raised, with
  -- these tasks, exactly where the store has reached the limit.
  pub record Watch (limit : ℕ) (before new : List (Task n)) (store : TaskStore n lib) : Type 0 where
    pub limited : store.limit ≡ some limit
    pub based : store.baseline ≡ length before
    pub signal : lib.Event
    pub signalled : store.signal ≡ some signal
    pub held : store.items ≡ before ++ new
    pub raised :
        lib.triggered signal ≡ true → (length store.items ≡ limit) × (lib.value signal ≡ some new)
    pub waiting : lib.triggered signal ≡ false → length store.items < limit

  pub set_alarm-Watch :
      (limit : ℕ) (signal : lib.Event) (store : TaskStore n lib)
      → (set_alarm n lib limit signal store).0 ≡ ok tt
      → Watch limit store.items [] (set_alarm n lib limit signal store).1
  unfolding set_alarm
  set_alarm-Watch limit signal store h = elim (Bool-cases (leb limit (length store.items))) [
    | inl full ↦ cc (rw full at h)
    | inr room ↦ elim (Bool-cases (lib.triggered signal)) [
      | inl early ↦ cc (rw (room, early) at h)
      | inr fresh ↦
          rw (room, fresh)
            record {
              limited = refl;
              based = refl;
              signal = signal;
              signalled = refl;
              held = sym (append-nil store.items);
              raised = λ e. cc;
              waiting = λ _. ground (arith, room);
            }
    ]
  ]

  -- What a put adds to the tasks behind the alarm.
  abbrev pub gained : StorePut → Task n → List (Task n) → List (Task n)
  gained StorePut.accepted item new = new ++ item ∷ []
  gained StorePut.cancelled item new = new

  module _ (laws : SimpyLaws n lib) where
    grown :
        (items before new : List (Task n)) (item : Task n)
        → items ≡ before ++ new
        → items ++ item ∷ [] ≡ before ++ (new ++ item ∷ [])
    grown items before new item e = rw e (append_assoc before new (item ∷ []))

    behind :
        (items before new : List (Task n)) (item : Task n) (baseline : ℕ)
        → items ≡ before ++ new
        → baseline ≡ length before
        → drop baseline (items ++ item ∷ []) ≡ new ++ item ∷ []
    behind items before new item baseline e b =
        rw (b, grown items before new item e) (drop-append before (new ++ item ∷ []))

    check_alarm-Watch :
        (item : Task n) (limit : ℕ) (before new : List (Task n)) (store : TaskStore n lib)
        (w : Watch limit before new store)
        → lib.triggered w.signal ≡ false
        → Watch limit before (new ++ item ∷ []) (
            check_alarm n lib
              (some limit)
              (some w.signal)
              record store { items = store.items ++ item ∷ [] })
    unfolding check_alarm
    check_alarm-Watch item limit before new store w untriggered =
        elim (Bool-cases (length (store.items ++ item ∷ []) == limit)) [
          | inl hit ↦ rw hit record {
            limited = w.limited;
            based = w.based;
            signal = lib.succeed (drop store.baseline (store.items ++ item ∷ [])) w.signal;
            signalled = refl;
            held = grown store.items before new item w.held;
            raised = λ _. (
              (==_iff _ limit).0 hit,
              laws.carries _ w.signal
                  ∙ ap some (behind store.items before new item store.baseline w.held w.based),
            );
            waiting = λ e.
                cc (laws.succeeds (drop store.baseline (store.items ++ item ∷ [])) w.signal, e);
          }
          | inr below ↦ rw below record {
            limited = w.limited;
            based = w.based;
            signal = w.signal;
            signalled = w.signalled;
            held = grown store.items before new item w.held;
            raised = λ e. cc;
            waiting = λ _.
                ground (arith, w.waiting untriggered, below, length-append store.items (item ∷ []));
          }
        ]

    unalarmed-Watch :
        (q : Result {0, 0} ValueError Unit × Task n) (item : Task n) (limit : ℕ)
        (before new : List (Task n)) (store : TaskStore n lib) (w : Watch limit before new store)
        {p : StorePut}
        → lib.triggered w.signal ≡ false
        → (put_unalarmed n lib (λ _. q) item store).0 ≡ ok p
        → Watch limit before (gained p q.1 new) (put_unalarmed n lib (λ _. q) item store).1
    unfolding put_unalarmed mark
    unalarmed-Watch (ok u, item') item limit before new store w {p} untriggered h =
        let same : StorePut.accepted ≡ p = ok-injective h in
        let with = λ (l : Option ℕ) (g : Option lib.Event).
          Watch limit before (new ++ item' ∷ [])
            (check_alarm n lib l g record store { items = store.items ++ item' ∷ [] }) in
        rw (← same, laws.puts store.items item')
          (subst (λ l. with l store.signal) (sym w.limited)
            (subst (with (some limit)) (sym w.signalled)
              (check_alarm-Watch item' limit before new store w untriggered)))
    unalarmed-Watch (raise x, item') item limit before new store w untriggered h = cc

    put_with-Watch :
        (m : TaskMethod n Unit) (item : Task n) (limit : ℕ) (before new : List (Task n))
        (store : TaskStore n lib) (w : Watch limit before new store) {p : StorePut}
        → (put_with n lib m item (some limit) (some w.signal) store).0 ≡ ok p
        → Watch limit before
            (gained p (m item).1 new)
            (put_with n lib m item (some limit) (some w.signal) store).1
    unfolding put_with put_unalarmed mark
    put_with-Watch m item limit before new store w {p} h =
        let same : all_but_last (lib.put_items store.items item) ≡ store.items =
          rw (laws.puts store.items item) (all_but_last-append store.items item) in
        elim (Bool-cases (lib.processed w.signal)) [
          | inl over ↦ cc (rw over at h)
          | inr running ↦ elim (Bool-cases (lib.triggered w.signal)) [
            | inl done ↦
                let answer : StorePut.cancelled ≡ p = ok-injective (rw (running, done) at h) in
                rw (running, done, ← answer) (rw same w)
            | inr idle ↦
                rw (running, idle)
                  (unalarmed-Watch (m item) item limit before new store w idle
                    (rw (running, idle) at h))
          ]
        ]

    watched-put :
        (m : TaskMethod n Unit) (item : Task n) (limit : ℕ) (before new : List (Task n))
        (store : TaskStore n lib) (w : Watch limit before new store) {p : StorePut}
        → (put_with n lib m item store.limit store.signal store).0 ≡ ok p
        → Watch limit before
            (gained p (m item).1 new)
            (put_with n lib m item store.limit store.signal store).1
    watched-put m item limit before new store w {p} h =
        let kept = λ (l : Option ℕ) (g : Option lib.Event).
          (put_with n lib m item l g store).0 ≡ ok p
          → Watch limit before (gained p (m item).1 new) (put_with n lib m item l g store).1 in
        subst (λ l. kept l store.signal) (sym w.limited)
          (subst (kept (some limit)) (sym w.signalled)
            (put_with-Watch m item limit before new store w))
          h

    -- A store that is watched, and a `put` of `TerminalTaskStore` that has not raised: the store is
    -- watched still. An accepted task stands, terminated, behind the ones before it, and where it
    -- takes the store to the limit the signal is raised with all the tasks put since the alarm was
    -- set; once it is raised, and until it is processed, a put is cancelled and leaves the store.
    pub terminal_put-Watch :
        (now : n.Float) (item : Task n) (limit : ℕ) (before new : List (Task n))
        (store : TaskStore n lib) (p : StorePut)
        → Watch limit before new store
        → (terminal_put n lib now item store).0 ≡ ok p
        → Watch limit before
            (gained p (terminate_task n now store.name EventStatus.success none item).1 new)
            (terminal_put n lib now item store).1
    unfolding terminal_put
    terminal_put-Watch now item limit before new store p w h =
        watched-put (terminate_task n now store.name EventStatus.success none) item limit before new
          store w h

    -- The same for a `put` of `TaskStore`, where an accepted task has been started.
    pub put-Watch :
        (now : n.Float) (item : Task n) (limit : ℕ) (before new : List (Task n))
        (store : TaskStore n lib) (p : StorePut)
        → Watch limit before new store
        → (put n lib now item store).0 ≡ ok p
        → Watch limit before
            (gained p (start_task n now store.name none item).1 new)
            (put n lib now item store).1
    unfolding put
    put-Watch now item limit before new store p w h =
        watched-put (start_task n now store.name none) item limit before new store w h
