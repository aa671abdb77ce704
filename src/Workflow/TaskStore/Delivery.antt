-- ===== src/Workflow/TaskStore/Delivery.antt =====
-- task_store.py: a terminal store from the moment its alarm is set, over any number of puts.
use Prim.Native.Nat.{ℕ, zero, suc, ◌+◌, ◌<◌}
use mathlib.Core.Path.{subst}
use value_stream_simulator.Prelude.{
  ◌≡◌, refl, sym, ap, ◌∙◌, inl, inr, Bool, true, false, Option, none, some, List, [], ◌∷◌, ◌++◌,
  map, take, length, length-append, Bool-cases, leb, ◌==◌, ◌-◌, arith,
}
use value_stream_simulator.Prelude.Exec.{Result, ok, raise, ok-injective}
use value_stream_simulator.Task.Event.{EventStatus, ValueError}
use value_stream_simulator.Prelude.Number.{Number}
use value_stream_simulator.Task.Delivery.{Task, TaskMethod, terminate_task}
use value_stream_simulator.Workflow.TaskStore.{
  Simpy, StoreError, StorePut, TaskStore, mark, check_alarm, put_unalarmed, put_with, terminal_put,
  set_alarm,
}
use value_stream_simulator.Workflow.TaskStore.Alarm.{
  SimpyLaws, append_assoc, append-nil, Watch, gained, set_alarm-Watch, terminal_put-Watch,
}

module _ (n : Number) (lib : Simpy n) where
  abbrev unless_raised :
      Result {0, 0} StoreError StorePut × TaskStore n lib
      → Result {0, 0} StoreError Unit × TaskStore n lib
      → Result {0, 0} StoreError Unit × TaskStore n lib
  unless_raised (raise e, store) after = (raise e, store)
  unless_raised (ok p, store) after = after

  -- Puts at given times, until one raises.
  unfoldable pub deliver_all :
      List (n.Float × Task n) → TaskStore n lib → Result {0, 0} StoreError Unit × TaskStore n lib
  deliver_all [] store = (ok tt, store)
  deliver_all ((now, item) ∷ rest) store =
      unless_raised (terminal_put n lib now item store)
        (deliver_all rest (terminal_put n lib now item store).1)

  -- The task that a terminal store of a name keeps of a put.
  abbrev pub terminated : ℕ → n.Float × Task n → Task n
  terminated name (now, item) = (terminate_task n now name EventStatus.success none item).1

  name-check_alarm :
      (limit : Option ℕ) (signal : Option lib.Event) (store : TaskStore n lib)
      → (check_alarm n lib limit signal store).name ≡ store.name
  unfolding check_alarm
  name-check_alarm none signal store = refl
  name-check_alarm (some limit) none store = refl
  name-check_alarm (some limit) (some signal) store =
      elim (Bool-cases (length store.items == limit)) [
        | inl hit ↦ rw hit refl
        | inr far ↦ rw far refl
      ]

  name-put_unalarmed :
      (q : Result {0, 0} ValueError Unit × Task n) (item : Task n) (store : TaskStore n lib)
      → (put_unalarmed n lib (λ _. q) item store).1.name ≡ store.name
  unfolding put_unalarmed mark
  name-put_unalarmed (ok u, item') item store = name-check_alarm _ _ _
  name-put_unalarmed (raise x, item') item store = refl

  name-put_with :
      (m : TaskMethod n Unit) (item : Task n) (limit : Option ℕ) (signal : Option lib.Event)
      (store : TaskStore n lib)
      → (put_with n lib m item limit signal store).1.name ≡ store.name
  unfolding put_with put_unalarmed mark
  name-put_with m item none signal store = name-put_unalarmed (m item) item store
  name-put_with m item (some limit) none store = name-put_unalarmed (m item) item store
  name-put_with m item (some limit) (some signal) store = elim (Bool-cases (lib.processed signal)) [
    | inl over ↦ rw over refl
    | inr running ↦ elim (Bool-cases (lib.triggered signal)) [
      | inl done ↦ rw (running, done) refl
      | inr idle ↦ rw (running, idle) (name-put_unalarmed (m item) item store)
    ]
  ]

  name-terminal_put :
      (now : n.Float) (item : Task n) (store : TaskStore n lib)
      → (terminal_put n lib now item store).1.name ≡ store.name
  unfolding terminal_put
  name-terminal_put now item store = name-put_with _ item store.limit store.signal store

  name-set_alarm :
      (limit : ℕ) (signal : lib.Event) (store : TaskStore n lib)
      → (set_alarm n lib limit signal store).1.name ≡ store.name
  unfolding set_alarm
  name-set_alarm limit signal store = elim (Bool-cases (leb limit (length store.items))) [
    | inl full ↦ rw full refl
    | inr room ↦ elim (Bool-cases (lib.triggered signal)) [
      | inl early ↦ rw (room, early) refl
      | inr fresh ↦ rw (room, fresh) refl
    ]
  ]

  -- What a put answers once the alarm is set: before the signal it is accepted, and after it not.
  answer : Bool → StorePut
  answer true = StorePut.cancelled
  answer false = StorePut.accepted

  unalarmed-answer :
      (q : Result {0, 0} ValueError Unit × Task n) (item : Task n) (store : TaskStore n lib)
      {p : StorePut}
      → (put_unalarmed n lib (λ _. q) item store).0 ≡ ok p
      → p ≡ StorePut.accepted
  unfolding put_unalarmed mark
  unalarmed-answer (ok u, item') item store h = sym (ok-injective h)
  unalarmed-answer (raise x, item') item store h = cc

  put_with-answer :
      (m : TaskMethod n Unit) (item : Task n) (limit : ℕ) (signal : lib.Event)
      (store : TaskStore n lib) {p : StorePut}
      → (put_with n lib m item (some limit) (some signal) store).0 ≡ ok p
      → p ≡ answer (lib.triggered signal)
  unfolding put_with put_unalarmed mark answer
  put_with-answer m item limit signal store h = elim (Bool-cases (lib.processed signal)) [
    | inl over ↦ cc (rw over at h)
    | inr running ↦ elim (Bool-cases (lib.triggered signal)) [
      | inl done ↦ rw done (sym (ok-injective (rw (running, done) at h)))
      | inr idle ↦ rw idle (unalarmed-answer (m item) item store (rw (running, idle) at h))
    ]
  ]

  terminal_put-answer :
      (now : n.Float) (item : Task n) (limit : ℕ) (before new : List (Task n))
      (store : TaskStore n lib) (p : StorePut) (w : Watch n lib limit before new store)
      → (terminal_put n lib now item store).0 ≡ ok p
      → p ≡ answer (lib.triggered w.signal)
  unfolding terminal_put
  terminal_put-answer now item limit before new store p w h =
      let m = terminate_task n now store.name EventStatus.success none in
      put_with-answer m item limit w.signal store (
        subst (λ g. (put_with n lib m item (some limit) g store).0 ≡ ok p) w.signalled
          (subst (λ l. (put_with n lib m item l store.signal store).0 ≡ ok p) w.limited h))

  module _ (laws : SimpyLaws n lib) where
    -- The tasks behind the alarm, and those of the next puts that have room.
    abbrev pub filled :
        ℕ → ℕ → List (Task n) → List (Task n) → List (n.Float × Task n) → List (Task n)
    filled name limit before new puts =
        new ++ take (limit - (length before + length new)) (map (terminated name) puts)

    -- One put takes one task of those that have room.
    filled-gained :
        (name limit : ℕ) (before new : List (Task n)) (now : n.Float) (item : Task n)
        (rest : List (n.Float × Task n)) (store : TaskStore n lib) (p : StorePut)
        (w : Watch n lib limit before new store)
        → p ≡ answer (lib.triggered w.signal)
        → filled name limit before (gained n lib p (terminated name (now, item)) new) rest
          ≡ filled name limit before new ((now, item) ∷ rest)
    unfolding answer
    filled-gained name limit before new now item rest store p w same =
        let held = ap (λ ts. length ts) w.held ∙ length-append before new in
        elim (Bool-cases (lib.triggered w.signal)) [
          | inl done ↦
              let full =
                no_room limit (length before + length new)
                  (omega (arith, (w.raised done).0, held)) in
              let refused : p ≡ StorePut.cancelled = same ∙ ap answer done in
              rw (refused, full) refl
          | inr idle ↦
              let t = terminated name (now, item) in
              let taken : p ≡ StorePut.accepted = same ∙ ap answer idle in
              let one = length-append new (t ∷ []) in
              let room =
                one_less limit (length before) (length new) _ one
                  (omega (arith, w.waiting idle, held)) in
              rw (taken, room) (append_assoc new (t ∷ []) _)
        ]
      where
        no_room : (l k : ℕ) → k ≡ l → l - k ≡ 0
        no_room l k e = omega (arith, e)

        one_less : (l b k m : ℕ) → m ≡ k + 1 → b + k < l → l - (b + k) ≡ suc (l - (b + m))
        one_less l b k m e h = omega (arith, e, h)

    deliver_all-Watch :
        (puts : List (n.Float × Task n)) (name limit : ℕ) (before new : List (Task n))
        (store : TaskStore n lib)
        → store.name ≡ name
        → Watch n lib limit before new store
        → (deliver_all puts store).0 ≡ ok tt
        → Watch n lib limit before (filled name limit before new puts) (deliver_all puts store).1
    unfolding deliver_all
    deliver_all-Watch [] name limit before new store called w h =
        subst (λ ts. Watch n lib limit before ts store) (sym (nothing_more new _)) w
      where
        nothing_more : (ts : List (Task n)) (k : ℕ) → ts ++ take k [] ≡ ts
        nothing_more ts zero = append-nil ts
        nothing_more ts (suc k) = append-nil ts
    deliver_all-Watch ((now, item) ∷ rest) name limit before new store called w h =
        go (terminal_put n lib now item store).0 refl
          (λ p e k.
            let watched =
              subst
                (λ m. Watch n lib limit before (gained n lib p (terminated m (now, item)) new) s')
                called (terminal_put-Watch n lib laws now item limit before new store p w e) in
            subst (λ ts. Watch n lib limit before ts (deliver_all rest s').1)
              (filled-gained name limit before new now item rest store p w
                (terminal_put-answer now item limit before new store p w e))
              (deliver_all-Watch rest name limit before _ s'
                (name-terminal_put now item store ∙ called) watched k))
          h
      where
        s' : TaskStore n lib
        s' = (terminal_put n lib now item store).1

        go :
            (r : Result {0, 0} StoreError StorePut)
            → (terminal_put n lib now item store).0 ≡ r
            → ((p : StorePut)
                → (terminal_put n lib now item store).0 ≡ ok p
                → (deliver_all rest s').0 ≡ ok tt
                → Watch n lib limit before
                    (filled name limit before new ((now, item) ∷ rest))
                    (deliver_all rest s').1)
            → (unless_raised (r, s') (deliver_all rest s')).0 ≡ ok tt
            → Watch n lib limit before
                (filled name limit before new ((now, item) ∷ rest))
                (unless_raised (r, s') (deliver_all rest s')).1
        go (raise x) e f k = cc
        go (ok p) e f k = f p e k

    -- Once `set_alarm` has returned on a terminal store, and whatever is put into it after, as long as
    -- no put raises: the store holds what it held at first and then the first tasks put, each
    -- terminated at the time of its put, up to the limit; the signal is raised exactly where the
    -- store has reached the limit, with exactly the tasks put since.
    pub deliver_all-set_alarm :
        (limit : ℕ) (signal : lib.Event) (puts : List (n.Float × Task n)) (store : TaskStore n lib)
        → (set_alarm n lib limit signal store).0 ≡ ok tt
        → (deliver_all puts (set_alarm n lib limit signal store).1).0 ≡ ok tt
        → Watch n lib limit store.items
            (take (limit - length store.items) (map (terminated store.name) puts))
            (deliver_all puts (set_alarm n lib limit signal store).1).1
    deliver_all-set_alarm limit signal puts store set h =
        subst
          (λ k.
            Watch n lib limit store.items (take (limit - k) (map (terminated store.name) puts))
              (deliver_all puts (set_alarm n lib limit signal store).1).1)
          (plus_zero (length store.items))
          (deliver_all-Watch puts store.name limit store.items [] _
            (name-set_alarm limit signal store) (set_alarm-Watch n lib limit signal store set) h)
      where
        plus_zero : (k : ℕ) → k + 0 ≡ k
        plus_zero k = omega arith
