-- ===== src/Service/JobStore/States.antt =====
-- Lemmas on the `states` of a job: which models have finished.
use Prim.Native.Nat.{ℕ, zero, suc, ◌<◌}
use value_stream_simulator.Prelude.{
  ◌≡◌, refl, Bool, true, false, none, some, List, [], ◌∷◌, length, get_elem?, set, replicate,
  count_if, all, any, ◌==◌, if◌then◌else◌, arith,
}
use value_stream_simulator.Service.Schemas.{Status}
use value_stream_simulator.Service.JobStore.{is_live, is_finished}

-- 1 where the model at `index` has finished, else 0.
abbrev pub finished_at : List Status → ℕ → ℕ
finished_at states index = elim (get_elem? states index) [
  | none ↦ 0
  | some st ↦ if is_finished st then 1 else 0
]

-- The states of a new job: none is finished.
pub count-replicate : (n : ℕ) → count_if is_finished (replicate n Status.queued) ≡ 0
unfolding is_finished is_live
count-replicate zero = refl
count-replicate (suc n) = omega (arith, count-replicate n)

pub finished_at-replicate : (n index : ℕ) → finished_at (replicate n Status.queued) index ≡ 0
unfolding is_finished is_live
finished_at-replicate zero index = refl
finished_at-replicate (suc n) zero = refl
finished_at-replicate (suc n) (suc index) = finished_at-replicate n index

pub all-replicate :
    (n : ℕ)
    → 0 < length (replicate n Status.queued)
    → all is_finished (replicate n Status.queued) ≡ false
unfolding is_finished is_live
all-replicate zero h = absurd (omega arith)
all-replicate (suc n) h = refl

pub live-not_finished : (st : Status) → is_live st ≡ true → is_finished st ≡ false
unfolding is_finished
live-not_finished st h = ground arith

pub all-get {ℓ} :
    {A : Type ℓ} (p : A → Bool) (xs : List A) (i : ℕ) {x : A}
    → all p xs ≡ true
    → get_elem? xs i ≡ some x
    → p x ≡ true
all-get p [] i h e = cc
all-get p (y ∷ ys) zero h e = ground arith
all-get p (y ∷ ys) (suc i) {x} h e = ground (arith, all-get p ys i {x = x})

-- Writing a state moves the account of its own model only.
pub finished_at-set :
    (states : List Status) (i j : ℕ) (st : Status) {old : Status}
    → get_elem? states i ≡ some old
    → finished_at (set states i st) j
      ≡ (if i == j then (if is_finished st then 1 else 0) else finished_at states j)
finished_at-set [] i j st h = cc
finished_at-set (x ∷ xs) zero zero st h = refl
finished_at-set (x ∷ xs) zero (suc j) st h = ground arith
finished_at-set (x ∷ xs) (suc i) zero st h = ground arith
finished_at-set (x ∷ xs) (suc i) (suc j) st h = ground (arith, finished_at-set xs i j st h)

-- While a live state stands in the list, not all have finished.
pub all-set_live :
    (states : List Status) (i : ℕ) (st : Status) {old : Status}
    → get_elem? states i ≡ some old
    → is_live st ≡ true
    → all is_finished (set states i st) ≡ false
all-set_live [] i st h l = cc
all-set_live (x ∷ xs) zero st h l = ground (arith, live-not_finished st)
all-set_live (x ∷ xs) (suc i) st h l = ground (arith, all-set_live xs i st h l)

pub any-set_other :
    (p : Status → Bool) (states : List Status) (i : ℕ) (st : Status) {old : Status}
    → get_elem? states i ≡ some old
    → p old ≡ false
    → p st ≡ false
    → any p (set states i st) ≡ any p states
any-set_other p [] i st h l k = cc
any-set_other p (x ∷ xs) zero st h l k = ground arith
any-set_other p (x ∷ xs) (suc i) st h l k = ground (arith, any-set_other p xs i st h l k)
