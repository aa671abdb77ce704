-- ===== src/App/Metrics/Extremes.antt =====
-- metrics.py: the index of the first lowest or highest point, and that a kept index keeps its point.
use Prim.Native.Nat.{ℕ, suc, ◌+◌}
use mathlib.Core.Path.{subst}
use mathlib.Core.Option.{none-ne-some, some-injective}
use value_stream_simulator.Prelude.{
  ◌≡◌, refl, sym, ap, ◌∙◌, inl, inr, Bool, true, false, Option, none, some, List, [], ◌∷◌, All, any,
  get_elem?, Bool-cases, Option-cases, ==_iff, ◌==◌, if_both, if◌then◌else◌, arith,
}
use value_stream_simulator.App.Storage.{includes}
use value_stream_simulator.App.Metrics.{insert_index, first_by, points_at}

pub includes-insert_index : (i : ℕ) (js : List ℕ) → includes i (insert_index i js) ≡ true
unfolding insert_index includes
includes-insert_index i [] = ground arith
includes-insert_index i (j ∷ js) = ground (arith, includes-insert_index i js)

pub includes-insert_other :
    (i k : ℕ) (js : List ℕ) → includes k js ≡ true → includes k (insert_index i js) ≡ true
unfolding insert_index includes
includes-insert_other i k [] h = ground arith
includes-insert_other i k (j ∷ js) h = ground (arith, h, includes-insert_other i k js)

module _ (before : ℕ → ℕ → Bool)
    (join : (x y z : ℕ) → before x y ≡ false → before y z ≡ false → before x z ≡ false)
    (flip : (x y : ℕ) → before x y ≡ true → before y x ≡ false) where
  chosen :
      (best : ℕ × ℕ) (i x r : ℕ)
      → before (if before x best.1 then (i, x) else best).1 r ≡ false
      → (before best.1 r ≡ false) × (before x r ≡ false)
  chosen best i x r h = elim (Bool-cases (before x best.1)) [
    | inl better ↦ let this = rw better at h in (join _ _ _ (flip x best.1 better) this, this)
    | inr worse ↦ let this = rw worse at h in (this, join _ _ _ worse this)
  ]

  -- No point of the series, and not the best so far, goes before the best.
  pub first_by-Best :
      {F : Type 0} (best : ℕ × ℕ) (i : ℕ) (ps : List (F × ℕ))
      → (before best.1 (first_by before best i ps).1 ≡ false)
        × All (λ p. before p.1 (first_by before best i ps).1 ≡ false) ps
  unfolding first_by
  first_by-Best best i [] = (irreflexive best.1, tt)
    where
      irreflexive : (x : ℕ) → before x x ≡ false
      irreflexive x = elim (Bool-cases (before x x)) [ inl h ↦ flip x x h | inr h ↦ h ]
  first_by-Best best i (p ∷ ps) =
      let (this, others) =
        first_by-Best (if before p.1 best.1 then (i, p.1) else best) (suc i) ps in
      let (of_best, of_p) = chosen best i p.1 _ this in (of_best, (of_p, others))

pub one_plus : (j : ℕ) → 1 + j ≡ suc j
one_plus j = omega arith

module _ {F : Type 0} where
  -- The value of a series at an index.
  abbrev pub value_at : List (F × ℕ) → ℕ → Option ℕ
  value_at ps i = elim (get_elem? ps i) [ none ↦ none | some p ↦ some p.1 ]

  pub points_at-any :
      (f : ℕ → Bool) (chunk : List (F × ℕ)) (is : List ℕ) (k v : ℕ)
      → includes k is ≡ true
      → value_at chunk k ≡ some v
      → f v ≡ true
      → any (λ q. f q.1) (points_at chunk is) ≡ true
  unfolding points_at includes
  points_at-any f chunk [] k v inside at holds = inside
  points_at-any f chunk (i ∷ is) k v inside at holds = elim (Bool-cases (k == i)) [
    | inl same ↦ found_here (subst (λ j. value_at chunk j ≡ some v) ((==_iff k i).0 same) at)
    | inr other ↦ later (points_at-any f chunk is k v (rw other at inside) at holds)
  ]
    where
      found_here : value_at chunk i ≡ some v → any (λ q. f q.1) (points_at chunk (i ∷ is)) ≡ true
      found_here at_i = elim (Option-cases (get_elem? chunk i)) [
        | inl missing ↦ absurd (none-ne-some _ (rw (missing, value_at) at at_i))
        | inr (p, found) ↦
            rw (found, points_at)
              (rw
                (subst (λ w. f w ≡ true) (sym (some-injective _ _ (rw (found, value_at) at at_i)))
                  holds)
                refl)
      ]

      later :
          any (λ q. f q.1) (points_at chunk is) ≡ true
          → any (λ q. f q.1) (points_at chunk (i ∷ is)) ≡ true
      later rest = elim (Option-cases (get_elem? chunk i)) [
        | inl missing ↦ rw (missing, points_at) rest
        | inr (p, found) ↦ rw (found, points_at) (if_both (λ b. b ≡ true) (f p.1) refl rest)
      ]

  -- The value found is the value at the index found.
  pub value_at-first_by :
      (before : ℕ → ℕ → Bool) (chunk : List (F × ℕ)) (best : ℕ × ℕ) (i : ℕ) (ps : List (F × ℕ))
      → value_at chunk best.0 ≡ some best.1
      → ((j : ℕ) → value_at chunk (i + j) ≡ value_at ps j)
      → value_at chunk (first_by before best i ps).0 ≡ some (first_by before best i ps).1
  unfolding first_by
  value_at-first_by before chunk best i [] found same = found
  value_at-first_by before chunk best i (p ∷ ps) found same =
      elim (Bool-cases (before p.1 best.1)) [
        | inl better ↦
            rw (better, first_by)
              (value_at-first_by before chunk (i, p.1) (suc i) ps
                (ap (λ k. value_at chunk k) (plus_zero i) ∙ same 0) later)
        | inr worse ↦
            rw (worse, first_by) (value_at-first_by before chunk best (suc i) ps found later)
      ]
    where
      plus_zero : (n : ℕ) → n ≡ n + 0
      plus_zero n = omega arith

      move : (n j : ℕ) → suc n + j ≡ n + suc j
      move n j = omega arith

      later : (j : ℕ) → value_at chunk (suc i + j) ≡ value_at ps j
      later j = ap (λ k. value_at chunk k) (move i j) ∙ same (suc j)
