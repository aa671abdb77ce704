-- ===== src/App/Metrics/Peaks.antt =====
-- metrics.py: a reduced series keeps the peaks of the series and stays within its limit.
use Prim.Native.Nat.{ℕ, zero, suc, ◌+◌, ◌-◌, ◌/◌, ◌≤◌, max}
use value_stream_simulator.Prelude.{
  ◌≡◌, refl, ap, inl, inr, Bool, true, false, Option, none, some, List, [], ◌∷◌, ◌++◌, All,
  All-weaken, any, length, take, drop, Bool-cases, ltb, leb, ◌==◌, if◌then◌else◌, arith,
}
use value_stream_simulator.App.Storage.{includes}
use value_stream_simulator.App.Metrics.{
  insert_index, lowest, highest, indices, points_at, reduce_chunks, reduce_points,
}
use value_stream_simulator.App.Metrics.Extremes.{
  includes-insert_index, includes-insert_other, first_by-Best, one_plus, value_at, points_at-any,
  value_at-first_by,
}
use value_stream_simulator.App.Metrics.Bounds.{width_is_enough, length-drop, length-reduce_chunks}

module _ {F : Type 0} where
  -- Some point kept is as high as the point, and some is as low.
  abbrev pub IsWithin : List (F × ℕ) → F × ℕ → Type 0
  IsWithin rs p = (any (λ q. leb p.1 q.1) rs ≡ true) × (any (λ q. leb q.1 p.1) rs ≡ true)

  any-left : (f : F × ℕ → Bool) (xs ys : List (F × ℕ)) → any f xs ≡ true → any f (xs ++ ys) ≡ true
  any-left f [] ys h = cc
  any-left f (x ∷ xs) ys h = elim (Bool-cases (f x)) [
    | inl here ↦ rw here refl
    | inr other ↦ rw other (any-left f xs ys (rw other at h))
  ]

  any-right : (f : F × ℕ → Bool) (xs ys : List (F × ℕ)) → any f ys ≡ true → any f (xs ++ ys) ≡ true
  any-right f [] ys h = h
  any-right f (x ∷ xs) ys h = elim (Bool-cases (f x)) [
    | inl here ↦ rw here refl
    | inr other ↦ rw other (any-right f xs ys h)
  ]

  All-take-drop :
      (P : F × ℕ → Type 0) (n : ℕ) (xs : List (F × ℕ))
      → All P (take n xs)
      → All P (drop n xs)
      → All P xs
  All-take-drop P zero xs h k = k
  All-take-drop P (suc n) [] h k = tt
  All-take-drop P (suc n) (x ∷ xs) h k = (h.0, All-take-drop P n xs h.1 k)

  highest-Keeps :
      (p : F × ℕ) (ps : List (F × ℕ)) (is : List ℕ)
      → includes (highest (p ∷ ps)) is ≡ true
      → All (λ x. any (λ q. leb x.1 q.1) (points_at (p ∷ ps) is) ≡ true) (p ∷ ps)
  unfolding highest
  highest-Keeps p ps is inside =
      let found =
        value_at-first_by (λ a b. ltb b a) (p ∷ ps) (0, p.1) 1 ps refl
          (λ j. ap (λ k. value_at (p ∷ ps) k) (one_plus j)) in
      let best =
        first_by-Best (λ a b. ltb b a) (λ x y z h k. ground (arith, h, k))
          (λ x y h. ground (arith, h)) (0, p.1) 1 ps in
      All-weaken _ _ (p ∷ ps)
        (λ x below.
          points_at-any (λ v. leb x.1 v) (p ∷ ps) is _ _ inside found (ground (arith, below)))
        best

  lowest-Keeps :
      (p : F × ℕ) (ps : List (F × ℕ)) (is : List ℕ)
      → includes (lowest (p ∷ ps)) is ≡ true
      → All (λ x. any (λ q. leb q.1 x.1) (points_at (p ∷ ps) is) ≡ true) (p ∷ ps)
  unfolding lowest
  lowest-Keeps p ps is inside =
      let found =
        value_at-first_by (λ a b. ltb a b) (p ∷ ps) (0, p.1) 1 ps refl
          (λ j. ap (λ k. value_at (p ∷ ps) k) (one_plus j)) in
      let best =
        first_by-Best (λ a b. ltb a b) (λ x y z h k. ground (arith, h, k))
          (λ x y h. ground (arith, h)) (0, p.1) 1 ps in
      All-weaken _ _ (p ∷ ps)
        (λ x above.
          points_at-any (λ v. leb v x.1) (p ∷ ps) is _ _ inside found (ground (arith, above)))
        best

  -- What is kept of a chunk.
  chunk-AreWithin :
      (p : F × ℕ) (ps : List (F × ℕ))
      → All (IsWithin (points_at (p ∷ ps) (indices (p ∷ ps)))) (p ∷ ps)
  unfolding indices
  chunk-AreWithin p ps =
      let c = p ∷ ps in
      let highs = insert_index (highest c) [] in
      let lows = insert_index (lowest c) highs in
      let ends = insert_index (length c - 1) lows in
      both _ _ c
        (highest-Keeps p ps (insert_index 0 ends) (
          includes-insert_other 0 (highest c) ends (
            includes-insert_other (length c - 1) (highest c) lows (
              includes-insert_other (lowest c) (highest c) highs
                (includes-insert_index (highest c) [])))))
        (lowest-Keeps p ps (insert_index 0 ends) (
          includes-insert_other 0 (lowest c) ends (
            includes-insert_other (length c - 1) (lowest c) lows
              (includes-insert_index (lowest c) highs))))
    where
      both :
          (P Q : F × ℕ → Type 0) (xs : List (F × ℕ)) → All P xs → All Q xs → All (λ x. P x × Q x) xs
      both P Q [] h k = tt
      both P Q (x ∷ xs) h k = ((h.0, k.0), both P Q xs h.1 k.1)

  kept-AreWithin : (c : List (F × ℕ)) → All (IsWithin (points_at c (indices c))) c
  kept-AreWithin [] = tt
  kept-AreWithin (p ∷ ps) = chunk-AreWithin p ps

  reduce_chunks-AreWithin :
      (fuel width : ℕ) (ps : List (F × ℕ))
      → 1 ≤ width
      → length ps ≤ fuel
      → All (IsWithin (reduce_chunks fuel width ps)) ps
  unfolding reduce_chunks
  reduce_chunks-AreWithin zero width [] wide enough = tt
  reduce_chunks-AreWithin zero width (p ∷ ps) wide enough = absurd (omega (arith, enough))
  reduce_chunks-AreWithin (suc fuel) width [] wide enough = tt
  reduce_chunks-AreWithin (suc fuel) width (p ∷ ps) wide enough =
      let c = take width (p ∷ ps) in
      let later = drop width (p ∷ ps) in
      let kept = points_at c (indices c) in
      let rest = reduce_chunks fuel width later in
      All-take-drop _ width (p ∷ ps)
        (All-weaken _ _ c
          (λ x h.
            (any-left (λ q. leb x.1 q.1) kept rest h.0, any-left (λ q. leb q.1 x.1) kept rest h.1))
          (kept-AreWithin c))
        (All-weaken _ _ later
          (λ x h. (
            any-right (λ q. leb x.1 q.1) kept rest h.0,
            any-right (λ q. leb q.1 x.1) kept rest h.1,
          ))
          (reduce_chunks-AreWithin fuel width later wide
            (omega (arith, enough, wide, length-drop width (p ∷ ps)))))

  -- The series is reduced, to so many points, and none of its peaks is lost.
  abbrev pub IsReduced : List (F × ℕ) → ℕ → Option (List (F × ℕ)) → Type 0
  IsReduced points limit none = ⊥
  IsReduced points limit (some rs) = (length rs ≤ limit) × All (IsWithin rs) points

  itself-AreWithin : (ps : List (F × ℕ)) → All (IsWithin ps) ps
  itself-AreWithin [] = tt
  itself-AreWithin (p ∷ ps) = (
    (at_head (leb p.1 p.1) _ (ground arith), at_head (leb p.1 p.1) _ (ground arith)),
    All-weaken _ _ ps
        (λ x h. (
          any-right (λ q. leb x.1 q.1) (p ∷ []) ps h.0,
          any-right (λ q. leb q.1 x.1) (p ∷ []) ps h.1,
        ))
        (itself-AreWithin ps),
  )
    where
      at_head : (b c : Bool) → b ≡ true → (if b then true else c) ≡ true
      at_head b c h = rw h refl

  -- Where the limit is four or more, a series is reduced without an error to no more points than
  -- the limit, and for each point of the series some point that is kept is as high, and some is
  -- as low.
  pub reduce_points-IsReduced :
      (points : List (F × ℕ)) (limit : ℕ)
      → 4 ≤ limit
      → IsReduced points limit (reduce_points points limit)
  unfolding reduce_points
  reduce_points-IsReduced points limit least = elim (Bool-cases (leb (length points) limit)) [
    | inl short ↦ rw short (ground (arith, short), itself-AreWithin points)
    | inr long ↦ rw long (
        let q = limit / 4 in
        let width = max 1 ((length points + q - 1) / q) in
        rw (not_zero q (omega (arith, least))) (
          let pos = at_least limit least in
          (
            omega (
              arith,
              length-reduce_chunks (length points) width q points
                  (width_is_enough (length points) q pos),
            ),
            reduce_chunks-AreWithin (length points) width points (omega arith) (omega arith),
          )))
  ]
    where
      not_zero : (n : ℕ) → 1 ≤ n → (n == 0) ≡ false
      not_zero n h = ground (arith, h)

      at_least : (n : ℕ) → 4 ≤ n → 1 ≤ n / 4
      at_least n h = omega (arith, h)
