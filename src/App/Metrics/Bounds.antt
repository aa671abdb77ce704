-- ===== src/App/Metrics/Bounds.antt =====
-- metrics.py: how long a reduced series is.
use Prim.Native.Nat.{ℕ, zero, suc, ◌+◌, ◌-◌, ◌*◌, ◌/◌, ◌≤◌, max}
use native.Mathlib.Nat.{div-add-mod, mod-lt, mul-le-mul_left}
use value_stream_simulator.Prelude.{
  ◌≡◌, inl, inr, List, [], ◌∷◌, length, length-append, get_elem?, take, drop, Option-cases, arith,
}
use value_stream_simulator.App.Metrics.{
  insert_index, lowest, highest, indices, points_at, reduce_chunks,
}

length-insert_index : (i : ℕ) (js : List ℕ) → length (insert_index i js) ≤ suc (length js)
unfolding insert_index
length-insert_index i [] = omega arith
length-insert_index i (j ∷ js) = ground (arith, length-insert_index i js)

pub length-drop : {A : Type 0} (n : ℕ) (xs : List A) → length (drop n xs) ≡ length xs - n
length-drop zero xs = omega arith
length-drop (suc n) [] = omega arith
length-drop (suc n) (x ∷ xs) = omega (arith, length-drop n xs)

-- The chunks of the width that the code computes are no more than asked for.
pub width_is_enough : (n q : ℕ) → 1 ≤ q → n ≤ q * max 1 ((n + q - 1) / q)
width_is_enough n q pos = omega (
  arith,
  div-add-mod (n + q - 1) q,
  mod-lt (n + q - 1) pos,
  mul-le-mul_left q (le_max ((n + q - 1) / q)),
)
  where
    le_max : (b : ℕ) → b ≤ max 1 b
    le_max b = omega arith

module _ {F : Type 0} where
  length-points_at : (chunk : List (F × ℕ)) (is : List ℕ) → length (points_at chunk is) ≤ length is
  unfolding points_at
  length-points_at chunk [] = omega arith
  length-points_at chunk (i ∷ is) = elim (Option-cases (get_elem? chunk i)) [
    | inl missing ↦ rw (missing, points_at) (omega (arith, length-points_at chunk is))
    | inr (p, found) ↦ rw (found, points_at) (omega (arith, length-points_at chunk is))
  ]

  length-indices : (chunk : List (F × ℕ)) → length (indices chunk) ≤ 4
  unfolding indices
  length-indices chunk =
      let a = insert_index (highest chunk) [] in
      let b = insert_index (lowest chunk) a in
      let c = insert_index (length chunk - 1) b in
      omega (
        arith,
        length-insert_index (highest chunk) [],
        length-insert_index (lowest chunk) a,
        length-insert_index (length chunk - 1) b,
        length-insert_index 0 c,
      )

  -- Four points from each chunk at most, where there are so many chunks.
  pub length-reduce_chunks :
      (fuel width k : ℕ) (ps : List (F × ℕ))
      → length ps ≤ k * width
      → length (reduce_chunks fuel width ps) ≤ 4 * k
  unfolding reduce_chunks
  length-reduce_chunks zero width k ps h = omega arith
  length-reduce_chunks (suc fuel) width k [] h = omega arith
  length-reduce_chunks (suc fuel) width zero (p ∷ ps) h = omega (arith, h)
  length-reduce_chunks (suc fuel) width (suc k) (p ∷ ps) h =
      let chunk = take width (p ∷ ps) in
      let later = drop width (p ∷ ps) in
      omega (
        arith,
        length-append (points_at chunk (indices chunk)) (reduce_chunks fuel width later),
        length-points_at chunk (indices chunk),
        length-indices chunk,
        length-reduce_chunks fuel width k later (omega (arith, h, length-drop width (p ∷ ps))),
      )
