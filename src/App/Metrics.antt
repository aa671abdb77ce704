-- ===== src/App/Metrics.antt =====
-- app/metrics.py: `loss_percent` is with the coordinator that calls it; here is `reduce_points`.
pub mod Bounds
pub mod Extremes
pub mod Peaks
mod Examples
use Prim.Native.Nat.{ℕ, zero, suc, ◌+◌, ◌-◌, ◌/◌, max}
use value_stream_simulator.Prelude.{
  Bool, Option, none, some, List, [], ◌∷◌, ◌++◌, length, get_elem?, take, drop, ltb, leb, ◌==◌,
  if◌then◌else◌,
}

-- A set of indices in order, with one added: sorted({i, *js})
unfoldable pub insert_index : ℕ → List ℕ → List ℕ
insert_index i [] = i ∷ []
insert_index i (j ∷ js) =
    let later = insert_index i js in
    if i == j then j ∷ js else if ltb i j then i ∷ j ∷ js else j ∷ later

-- A point is a time and a value. The values are the sizes of a backlog, which `plot_data` refuses
-- below zero.
module _ {F : Type 0} where
  -- The index, with the value, of the first point that no other one goes before; `best` is that
  -- of the points seen, and the others begin at an index.
  unfoldable pub first_by : (ℕ → ℕ → Bool) → ℕ × ℕ → ℕ → List (F × ℕ) → ℕ × ℕ
  first_by before best i [] = best
  first_by before best i (p ∷ ps) =
      first_by before (if before p.1 best.1 then (i, p.1) else best) (suc i) ps

  -- min(range(len(chunk)), key=lambda i: chunk[i][1]) of a chunk, which is not empty
  unfoldable pub lowest : List (F × ℕ) → ℕ
  unfolding first_by
  lowest [] = 0
  lowest (p ∷ ps) = (first_by (λ a b. ltb a b) (0, p.1) 1 ps).0

  -- max(range(len(chunk)), key=lambda i: chunk[i][1])
  unfoldable pub highest : List (F × ℕ) → ℕ
  unfolding first_by
  highest [] = 0
  highest (p ∷ ps) = (first_by (λ a b. ltb b a) (0, p.1) 1 ps).0

  unfoldable pub indices : List (F × ℕ) → List ℕ
  unfolding insert_index
  indices chunk = insert_index 0 (
      insert_index (length chunk - 1)
        (insert_index (lowest chunk) (insert_index (highest chunk) [])))

  -- chunk[i] for each index, none of which is out of range
  unfoldable pub points_at : List (F × ℕ) → List ℕ → List (F × ℕ)
  points_at chunk [] = []
  points_at chunk (i ∷ is) = elim (get_elem? chunk i) [
    | none ↦ points_at chunk is
    | some p ↦ p ∷ points_at chunk is
  ]

  -- The loop over the chunks; each takes a point at least, so that as many turns as points are
  -- enough.
  unfoldable pub reduce_chunks : ℕ → ℕ → List (F × ℕ) → List (F × ℕ)
  unfolding points_at indices
  reduce_chunks zero width ps = []
  reduce_chunks (suc fuel) width [] = []
  reduce_chunks (suc fuel) width (p ∷ ps) =
      let chunk = take width (p ∷ ps) in
      points_at chunk (indices chunk) ++ reduce_chunks fuel width (drop width (p ∷ ps))

  -- `none` is the division by zero, where the limit is below four.
  unfoldable pub reduce_points : List (F × ℕ) → ℕ → Option (List (F × ℕ))
  unfolding reduce_chunks
  reduce_points points limit =
      if leb (length points) limit
      then some points
      else if limit / 4 == 0
      then none
      else some (
          reduce_chunks (length points) (max 1 ((length points + limit / 4 - 1) / (limit / 4)))
            points)
