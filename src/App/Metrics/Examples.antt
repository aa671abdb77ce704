-- ===== src/App/Metrics/Examples.antt =====
-- metrics.py: a series of eight points, reduced to four.
use Prim.Native.Nat.{ℕ}
use value_stream_simulator.Prelude.{◌≡◌, refl, none, some, List, [], ◌∷◌, arith}
use value_stream_simulator.App.Metrics.{
  reduce_points, reduce_chunks, points_at, indices, lowest, highest,
}
use value_stream_simulator.App.Metrics.Peaks.{IsReduced, reduce_points-IsReduced}

abbrev series : List (ℕ × ℕ)
series = (0, 0) ∷ (1, 2) ∷ (2, 1) ∷ (3, 5) ∷ (4, 4) ∷ (5, 0) ∷ (6, 5) ∷ (7, 3) ∷ []

abbrev reduced : List (ℕ × ℕ)
reduced = (0, 0) ∷ (3, 5) ∷ (7, 3) ∷ []

-- The first of equal peaks is kept.
short_series : reduce_points series 4 ≡ some reduced
unfolding reduce_points reduce_chunks points_at indices highest lowest
short_series = refl

no_chunks : reduce_points series 3 ≡ none
unfolding reduce_points
no_chunks = refl

reduce_points-IsReduced_example : IsReduced series 4 (reduce_points series 4)
reduce_points-IsReduced_example = reduce_points-IsReduced series 4 (omega arith)
