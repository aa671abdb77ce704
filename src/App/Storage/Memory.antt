-- ===== src/App/Storage/Memory.antt =====
-- storage.py: the bytes of the cache and the bytes reserved for runs, which share one limit, and the
-- runs that are active.
use Prim.Native.Nat.{ℕ, ◌+◌, ◌-◌, ◌≤◌}
use value_stream_simulator.Prelude.{
  ◌≡◌, inl, inr, Bool, not, ◌&&◌, ◌||◌, some, List, [], ◌∷◌, sum_of, count_if, sum_of-append,
  Bool-cases, Option-cases, ltb, ◌==◌, if◌then◌else◌, if_both, arith,
}
use value_stream_simulator.Prelude.Dict.{
  Dict, lookup, put, remove, values, sum_of-put, sum_of-remove, sum_of-remove_found, values-append,
}
use value_stream_simulator.App.Schemas.{Workspace}
use value_stream_simulator.App.Storage.{RunRecord, Cache, WorkspaceStore, is_active, move_to_end}
use value_stream_simulator.App.Storage.Pruning.{prune_entries, drop_runs}

module _ {F : Type 0} where
  unfoldable pub cache_bytes : Cache F → ℕ
  cache_bytes cache = sum_of (λ v. v.1) (values cache)

  unfoldable pub reserved : Dict (RunRecord F) → ℕ
  reserved runs = sum_of (λ r. r.reservation) (values runs)

  unfoldable pub actives : Dict (RunRecord F) → ℕ
  actives runs = count_if is_active (values runs)

  pub cache_bytes-prune_entries :
      (needed : ℕ → Bool) (limit required bytes : ℕ) (cache : Cache F)
      → cache_bytes (prune_entries needed limit required bytes cache) ≤ cache_bytes cache
  unfolding cache_bytes prune_entries values
  cache_bytes-prune_entries needed limit required bytes [] = omega arith
  cache_bytes-prune_entries needed limit required bytes ((key, v) ∷ entries) =
      elim (Bool-cases (not (needed key) && (required == 0 || ltb limit (bytes + required)))) [
        | inl goes ↦
            rw goes
              (omega (arith, cache_bytes-prune_entries needed limit required (bytes - v.1) entries))
        | inr stays ↦
            rw stays (omega (arith, cache_bytes-prune_entries needed limit required bytes entries))
      ]

  pub cache_bytes-move_to_end :
      (key : ℕ) (cache : Cache F) → cache_bytes (move_to_end key cache) ≤ cache_bytes cache
  unfolding cache_bytes move_to_end values
  cache_bytes-move_to_end key cache = elim (Option-cases (lookup cache key)) [
    | inl missing ↦ rw (missing, move_to_end) (omega arith)
    | inr (v, found) ↦
        rw (found, move_to_end, values-append (remove key cache) ((key, v) ∷ []), sum_of-append)
          (omega (arith, sum_of-remove_found (λ w. w.1) cache key found))
  ]

  -- What removals keep of the runs, `drop_runs` keeps.
  pub drop_runs-keeps {κ} :
      (P : Dict (RunRecord F) → Type κ)
      (kept : (run_id : ℕ) (runs : Dict (RunRecord F)) → P runs → P (remove run_id runs))
      (limit : ℕ) (w : Workspace F) (ids listed : List ℕ) (runs : Dict (RunRecord F))
      → P runs
      → P (drop_runs limit w ids listed runs).1
  unfolding drop_runs
  drop_runs-keeps P kept limit w [] listed runs h = h
  drop_runs-keeps P kept limit w (run_id ∷ ids) listed runs h =
      if_both (λ (left : List ℕ × Dict (RunRecord F)). P left.1) _ h
        (drop_runs-keeps P kept limit w ids _ _ (if_both P _ (kept run_id runs h) h))

-- The limit on bytes and the limit on active runs, with the runs and the cache that they are about.
module _ {F : Type 0} (limit active : ℕ) where
  unfoldable pub FitsIn : Dict (RunRecord F) → Cache F → Type 0
  FitsIn runs cache = (cache_bytes cache + reserved runs ≤ limit) × (actives runs ≤ active)

  abbrev pub Fits : WorkspaceStore F → Type 0
  Fits s = FitsIn s.runs s.cache

  pub remove-FitsIn :
      (cache : Cache F) (run_id : ℕ) (runs : Dict (RunRecord F))
      → FitsIn runs cache
      → FitsIn (remove run_id runs) cache
  unfolding FitsIn reserved actives
  remove-FitsIn cache run_id runs h =
      let bytes = sum_of-remove (λ (r : RunRecord F). r.reservation) runs run_id in
      let count = sum_of-remove (λ (r : RunRecord F). if is_active r then 1 else 0) runs run_id in
      (omega (arith, h.0, bytes), omega (arith, h.1, count))

  pub shrink-FitsIn :
      (runs : Dict (RunRecord F)) (cache cache' : Cache F)
      → cache_bytes cache' ≤ cache_bytes cache
      → FitsIn runs cache
      → FitsIn runs cache'
  unfolding FitsIn
  shrink-FitsIn runs cache cache' less h = (omega (arith, less, h.0), h.1)

  -- A run that is written again with no larger reservation, and is active only if it was.
  pub put-FitsIn :
      (runs : Dict (RunRecord F)) (cache : Cache F) (run_id : ℕ) (r r' : RunRecord F)
      → lookup runs run_id ≡ some r
      → r'.reservation ≤ r.reservation
      → (if is_active r' then 1 else 0) ≤ (if is_active r then 1 else 0)
      → FitsIn runs cache
      → FitsIn (put runs run_id r') cache
  unfolding FitsIn reserved actives
  put-FitsIn runs cache run_id r r' found less active h =
      let bytes = sum_of-put (λ (x : RunRecord F). x.reservation) runs run_id r' found in
      let count =
        sum_of-put (λ (x : RunRecord F). if is_active x then 1 else 0) runs run_id r' found in
      (omega (arith, h.0, bytes, less), omega (arith, h.1, count, active))
