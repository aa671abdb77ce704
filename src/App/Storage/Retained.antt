-- ===== src/App/Storage/Retained.antt =====
-- storage.py: what `retain_result` stores, `result` finds.
use Prim.Native.Nat.{ℕ, ◌+◌, ◌-◌}
use mathlib.Core.Path.{subst}
use mathlib.Core.Option.{none-ne-some}
use value_stream_simulator.Prelude.{
  ◌≡◌, refl, sym, ==_refl, inl, inr, true, false, Option, none, some, [], ◌∷◌, ◌++◌, get_elem?,
  Option-cases, Bool-cases, ltb, ◌||◌, ◌==◌,
}
use value_stream_simulator.Prelude.Exec.{Result, ok, raise}
use value_stream_simulator.Prelude.Dict.{
  Dict, lookup, has_key, put, remove, lookup-put_self, lookup-remove,
}
use value_stream_simulator.Service.Schemas.{ResultData}
use value_stream_simulator.App.Schemas.{Code, result_too_large, OutcomeSummary}
use value_stream_simulator.App.Settings.{AppSettings}
use value_stream_simulator.App.Storage.{
  RunRecord, Cache, WorkspaceStore, Host, or_raise, save_run, move_to_end, get_record,
}
use value_stream_simulator.App.Storage.Access.{
  result, retain_in_cache, record_result, retain_result,
}

module _ {ℓ} {V : Type ℓ} (d : Dict V) (k : ℕ) where
  has_key_found : {v : V} → lookup d k ≡ some v → has_key d k ≡ true
  has_key_found found = rw (found, has_key) refl

  has_key_missing : lookup d k ≡ none → has_key d k ≡ false
  has_key_missing missing = rw (missing, has_key) refl

lookup-append {ℓ} :
    {V : Type ℓ} (d : Dict V) (k : ℕ) (v : V)
    → lookup d k ≡ none
    → lookup (d ++ (k, v) ∷ []) k ≡ some v
unfolding lookup
lookup-append [] k v h = rw (==_refl k) refl
lookup-append ((j, w) ∷ d) k v h = elim (Bool-cases (j == k)) [
  | inl same ↦ absurd (none-ne-some _ (sym (rw same at h)))
  | inr other ↦ rw other (lookup-append d k v (rw other at h))
]

module _ {F : Type 0} where
  -- The entry that is moved to the end is still found.
  pub lookup-move_to_end :
      (cache : Cache F) (key : ℕ) {v : ResultData F × ℕ}
      → lookup cache key ≡ some v
      → lookup (move_to_end key cache) key ≡ some v
  unfolding move_to_end
  lookup-move_to_end cache key found =
      rw (found, move_to_end)
        (lookup-append (remove key cache) key _
          (rw (lookup-remove cache key key, ==_refl key) refl))

module _ {F : Type 0} (settings : AppSettings) (host : Host F) where
  -- Where the method returns, the result of the scenario is then this one.
  abbrev Readable : ℕ → ℕ → ResultData F → Result {0, 0} Code Unit × WorkspaceStore F → Type 0
  Readable run_id scenario_id value (raise e, s) = Unit
  Readable run_id scenario_id value (ok u, s) =
      (result settings host run_id scenario_id s).0 ≡ ok value

  record_result-Readable :
      (run_id index key size : ℕ) (r : RunRecord F) (o : OutcomeSummary F) (value : ResultData F)
      (n : ℕ) (s : WorkspaceStore F)
      → get_elem? r.status.outcomes index ≡ some o
      → lookup s.cache key ≡ some (value, n)
      → Readable run_id o.scenario.id value (record_result settings host run_id index key size r s)
  unfolding record_result result save_run get_record or_raise
  record_result-Readable run_id index key size r o value n s listed cached = rw listed (
      rw (lookup-put_self (put s.runs run_id _) run_id _)
        (rw (lookup-put_self r.results o.scenario.id key, cached) refl))

  -- The cached result under a key, or the one to be stored.
  abbrev cached_or : ResultData F → Option (ResultData F × ℕ) → ResultData F
  cached_or value none = value
  cached_or value (some v) = v.0

  module _ (run_id key size : ℕ) (r : RunRecord F) (value : ResultData F)
      (s : WorkspaceStore F) where
    pub retain_cached :
        {v : ResultData F × ℕ}
        → lookup s.cache key ≡ some v
        → retain_in_cache settings host run_id r key size value s ≡ (ok r, s)
    unfolding retain_in_cache
    retain_cached cached = rw (has_key_found s.cache key cached) refl

    pub retain_over :
        lookup s.cache key ≡ none
        → ltb r.reservation size ≡ true
        → retain_in_cache settings host run_id r key size value s ≡ (raise result_too_large, s)
    unfolding retain_in_cache
    retain_over absent over = rw (has_key_missing s.cache key absent) (rw over refl)

    pub retain_absent :
        lookup s.cache key ≡ none
        → ltb r.reservation size ≡ false
        → retain_in_cache settings host run_id r key size value s ≡ (
          ok (record r { reservation = r.reservation - size }),
          record s { cache = put s.cache key (value, size) },
        )
    unfolding retain_in_cache
    retain_absent absent room = rw (has_key_missing s.cache key absent) (rw room refl)

  retain_result-Readable :
      (run_id index : ℕ) (value : ResultData F) (r : RunRecord F) (key : ℕ) (o : OutcomeSummary F)
      (s : WorkspaceStore F)
      → lookup s.runs run_id ≡ some r
      → get_elem? r.cache_keys index ≡ some key
      → get_elem? r.status.outcomes index ≡ some o
      → Readable run_id o.scenario.id
          (cached_or value (lookup s.cache key))
          (retain_result settings host run_id index value s)
  unfolding retain_result get_record or_raise
  retain_result-Readable run_id index value r key o s found known listed =
      let size = host.result_bytes value in
      rw (found, known)
        (elim (Bool-cases (
          ltb settings.max_model_bytes (host.result_bytes value)
          || ltb settings.max_run_bytes (r.result_bytes + host.result_bytes value))) [
            | inl large ↦ rw large tt
            | inr fits ↦ rw fits (elim (Option-cases (lookup s.cache key)) [
              | inr (v, cached) ↦ rw (retain_cached run_id key size r value s cached) (
                  rw cached (
                    record_result-Readable run_id index key size r o v.0 v.1 _ listed
                      (lookup-move_to_end s.cache key cached)))
              | inl absent ↦ elim (Bool-cases (ltb r.reservation size)) [
                | inl over ↦ rw (retain_over run_id key size r value s absent over) tt
                | inr room ↦ rw (retain_absent run_id key size r value s absent room) (
                    rw absent (
                      record_result-Readable run_id index key size _ o value size _ listed (
                        lookup-move_to_end (put s.cache key (value, size)) key
                          (lookup-put_self s.cache key (value, size)))))
              ]
            ])
          ])

  -- Where a result is retained for a scenario of a run, `result` finds for it the result that the
  -- cache had under the scenario's key before, or, where it had none, the retained one.
  pub retain_result-result :
      (run_id index : ℕ) (value : ResultData F) (r : RunRecord F) (key : ℕ) (o : OutcomeSummary F)
      (s s' : WorkspaceStore F)
      → lookup s.runs run_id ≡ some r
      → get_elem? r.cache_keys index ≡ some key
      → get_elem? r.status.outcomes index ≡ some o
      → retain_result settings host run_id index value s ≡ (ok tt, s')
      → (result settings host run_id o.scenario.id s').0 ≡ ok (cached_or value (lookup s.cache key))
  retain_result-result run_id index value r key o s s' found known listed retained =
      subst (Readable run_id o.scenario.id (cached_or value (lookup s.cache key))) retained
        (retain_result-Readable run_id index value r key o s found known listed)
