-- ===== src/App/Storage/Limits/Results.antt =====
-- storage.py: `result`, `retain_result` and `finish` keep the limits.
use Prim.Native.Nat.{ℕ, ◌+◌, ◌-◌, ◌≤◌}
use value_stream_simulator.Prelude.{
  ◌≡◌, refl, inl, inr, not, ◌&&◌, ◌||◌, some, get_elem?, any, Bool-cases, if_both, ltb,
  if◌then◌else◌, arith,
}
use value_stream_simulator.Prelude.Exec.{modify, ◌>>=◌, ◌>>◌}
use value_stream_simulator.Prelude.Keeps.{Keeps}
use value_stream_simulator.Prelude.Dict.{
  Dict, lookup, has_key, put, lookup-put_self, sum_of-put, sum_of-put-le, All-lookup,
}
use value_stream_simulator.Service.Schemas.{ResultData}
use value_stream_simulator.App.Schemas.{Workspace, Intent, manual, interactive}
use value_stream_simulator.App.Settings.{AppSettings}
use value_stream_simulator.App.Storage.{
  is_just, RunRecord, Cache, WorkspaceStore, Host, is_active, save_run, move_to_end,
}
use value_stream_simulator.App.Storage.Access.{
  result, retain_in_cache, record_result, retain_result, is_success, is_first, with_first,
  with_latest, with_finished, finish,
}
use value_stream_simulator.App.Storage.Memory.{
  FitsIn, cache_bytes, reserved, actives, cache_bytes-move_to_end,
}
use value_stream_simulator.App.Storage.Limits.{
  IsShort, StoreIsWithin, save_workspace-IsWithin, save_run-IsWithin, moved-IsWithin,
  get_workspace-Keeps, get_record-Keeps, or_raise-Keeps,
}

module _ {F : Type 0} where
  -- The bytes of the result leave the reservation and enter the cache.
  retained-FitsIn :
      (limit active : ℕ) (runs : Dict (RunRecord F)) (cache : Cache F) (run_id key size : ℕ)
      (value : ResultData F) (r r' : RunRecord F)
      → lookup runs run_id ≡ some r
      → size ≤ r.reservation
      → r'.reservation ≡ r.reservation - size
      → (if is_active r' then 1 else 0) ≤ (if is_active r then 1 else 0)
      → FitsIn limit active runs cache
      → FitsIn limit active (put runs run_id r') (move_to_end key (put cache key (value, size)))
  unfolding FitsIn reserved actives cache_bytes
  retained-FitsIn limit active runs cache run_id key size value r r' found room left same h =
      let bytes = sum_of-put (λ (x : RunRecord F). x.reservation) runs run_id r' found in
      let count =
        sum_of-put (λ (x : RunRecord F). if is_active x then 1 else 0) runs run_id r' found in
      let moved = cache_bytes-move_to_end key (put cache key (value, size)) in
      let stored = sum_of-put-le (λ (x : ResultData F × ℕ). x.1) cache key (value, size) in
      (omega (arith, h.0, bytes, moved, stored, room, left), omega (arith, h.1, count, same))

module _ {F : Type 0} (settings : AppSettings) (host : Host F) where
  pub result-IsWithin :
      (run_id scenario_id : ℕ)
      → Keeps (StoreIsWithin settings) (result settings host run_id scenario_id)
  unfolding result
  result-IsWithin run_id scenario_id s v =
      get_record-Keeps (StoreIsWithin settings) run_id _ s v (λ r found.
        or_raise-Keeps (StoreIsWithin settings) _ (lookup r.results scenario_id) _ s v (λ key known.
          or_raise-Keeps (StoreIsWithin settings) _ (lookup s.cache key) _ s v
            (λ entry cached. moved-IsWithin settings key s v)))

  -- The two writes of the record that follow the write of the cache.
  record_result-IsWithin :
      (run_id index key size : ℕ) (r : RunRecord F) (s : WorkspaceStore F)
      → StoreIsWithin settings
          (save_run run_id (record r { result_bytes = r.result_bytes + size }) s).1
      → StoreIsWithin settings (record_result settings host run_id index key size r s).1
  unfolding record_result save_run is_active
  record_result-IsWithin run_id index key size r s v =
      or_raise-Keeps (StoreIsWithin settings) _ (get_elem? r.status.outcomes index) _ _ v
        (λ outcome found.
          let r' = record r { result_bytes = r.result_bytes + size } in
          save_run-IsWithin settings run_id r'
            (record r' { results = put r.results outcome.scenario.id key })
            (record s { runs = put s.runs run_id r' }) (lookup-put_self s.runs run_id r')
            (omega arith) (omega arith) v)

  retained :
      (run_id index key : ℕ) (value : ResultData F) (r : RunRecord F) (s : WorkspaceStore F)
      → StoreIsWithin settings s
      → lookup s.runs run_id ≡ some r
      → StoreIsWithin settings
          ((retain_in_cache settings host run_id r key (host.result_bytes value) value >>= λ r'.
              modify (λ (t : WorkspaceStore F). record t { cache = move_to_end key t.cache })
              >> record_result settings host run_id index key (host.result_bytes value) r')
            s).1
  unfolding retain_in_cache save_run is_active
  retained run_id index key value r s v found =
      let size = host.result_bytes value in
      elim (Bool-cases (has_key s.cache key)) [
        | inl cached ↦ rw cached (
            record_result-IsWithin run_id index key size r
              (record s { cache = move_to_end key s.cache })
              (save_run-IsWithin settings run_id r _ (record s { cache = move_to_end key s.cache })
                found (omega arith) (omega arith) (moved-IsWithin settings key s v)))
        | inr absent ↦ rw absent (elim (Bool-cases (ltb r.reservation size)) [
          | inl over ↦ rw over v
          | inr room ↦
              let r' = record r { reservation = r.reservation - size } in
              let cache' = move_to_end key (put s.cache key (value, size)) in
              rw room (
                record_result-IsWithin run_id index key size r' (record s { cache = cache' })
                  (record {
                    few = v.few;
                    short = v.short;
                    fits =
                        retained-FitsIn _ _ s.runs s.cache run_id key size value r
                          (record r' { result_bytes = r'.result_bytes + size }) found
                          (ground (arith, room)) refl (omega arith) v.fits;
                  }))
        ])
      ]

  pub retain_result-IsWithin :
      (run_id index : ℕ) (value : ResultData F)
      → Keeps (StoreIsWithin settings) (retain_result settings host run_id index value)
  unfolding retain_result retain_in_cache
  retain_result-IsWithin run_id index value s v =
      get_record-Keeps (StoreIsWithin settings) run_id _ s v (λ r found.
        or_raise-Keeps (StoreIsWithin settings) _ (get_elem? r.cache_keys index) _ s v (λ key known.
          elim (Bool-cases (
            ltb settings.max_model_bytes (host.result_bytes value)
            || ltb settings.max_run_bytes (r.result_bytes + host.result_bytes value))) [
              | inl large ↦ rw large v
              | inr fits ↦ rw fits (retained run_id index key value r s v found)
            ]))

  with_latest-IsShort :
      (intent : Intent) (r : RunRecord F) (w : Workspace F)
      → IsShort settings w
      → IsShort settings (with_latest intent r w)
  unfolding with_latest
  with_latest-IsShort interactive r w h = h
  with_latest-IsShort manual r w h =
      if_both (IsShort settings) (is_just r.status.id w.baseline_id) {x = w}
        {y = record w { latest_id = some r.status.id }} h h

  with_finished-IsShort :
      (r : RunRecord F) (w : Workspace F)
      → IsShort settings w
      → IsShort settings (with_finished r w)
  unfolding with_finished with_first
  with_finished-IsShort r w h = with_latest-IsShort r.request.intent r _ (
      if_both (IsShort settings) (is_first r w) {x = record w { baseline_id = some r.status.id }}
        {y = w} h h)

  pub finish-IsWithin :
      (workspace_id run_id : ℕ)
      → Keeps (StoreIsWithin settings) (finish settings host workspace_id run_id)
  unfolding finish save_run is_active
  finish-IsWithin workspace_id run_id s v =
      get_record-Keeps (StoreIsWithin settings) run_id _ s v (λ r found.
        let s' = record s { runs = put s.runs run_id (record r { reservation = 0 }) } in
        let v' =
          save_run-IsWithin settings run_id r (record r { reservation = 0 }) s found (omega arith)
            (omega arith) v in
        get_workspace-Keeps (StoreIsWithin settings) workspace_id _ s' v' (λ w listed.
          elim (Bool-cases (any is_success r.status.outcomes && not r.status.superseded)) [
            | inr skipped ↦ rw skipped v'
            | inl counts ↦ rw counts (
                save_workspace-IsWithin settings workspace_id w (with_finished r w) s' listed
                  (with_finished-IsShort r w
                    (All-lookup (IsShort settings) s.workspaces workspace_id v.short listed))
                  v')
          ]))
