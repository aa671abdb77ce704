-- ===== src/App/Storage/Limits/Room.antt =====
-- storage.py: the part of `register` that makes room in the cache and then stores the run.
use Prim.Native.Nat.{ℕ, suc, ◌+◌, ◌≤◌, ◌<◌}
use value_stream_simulator.Prelude.{
  ◌≡◌, refl, inl, inr, Bool, true, false, some, List, [], ◌∷◌, length, length-append, Option-cases,
  Bool-cases, ltb, if◌then◌else◌, arith,
}
use value_stream_simulator.Prelude.Dict.{lookup, has_key, put, sum_of-put-le, All-lookup}
use value_stream_simulator.App.Schemas.{ConcreteScenario, TaskSet, RunRequest, Workspace}
use value_stream_simulator.App.Settings.{AppSettings}
use value_stream_simulator.App.Storage.{
  RunRecord, WorkspaceStore, Host, is_active, used, remove_first, or_raise, save_workspace,
  save_run, get_workspace,
}
use value_stream_simulator.App.Storage.Pruning.{
  pruned, prune_cache, candidates, drop_candidates, prune_for_capacity,
}
use value_stream_simulator.App.Storage.Access.{draw_id, monotonic}
use value_stream_simulator.App.Storage.Admission.{
  indices_without, with_run, input_bytes, keys_of, reservation_of, fill, make_room, new_status,
  new_record, store_run, add_run,
}
use value_stream_simulator.App.Storage.Memory.{FitsIn, cache_bytes, reserved, actives}
use value_stream_simulator.App.Storage.Limits.Pruned.{
  IsReady, pruned-IsReady, drop_candidates-IsReady,
}
use value_stream_simulator.App.Storage.Limits.{IsShort, StoreIsWithin, save_workspace-IsWithin}

length-remove_first : (x : ℕ) (xs : List ℕ) → length (remove_first x xs) ≤ length xs
unfolding remove_first
length-remove_first x [] = omega arith
length-remove_first x (y ∷ ys) = ground (arith, length-remove_first x ys)

module _ {F : Type 0} (settings : AppSettings) (host : Host F) where
  at_most :
      (b : Bool) {n m : ℕ}
      → n ≤ m + (if b then 1 else 0)
      → m < settings.max_active_runs
      → n ≤ settings.max_active_runs
  at_most true h k = omega arith
  at_most false h k = omega arith

  -- The new record takes the reservation and the slot.
  added-FitsIn :
      (workspace_id run_id : ℕ) (r : RunRecord F) (s : WorkspaceStore F)
      → IsReady settings workspace_id s
      → used s + r.reservation ≤ settings.max_result_bytes
      → FitsIn settings.max_result_bytes settings.max_active_runs (put s.runs run_id r) s.cache
  unfolding FitsIn used reserved actives cache_bytes
  added-FitsIn workspace_id run_id r s v fits =
      let bytes = sum_of-put-le (λ (x : RunRecord F). x.reservation) s.runs run_id r in
      let count =
        sum_of-put-le (λ (x : RunRecord F). if is_active x then 1 else 0) s.runs run_id r in
      (omega (arith, bytes, fits), at_most (is_active r) count v.slot)

  -- The workspace lists the new run.
  listed-IsWithin :
      (workspace_id : ℕ) (w w' : Workspace F) (s : WorkspaceStore F)
      → lookup s.workspaces workspace_id ≡ some w
      → length w'.runs ≡ suc (length w.runs)
      → length w'.task_sets ≡ length w.task_sets
      → IsReady settings workspace_id s
      → StoreIsWithin settings (save_workspace workspace_id w' s).1
  listed-IsWithin workspace_id w w' s found more sets v =
      let short = All-lookup (IsShort settings) s.workspaces workspace_id v.within.short found in
      save_workspace-IsWithin settings workspace_id w w' s found
        (omega (arith, short.0, sets), omega (arith, v.room w found, more)) v.within

  store_run-IsWithin :
      (workspace_id : ℕ) (request : RunRequest F) (r : RunRecord F) (s : WorkspaceStore F)
      → IsReady settings workspace_id s
      → used s + r.reservation ≤ settings.max_result_bytes
      → StoreIsWithin settings (store_run settings host workspace_id request r s).1
  unfolding store_run save_run get_workspace save_workspace with_run or_raise
  store_run-IsWithin workspace_id request r s v fits =
      elim (Option-cases (lookup s.workspaces workspace_id)) [
        | inl missing ↦ rw missing (record {
          few = v.within.few;
          short = v.within.short;
          fits = added-FitsIn workspace_id r.status.id r s v fits;
        })
        | inr (w, found) ↦
            let listed =
              listed-IsWithin workspace_id w (with_run request r.status.id w) s found
                (omega (arith, length-append w.runs (r.status.id ∷ []))) refl v in
            rw found (record {
              few = listed.few;
              short = listed.short;
              fits = added-FitsIn workspace_id r.status.id r s v fits;
            })
      ]

  add_run-IsWithin :
      (workspace_id : ℕ) (request : RunRequest F) (scenarios : List (ConcreteScenario F))
      (task_set : TaskSet F) (keys missing : List ℕ) (reservation : ℕ) (s : WorkspaceStore F)
      → IsReady settings workspace_id s
      → used s + reservation ≤ settings.max_result_bytes
      → StoreIsWithin settings
          (add_run settings host workspace_id request scenarios task_set keys missing reservation
            s).1
  unfolding add_run draw_id monotonic new_record used
  add_run-IsWithin workspace_id request scenarios task_set keys missing reservation s v fits =
      let status = new_status (host.uuid4 s.ids_drawn) request scenarios task_set in
      let s' = record s { clock_reads = suc s.clock_reads; ids_drawn = suc s.ids_drawn } in
      elim (Bool-cases
        (ltb settings.max_input_bytes (input_bytes settings host s' + host.status_bytes status))) [
          | inl large ↦ rw large v'.within
          | inr small ↦ rw small (store_run-IsWithin workspace_id request _ s' v' fits)
        ]
    where
      v' :
          IsReady settings workspace_id
            (record s { clock_reads = suc s.clock_reads; ids_drawn = suc s.ids_drawn })
      v' = record { within = v.within; room = v.room; slot = v.slot }

  pub fill-IsWithin :
      (workspace_id : ℕ) (request : RunRequest F) (scenarios : List (ConcreteScenario F))
      (task_set : TaskSet F) (s : WorkspaceStore F)
      → IsReady settings workspace_id s
      → StoreIsWithin settings (fill settings host workspace_id request scenarios task_set s).1
  unfolding fill make_room prune_cache prune_for_capacity
  fill-IsWithin workspace_id request scenarios task_set s v =
      let keys = keys_of settings host task_set scenarios in
      let missing = indices_without (has_key s.cache) 0 keys in
      let reservation = reservation_of settings host missing in
      let s1 = pruned settings reservation keys s in
      let s2 = drop_candidates settings reservation keys (candidates s1.workspaces s1.runs) s1 in
      let v2 =
        drop_candidates-IsReady settings workspace_id reservation keys _ s1
          (pruned-IsReady settings workspace_id reservation keys s v) in
      elim (Bool-cases (ltb settings.max_result_bytes (used s2 + reservation))) [
        | inl full ↦ rw full v2.within
        | inr fits ↦ rw fits (
            add_run-IsWithin workspace_id request scenarios task_set keys missing reservation s2 v2
              (ground (arith, fits)))
      ]
