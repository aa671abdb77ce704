-- ===== src/App/Storage/Pruning.antt =====
-- storage.py: `prune_cache`, `prune_history` and `prune_for_capacity`.
use Prim.Native.Nat.{ℕ, ◌+◌, ◌-◌}
use value_stream_simulator.Prelude.{
  Bool, false, not, ◌||◌, ◌&&◌, none, some, List, [], ◌∷◌, length, any, leb, ltb, ◌==◌,
  if◌then◌else◌,
}
use value_stream_simulator.Prelude.Exec.{pure, throw, gets, modify, ◌>>=◌, ◌>>◌}
use value_stream_simulator.Prelude.Dict.{Dict, lookup, put, remove, values}
use value_stream_simulator.App.Schemas.{app_capacity, is_terminal, Workspace}
use value_stream_simulator.App.Settings.{AppSettings}
use value_stream_simulator.App.Storage.{
  RunRecord, Cache, WorkspaceStore, Method, includes, is_just, remove_first, is_active, used,
  save_workspace,
}

-- sorted(.., key=created_at): stable
unfoldable pub insert_by_age : ℕ → ℕ × ℕ → List (ℕ × (ℕ × ℕ)) → List (ℕ × (ℕ × ℕ))
insert_by_age age pair [] = (age, pair) ∷ []
insert_by_age age pair ((age', pair') ∷ rest) =
    let later = insert_by_age age pair rest in
    if leb age age' then (age, pair) ∷ (age', pair') ∷ rest else (age', pair') ∷ later

module _ {F : Type 0} where
  -- key in references | active_keys | protect
  unfoldable pub is_needed : Dict (RunRecord F) → List ℕ → ℕ → Bool
  unfolding includes is_active
  is_needed runs protect key =
      any (λ r. includes key (values r.results)) (values runs)
      || any (λ r. is_active r && includes key r.cache_keys) (values runs)
      || includes key protect

  -- The loop of `prune_cache` over the keys, with the bytes in use: what is left of the cache.
  unfoldable pub prune_entries : (ℕ → Bool) → ℕ → ℕ → ℕ → Cache F → Cache F
  prune_entries needed limit required used [] = []
  prune_entries needed limit required used ((key, v) ∷ entries) =
      let goes = not (needed key) && (required == 0 || ltb limit (used + required)) in
      let rest = prune_entries needed limit required (if goes then used - v.1 else used) entries in
      if goes then rest else (key, v) ∷ rest

  -- Whether a run may be dropped from the history of its workspace.
  unfoldable pub is_prunable : Workspace F → ℕ → RunRecord F → Bool
  unfolding is_just
  is_prunable w run_id r =
      is_terminal r.status.state
      && not r.status.pinned
      && not (is_just run_id w.baseline_id || is_just run_id w.latest_id)

  unfoldable pub can_drop : Workspace F → Dict (RunRecord F) → ℕ → Bool
  unfolding is_prunable
  can_drop w runs run_id = elim (lookup runs run_id) [
    | none ↦ false
    | some r ↦ is_prunable w run_id r
  ]

  -- The loop of `prune_history` over a copy of the list: the runs left in the list and in the store.
  unfoldable pub drop_runs :
      ℕ → Workspace F → List ℕ → List ℕ → Dict (RunRecord F) → List ℕ × Dict (RunRecord F)
  unfolding can_drop remove_first
  drop_runs limit w [] listed runs = (listed, runs)
  drop_runs limit w (run_id ∷ ids) listed runs =
      let goes = can_drop w runs run_id in
      let rest =
        drop_runs limit w ids (if goes then remove_first run_id listed else listed)
          (if goes then remove run_id runs else runs) in
      if ltb (length listed) limit then (listed, runs) else rest

  -- The runs of one workspace that may be dropped, put in their places by age.
  unfoldable pub droppable :
      ℕ → Workspace F → Dict (RunRecord F) → List ℕ → List (ℕ × (ℕ × ℕ)) → List (ℕ × (ℕ × ℕ))
  unfolding is_prunable insert_by_age
  droppable workspace_id w runs [] rest = rest
  droppable workspace_id w runs (run_id ∷ ids) rest =
      let later = droppable workspace_id w runs ids rest in
      elim (lookup runs run_id) [
        | none ↦ later
        | some r ↦
            if is_prunable w run_id r
            then insert_by_age r.created_at (workspace_id, run_id) later
            else later
      ]

  unfoldable pub candidates : Dict (Workspace F) → Dict (RunRecord F) → List (ℕ × (ℕ × ℕ))
  unfolding droppable
  candidates [] runs = []
  candidates ((workspace_id, w) ∷ ws) runs =
      droppable workspace_id w runs w.runs (candidates ws runs)

  -- workspace.runs.remove(status); self.runs.pop(status.id)
  unfoldable pub shortened : ℕ → ℕ → Dict (Workspace F) → Dict (Workspace F)
  unfolding remove_first
  shortened workspace_id run_id workspaces = elim (lookup workspaces workspace_id) [
    | none ↦ workspaces
    | some w ↦ put workspaces workspace_id (record w { runs = remove_first run_id w.runs })
  ]

  unfoldable pub drop_run : ℕ → ℕ → WorkspaceStore F → WorkspaceStore F
  unfolding shortened
  drop_run workspace_id run_id s = record s {
    workspaces = shortened workspace_id run_id s.workspaces;
    runs = remove run_id s.runs;
  }

module _ {F : Type 0} (settings : AppSettings) where
  unfoldable pub pruned : ℕ → List ℕ → WorkspaceStore F → WorkspaceStore F
  unfolding is_needed prune_entries used
  pruned required protect s = record s {
    cache =
        prune_entries (is_needed s.runs protect) settings.max_result_bytes required (used s)
          s.cache;
  }

  unfoldable pub prune_cache : ℕ → List ℕ → Method F Unit
  unfolding pruned
  prune_cache required protect = modify (pruned required protect)

  unfoldable pub prune_history : ℕ → Workspace F → Method F Unit
  unfolding drop_runs save_workspace
  prune_history workspace_id w = do
    left ← gets (λ s. drop_runs settings.max_retained_runs w w.runs w.runs s.runs)
    modify (λ s. record s { runs = left.1 })
    save_workspace workspace_id (record w { runs = left.0 })
    if leb settings.max_retained_runs (length left.0) then throw app_capacity else pure tt

  -- The loop of `prune_for_capacity`.
  unfoldable pub drop_candidates :
      ℕ → List ℕ → List (ℕ × (ℕ × ℕ)) → WorkspaceStore F → WorkspaceStore F
  unfolding used drop_run pruned
  drop_candidates required protect [] s = s
  drop_candidates required protect ((_, (workspace_id, run_id)) ∷ rest) s =
      let later =
        drop_candidates required protect rest
          (pruned required protect (drop_run workspace_id run_id s)) in
      if leb (used s + required) settings.max_result_bytes then s else later

  unfoldable pub prune_for_capacity : ℕ → List ℕ → Method F Unit
  unfolding candidates drop_candidates
  prune_for_capacity required protect =
      modify (λ s. drop_candidates required protect (candidates s.workspaces s.runs) s)
