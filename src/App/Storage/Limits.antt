-- ===== src/App/Storage/Limits.antt =====
-- storage.py: the limits that the store keeps, and the steps of the methods that keep them.
pub mod Pruned
pub mod Room
pub mod Register
pub mod Methods
pub mod Results
pub mod Editor
use Prim.Native.Nat.{ℕ, suc, ◌+◌, ◌-◌, ◌≤◌, ◌<◌}
use value_stream_simulator.Prelude.{
  ◌≡◌, refl, sym, ap, inl, inr, Bool, true, false, Option, none, some, List, [], ◌∷◌, length, All,
  Option-cases, Bool-cases, if_both, if◌then◌else◌, arith,
}
use value_stream_simulator.Prelude.Exec.{
  ok, raise, pure, throw, gets, modify, continue, ◌>>=◌, ◌>>◌,
}
use value_stream_simulator.Prelude.Keeps.{Keeps, bind-Keeps}
use value_stream_simulator.Prelude.Dict.{
  Dict, lookup, has_key, put, remove, values, length-put, length-remove, All-lookup, All-put,
  All-remove,
}
use value_stream_simulator.App.Schemas.{Code, Workspace}
use value_stream_simulator.App.Settings.{AppSettings}
use value_stream_simulator.App.Storage.{
  RunRecord, Cache, WorkspaceStore, Method, save_workspace, save_run, or_raise, get_workspace,
  get_record, find_run, includes, move_to_end, is_active, used,
}
use value_stream_simulator.App.Storage.Pruning.{pruned, is_needed}
use value_stream_simulator.App.Storage.Memory.{
  FitsIn, shrink-FitsIn, put-FitsIn, remove-FitsIn, cache_bytes-prune_entries,
  cache_bytes-move_to_end,
}

module _ {F : Type 0} (settings : AppSettings) where
  -- A workspace has no more task sets and no more runs than the settings allow.
  abbrev pub IsShort : Workspace F → Type 0
  IsShort w =
      (length w.task_sets ≤ settings.max_task_sets) × (length w.runs ≤ settings.max_retained_runs)

  pub record IsWithin (workspaces : Dict (Workspace F)) (runs : Dict (RunRecord F))
      (cache : Cache F) : Type 0 where
    pub few : length workspaces ≤ settings.max_workspaces
    pub short : All IsShort (values workspaces)
    pub fits : FitsIn settings.max_result_bytes settings.max_active_runs runs cache

  abbrev pub StoreIsWithin : WorkspaceStore F → Type 0
  StoreIsWithin s = IsWithin s.workspaces s.runs s.cache

  pub save_workspace-IsWithin :
      (workspace_id : ℕ) (w w' : Workspace F) (s : WorkspaceStore F)
      → lookup s.workspaces workspace_id ≡ some w
      → IsShort w'
      → StoreIsWithin s
      → StoreIsWithin (save_workspace workspace_id w' s).1
  unfolding save_workspace
  save_workspace-IsWithin workspace_id w w' s found short v = record {
    few = ground (arith, length-put s.workspaces workspace_id w', v.few);
    short = All-put IsShort s.workspaces workspace_id w' v.short short;
    fits = v.fits;
  }

  pub save_run-IsWithin :
      (run_id : ℕ) (r r' : RunRecord F) (s : WorkspaceStore F)
      → lookup s.runs run_id ≡ some r
      → r'.reservation ≤ r.reservation
      → (if is_active r' then 1 else 0) ≤ (if is_active r then 1 else 0)
      → StoreIsWithin s
      → StoreIsWithin (save_run run_id r' s).1
  unfolding save_run
  save_run-IsWithin run_id r r' s found less active v = record {
    few = v.few;
    short = v.short;
    fits = put-FitsIn _ _ s.runs s.cache run_id r r' found less active v.fits;
  }

  pub pruned-IsWithin :
      (required : ℕ) (protect : List ℕ) (s : WorkspaceStore F)
      → StoreIsWithin s
      → StoreIsWithin (pruned settings required protect s)
  unfolding pruned
  pruned-IsWithin required protect s v = record {
    few = v.few;
    short = v.short;
    fits =
        shrink-FitsIn _ _ s.runs s.cache _
          (cache_bytes-prune_entries (is_needed s.runs protect) settings.max_result_bytes required
            (used s) s.cache)
          v.fits;
  }

  pub moved-IsWithin :
      (key : ℕ) (s : WorkspaceStore F)
      → StoreIsWithin s
      → StoreIsWithin (record s { cache = move_to_end key s.cache })
  moved-IsWithin key s v = record {
    few = v.few;
    short = v.short;
    fits = shrink-FitsIn _ _ s.runs s.cache _ (cache_bytes-move_to_end key s.cache) v.fits;
  }

-- Methods that begin with a search: what it finds is known to be there.
module _ {κ} {F : Type 0} (P : WorkspaceStore F → Type κ) where
  pub or_raise-Keeps :
      {A B : Type 0} (e : Code) (found : Option A) (k : A → Method F B) (s : WorkspaceStore F)
      → P s
      → ((a : A) → found ≡ some a → P (k a s).1)
      → P ((or_raise e found >>= k) s).1
  unfolding or_raise
  or_raise-Keeps e none k s p h = p
  or_raise-Keeps e (some a) k s p h = h a refl

  pub get_workspace-Keeps :
      {B : Type 0} (workspace_id : ℕ) (k : Workspace F → Method F B) (s : WorkspaceStore F)
      → P s
      → ((w : Workspace F) → lookup s.workspaces workspace_id ≡ some w → P (k w s).1)
      → P ((get_workspace workspace_id >>= k) s).1
  unfolding get_workspace
  get_workspace-Keeps workspace_id k s = or_raise-Keeps _ (lookup s.workspaces workspace_id) k s

  pub get_record-Keeps :
      {B : Type 0} (run_id : ℕ) (k : RunRecord F → Method F B) (s : WorkspaceStore F)
      → P s
      → ((r : RunRecord F) → lookup s.runs run_id ≡ some r → P (k r s).1)
      → P ((get_record run_id >>= k) s).1
  unfolding get_record
  get_record-Keeps run_id k s = or_raise-Keeps _ (lookup s.runs run_id) k s

  pub find_run-Keeps :
      {B : Type 0} (workspace_id run_id : ℕ) (k : RunRecord F → Method F B) (s : WorkspaceStore F)
      → P s
      → ((r : RunRecord F) → lookup s.runs run_id ≡ some r → P (k r s).1)
      → P ((find_run workspace_id run_id >>= k) s).1
  unfolding find_run get_workspace or_raise
  find_run-Keeps workspace_id run_id k s p h =
      elim (Option-cases (lookup s.workspaces workspace_id)) [
        | inl missing ↦ rw missing p
        | inr (w, found) ↦ rw found (elim (Bool-cases (includes run_id w.runs)) [
          | inl listed ↦ rw listed (get_record-Keeps run_id k s p h)
          | inr other ↦ rw other p
        ])
      ]
