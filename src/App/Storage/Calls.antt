-- ===== src/App/Storage/Calls.antt =====
-- The store of storage.py under any sequence of calls, and of the coordinator's writes to the status
-- of a run, in any order.
use Prim.Native.Nat.{ℕ, ◌≤◌}
use value_stream_simulator.Prelude.{
  ◌≡◌, inl, inr, Bool, false, not, ◌&&◌, none, some, List, [], ◌∷◌, length, All, Option-cases,
  Bool-cases, if◌then◌else◌, arith,
}
use value_stream_simulator.Prelude.Dict.{lookup, put, values}
use value_stream_simulator.Service.Schemas.{ResultData}
use value_stream_simulator.App.Schemas.{
  ConcreteScenario, TaskSet, EditorRequest, RunRequest, is_terminal, RunStatus, ComparisonAction,
}
use value_stream_simulator.App.Settings.{AppSettings}
use value_stream_simulator.App.Storage.{
  RunRecord, WorkspaceStore, Host, Generator, is_active, save_run, new_store, active_records, used,
}
use value_stream_simulator.App.Storage.Access.{
  create, delete_workspace, delete_task_set, cached_result, result, retain_result, finish,
}
use value_stream_simulator.App.Storage.Admission.{register}
use value_stream_simulator.App.Storage.Editing.{save_editor, preview, comparison}
use value_stream_simulator.App.Storage.Memory.{FitsIn, cache_bytes, reserved, actives}
use value_stream_simulator.App.Storage.Limits.{IsShort, StoreIsWithin, save_run-IsWithin}
use value_stream_simulator.App.Storage.Limits.Pruned.{length-select}
use value_stream_simulator.App.Storage.Limits.Register.{register-IsWithin}
use value_stream_simulator.App.Storage.Limits.Methods.{
  create-IsWithin, delete_workspace-IsWithin, delete_task_set-IsWithin, cached_result-IsWithin,
}
use value_stream_simulator.App.Storage.Limits.Results.{
  result-IsWithin, retain_result-IsWithin, finish-IsWithin,
}
use value_stream_simulator.App.Storage.Limits.Editor.{
  preview-IsWithin, comparison-IsWithin, save_editor-IsWithin,
}

-- The methods of `WorkspaceStore` that may change it, with their arguments, and the writes of
-- coordinator.py to a run's status.
pub data Call (F : Type 0) : Type 0 where
  create_call : Call F
  delete_workspace_call : ℕ → Call F
  delete_task_set_call : ℕ → ℕ → ℕ → Call F
  save_editor_call : ℕ → EditorRequest F → Call F
  preview_call : ℕ → Call F
  register_call : ℕ → RunRequest F → List (ConcreteScenario F) → TaskSet F → Call F
  cached_result_call : ℕ → Call F
  retain_result_call : ℕ → ℕ → ResultData F → Call F
  result_call : ℕ → ℕ → Call F
  finish_call : ℕ → ℕ → Call F
  comparison_call : ℕ → ℕ → ComparisonAction → Call F
  status_write : ℕ → RunStatus F → Call F

module _ {F : Type 0} where
  -- A run that has ended is not made active again.
  unfoldable pub revives : RunRecord F → RunStatus F → Bool
  revives r status = is_terminal r.status.state && not (is_terminal status.state)

  unfoldable pub write_status : ℕ → RunStatus F → WorkspaceStore F → WorkspaceStore F
  unfolding revives
  write_status run_id status s = elim (lookup s.runs run_id) [
    | none ↦ s
    | some r ↦
        if revives r status
        then s
        else record s { runs = put s.runs run_id (record r { status = status }) }
  ]

module _ {F : Type 0} (settings : AppSettings) where
  -- What the limits of the settings promise.
  pub record RespectsLimits (s : WorkspaceStore F) : Type 0 where
    pub workspaces : length s.workspaces ≤ settings.max_workspaces
    pub task_sets_and_runs : All (IsShort settings) (values s.workspaces)
    pub bytes : used s ≤ settings.max_result_bytes
    pub active : length (active_records s) ≤ settings.max_active_runs

module _ {F : Type 0} (settings : AppSettings) (host : Host F) (generator : Generator F) where
  -- The store after a call, which may have raised.
  unfoldable pub perform : Call F → WorkspaceStore F → WorkspaceStore F
  perform create_call s = (create settings host s).1
  perform (delete_workspace_call w) s = (delete_workspace settings host w s).1
  perform (delete_task_set_call w t n) s = (delete_task_set settings host w t n s).1
  perform (save_editor_call w request) s = (save_editor settings host generator w request s).1
  perform (preview_call w) s = (preview settings host generator w s).1
  perform (register_call w request scenarios task_set) s =
      (register settings host w request scenarios task_set s).1
  perform (cached_result_call key) s = (cached_result settings host key s).1
  perform (retain_result_call r index value) s = (retain_result settings host r index value s).1
  perform (result_call r scenario) s = (result settings host r scenario s).1
  perform (finish_call w r) s = (finish settings host w r s).1
  perform (comparison_call w r action) s = (comparison settings host generator w r action s).1
  perform (status_write r status) s = write_status r status s

  unfoldable pub perform_all : List (Call F) → WorkspaceStore F → WorkspaceStore F
  perform_all [] s = s
  perform_all (c ∷ cs) s = perform_all cs (perform c s)

  still_ended :
      (r : RunRecord F) (status : RunStatus F)
      → revives r status ≡ false
      → (if is_active (record r { status = status }) then 1 else 0) ≤ (if is_active r then 1 else 0)
  unfolding revives is_active
  still_ended r status fine = ground (arith, fine)

  write_status-IsWithin :
      (run_id : ℕ) (status : RunStatus F) (s : WorkspaceStore F)
      → StoreIsWithin settings s
      → StoreIsWithin settings (write_status run_id status s)
  unfolding write_status save_run
  write_status-IsWithin run_id status s v = elim (Option-cases (lookup s.runs run_id)) [
    | inl missing ↦ rw (missing, write_status) v
    | inr (r, found) ↦ elim (Bool-cases (revives r status)) [
      | inl revived ↦ rw (found, revived, write_status) v
      | inr fine ↦
          rw (found, fine, write_status)
            (save_run-IsWithin settings run_id r (record r { status = status }) s found
              (omega arith) (still_ended r status fine) v)
    ]
  ]

  new_store-IsWithin : StoreIsWithin {F = F} settings new_store
  unfolding new_store FitsIn reserved actives cache_bytes values
  new_store-IsWithin = record { few = omega arith; short = tt; fits = (omega arith, omega arith) }

  perform-IsWithin :
      (c : Call F) (s : WorkspaceStore F)
      → StoreIsWithin settings s
      → StoreIsWithin settings (perform c s)
  unfolding perform
  perform-IsWithin create_call s = create-IsWithin settings host s
  perform-IsWithin (delete_workspace_call w) s = delete_workspace-IsWithin settings host w s
  perform-IsWithin (delete_task_set_call w t n) s = delete_task_set-IsWithin settings host w t n s
  perform-IsWithin (save_editor_call w request) s =
      save_editor-IsWithin settings host generator w request s
  perform-IsWithin (preview_call w) s = preview-IsWithin settings host generator w s
  perform-IsWithin (register_call w request scenarios task_set) s =
      register-IsWithin settings host w request scenarios task_set s
  perform-IsWithin (cached_result_call key) s = cached_result-IsWithin settings host key s
  perform-IsWithin (retain_result_call r index value) s =
      retain_result-IsWithin settings host r index value s
  perform-IsWithin (result_call r scenario) s = result-IsWithin settings host r scenario s
  perform-IsWithin (finish_call w r) s = finish-IsWithin settings host w r s
  perform-IsWithin (comparison_call w r action) s =
      comparison-IsWithin settings host generator w r action s
  perform-IsWithin (status_write r status) s = write_status-IsWithin r status s

  perform_all-IsWithin :
      (cs : List (Call F)) (s : WorkspaceStore F)
      → StoreIsWithin settings s
      → StoreIsWithin settings (perform_all cs s)
  unfolding perform_all
  perform_all-IsWithin [] s v = v
  perform_all-IsWithin (c ∷ cs) s v = perform_all-IsWithin cs (perform c s) (perform-IsWithin c s v)

  -- From a new store, after any sequence of calls, failed ones included, and of writes of a status
  -- that do not make an ended run active: the workspaces, the task sets and the runs of each, and
  -- the active runs are no more than the settings allow, and the cached results with the bytes
  -- reserved for running ones fit into the memory for results.
  pub calls-RespectsLimits :
      (cs : List (Call F)) → RespectsLimits settings (perform_all cs new_store)
  unfolding FitsIn used reserved actives cache_bytes active_records
  calls-RespectsLimits cs =
      let v = perform_all-IsWithin cs new_store new_store-IsWithin in
      record {
        workspaces = v.few;
        task_sets_and_runs = v.short;
        bytes = v.fits.0;
        active =
            omega
              (arith, v.fits.1, length-select is_active (values (perform_all cs new_store).runs));
      }
