-- ===== src/App/Storage/Access.antt =====
-- storage.py: `create`, `delete_workspace`, `delete_task_set`, `cached_result`, `result`,
-- `retain_result` and `finish`.
use Prim.Native.Nat.{ℕ, suc, ◌+◌, ◌-◌}
use value_stream_simulator.Prelude.{
  Bool, false, not, ◌||◌, ◌&&◌, none, some, List, [], ◌∷◌, length, get_elem?, any, select, leb, ltb,
  ◌==◌, if◌then◌else◌,
}
use value_stream_simulator.Prelude.Exec.{ok, pure, throw, gets, modify, ◌>>=◌, ◌>>◌}
use value_stream_simulator.Prelude.Dict.{Dict, lookup, has_key, put, remove}
use value_stream_simulator.Service.Schemas.{ResultData, Status}
use value_stream_simulator.Service.JobStore.{same_status}
use value_stream_simulator.App.Schemas.{
  app_capacity, run_active, revision_conflict, result_not_found, result_too_large, key_error,
  constant, uniform, TaskSetSpec, linear, ModelSettings, SweepValue, number, explicit,
  ScenarioDefinition, Intent, manual, interactive, Workspace, OutcomeSummary,
}
use value_stream_simulator.App.Settings.{AppSettings}
use value_stream_simulator.App.Storage.{
  RunRecord, WorkspaceStore, Host, Method, is_just, or_raise, save_workspace, save_run, move_to_end,
  get_workspace, get_record, has_active_run,
}
use value_stream_simulator.App.Storage.Pruning.{prune_cache}

-- for r in w.runs: self.runs.pop(r.id, None)
unfoldable pub remove_all {ℓ} : {V : Type ℓ} → List ℕ → Dict V → Dict V
remove_all [] d = d
remove_all (k ∷ ks) d = remove_all ks (remove k d)

module _ {F : Type 0} where
  unfoldable pub is_success : OutcomeSummary F → Bool
  is_success o = same_status Status.succeeded o.status

  -- w.baseline_id is None and w.current_task_set == record.task_set.id
  unfoldable pub is_first : RunRecord F → Workspace F → Bool
  unfolding is_just
  is_first r w = elim w.baseline_id [
    | none ↦ is_just r.task_set.id w.current_task_set
    | some _ ↦ false
  ]

  unfoldable pub with_first : RunRecord F → Workspace F → Workspace F
  unfolding is_first
  with_first r w = if is_first r w then record w { baseline_id = some r.status.id } else w

  unfoldable pub with_latest : Intent → RunRecord F → Workspace F → Workspace F
  unfolding is_just
  with_latest interactive r w = w
  with_latest manual r w =
      if is_just r.status.id w.baseline_id then w else record w { latest_id = some r.status.id }

  -- The baseline and the latest run of the workspace after a run with a success.
  unfoldable pub with_finished : RunRecord F → Workspace F → Workspace F
  unfolding with_first with_latest
  with_finished r w = with_latest r.request.intent r (with_first r w)

module _ {F : Type 0} (host : Host F) where
  unfoldable pub draw_id : Method F ℕ
  draw_id s =
      let drawn = host.uuid4 s.ids_drawn in (ok drawn, record s { ids_drawn = suc s.ids_drawn })

  unfoldable pub monotonic : Method F ℕ
  monotonic s =
      let now = host.monotonic s.clock_reads in
      (ok now, record s { clock_reads = suc s.clock_reads })

  unfoldable pub default_spec : TaskSetSpec F
  default_spec = record {
    name = "Task set";
    count = 500;
    story_points = uniform (host.decimal 5 1) (host.decimal 2 0);
    initial_value = constant (host.decimal 1 0);
    depreciation_rate = host.decimal 2 2;
    seed = 42;
  }

  unfoldable pub default_settings : ModelSettings F
  default_settings = record {
    team_size = 4;
    efficiency_min = host.decimal 5 1;
    efficiency_max = host.decimal 15 1;
    distribution = linear;
    deployment_cadence = 5;
    qa_size = 5;
    qa_time_cost = host.decimal 1 1;
    qa_failure_rate = host.decimal 15 2;
    qa_failure_cost = host.decimal 25 2;
    toolchain_size = 20;
    deployment_duration = host.decimal 25 2;
    deployment_failure_rate = host.decimal 1 1;
    support_interval = some (host.decimal 5 0);
    support_task_story_points = host.decimal 2 0;
  }

  unfoldable pub whole : ℕ → SweepValue F
  whole n = number (host.decimal n 0)

  unfoldable pub default_definition : ℕ → ScenarioDefinition F
  unfolding default_settings whole
  default_definition id = record {
    id = id;
    name = "Delivery model";
    revision = 1;
    settings = default_settings;
    sweeps =
        ("team_size", explicit (whole 1 ∷ whole 13 ∷ whole 25 ∷ []))
        ∷ ("deployment_cadence", explicit (whole 0 ∷ whole 5 ∷ whole 10 ∷ []))
        ∷ [];
    team_seed = 123;
    execution_seed = 456;
  }

  unfoldable pub new_workspace : ℕ → ℕ → Workspace F
  unfolding default_spec default_definition
  new_workspace id definition_id = record {
    id = id;
    revision = 0;
    task_spec = default_spec;
    definitions = default_definition definition_id ∷ [];
    task_sets = [];
    current_task_set = none;
    baseline_id = none;
    latest_id = none;
    runs = [];
  }

module _ {F : Type 0} (settings : AppSettings) (host : Host F) where
  unfoldable pub create : Method F (Workspace F)
  unfolding draw_id save_workspace
  create = do
    full ← gets (λ s. leb settings.max_workspaces (length s.workspaces))
    if full then throw app_capacity else do
      id ← draw_id host
      definition_id ← draw_id host
      save_workspace id (new_workspace host id definition_id)
      pure (new_workspace host id definition_id)

  unfoldable pub delete_workspace : ℕ → Method F Unit
  unfolding get_workspace has_active_run remove_all prune_cache
  delete_workspace workspace_id = do
    w ← get_workspace workspace_id
    active ← gets (λ s. has_active_run s w)
    if active then throw run_active else do
      modify (λ s. record s {
        runs = remove_all w.runs s.runs;
        workspaces = remove workspace_id s.workspaces;
      })
      prune_cache settings 0 []

  -- any(r.task_set_id == task_set_id for r in w.runs)
  unfoldable pub is_used : WorkspaceStore F → Workspace F → ℕ → Bool
  is_used s w task_set_id =
      any
        (λ run_id. elim (lookup s.runs run_id) [
          | none ↦ false
          | some r ↦ r.status.task_set_id == task_set_id
        ])
        w.runs

  unfoldable pub delete_task_set : ℕ → ℕ → ℕ → Method F Unit
  unfolding get_workspace is_used is_just save_workspace
  delete_task_set workspace_id task_set_id expected_revision = do
    w ← get_workspace workspace_id
    if not (w.revision == expected_revision) then throw revision_conflict else do
      in_use ← gets (λ s. is_just task_set_id w.current_task_set || is_used s w task_set_id)
      if in_use
          then throw revision_conflict
          else if not (any (λ t. t.id == task_set_id) w.task_sets)
          then throw result_not_found
          else save_workspace workspace_id (record w {
            task_sets = select (λ t. not (t.id == task_set_id)) w.task_sets;
            revision = suc w.revision;
          })

  -- The cached result, moved to the end as the one used last.
  unfoldable pub cached_result : ℕ → Method F (ResultData F)
  unfolding or_raise move_to_end
  cached_result key = do
    found ← gets (λ s. lookup s.cache key)
    entry ← or_raise key_error found
    modify (λ s. record s { cache = move_to_end key s.cache })
    pure entry.0

  unfoldable pub result : ℕ → ℕ → Method F (ResultData F)
  unfolding get_record or_raise move_to_end
  result run_id scenario_id = do
    r ← get_record run_id
    key ← or_raise result_not_found (lookup r.results scenario_id)
    found ← gets (λ s. lookup s.cache key)
    entry ← or_raise result_not_found found
    modify (λ s. record s { cache = move_to_end key s.cache })
    pure entry.0

  -- The result takes its bytes from the reservation, unless the cache has it.
  unfoldable pub retain_in_cache : ℕ → RunRecord F → ℕ → ℕ → ResultData F → Method F (RunRecord F)
  retain_in_cache run_id r key size value = do
    cached ← gets (λ s. has_key s.cache key)
    if cached then pure r else if ltb r.reservation size then throw result_too_large else do
      modify (λ s. record s { cache = put s.cache key (value, size) })
      pure (record r { reservation = r.reservation - size })

  unfoldable pub record_result : ℕ → ℕ → ℕ → ℕ → RunRecord F → Method F Unit
  unfolding save_run or_raise
  record_result run_id index key size r = do
    save_run run_id (record r { result_bytes = r.result_bytes + size })
    outcome ← or_raise key_error (get_elem? r.status.outcomes index)
    save_run run_id (record r {
      result_bytes = r.result_bytes + size;
      results = put r.results outcome.scenario.id key;
    })

  unfoldable pub retain_result : ℕ → ℕ → ResultData F → Method F Unit
  unfolding get_record or_raise retain_in_cache record_result move_to_end
  retain_result run_id index value = do
    r ← get_record run_id
    key ← or_raise key_error (get_elem? r.cache_keys index)
    let size = host.result_bytes value
    let large =
        ltb settings.max_model_bytes size || ltb settings.max_run_bytes (r.result_bytes + size)
    if large then throw result_too_large else do
      r' ← retain_in_cache run_id r key size value
      modify (λ s. record s { cache = move_to_end key s.cache })
      record_result run_id index key size r'

  unfoldable pub finish : ℕ → ℕ → Method F Unit
  unfolding get_record save_run get_workspace is_success with_finished save_workspace
  finish workspace_id run_id = do
    r ← get_record run_id
    save_run run_id (record r { reservation = 0 })
    w ← get_workspace workspace_id
    let counts = any is_success r.status.outcomes && not r.status.superseded
    if counts then save_workspace workspace_id (with_finished r w) else pure tt
