-- ===== src/App/Storage/Admission.antt =====
-- storage.py: `previous` and `register`.
use Prim.Native.Nat.{ℕ, ◌+◌, ◌-◌, ◌*◌}
use value_stream_simulator.Prelude.{
  Bool, true, false, Option, none, some, List, [], ◌∷◌, ◌++◌, map, length, sum_of, leb, ltb, ◌==◌,
  if◌then◌else◌,
}
use value_stream_simulator.Prelude.Exec.{Result, ok, raise, pure, throw, gets, ◌>>=◌, ◌>>◌}
use value_stream_simulator.Prelude.Dict.{Dict, lookup, has_key, values}
use value_stream_simulator.Service.Schemas.{Status}
use value_stream_simulator.App.Schemas.{
  Code, app_capacity, run_active, submission_conflict, key_error, Intent, manual, interactive,
  ConcreteScenario, TaskSet, RunRequest, RunState, OutcomeSummary, RunStatus, Workspace,
}
use value_stream_simulator.App.Settings.{AppSettings}
use value_stream_simulator.App.Storage.{
  RunRecord, WorkspaceStore, Host, Method, active_records, used, save_workspace, save_run,
  get_workspace, get_record, has_active_run,
}
use value_stream_simulator.App.Storage.Pruning.{prune_cache, prune_history, prune_for_capacity}
use value_stream_simulator.App.Storage.Access.{draw_id, monotonic}

-- [i for i, key in enumerate(keys) if not p(key)], counted from an index
unfoldable pub indices_without : (ℕ → Bool) → ℕ → List ℕ → List ℕ
indices_without p i [] = []
indices_without p i (key ∷ keys) =
    let rest = indices_without p (i + 1) keys in if p key then rest else i ∷ rest

unfoldable pub min : ℕ → ℕ → ℕ
min a b = if ltb b a then b else a

-- xs[-1]
unfoldable pub last : List ℕ → Option ℕ
last [] = none
last (x ∷ []) = some x
last (x ∷ y ∷ ys) = last (y ∷ ys)

module _ {F : Type 0} where
  -- `previous`: the run of the workspace that the same request made.
  unfoldable pub find_request :
      ℕ → ℕ → Dict (RunRecord F) → List ℕ → Result Code (Option (RunRecord F))
  find_request request_id digest runs [] = ok none
  find_request request_id digest runs (run_id ∷ ids) =
      let rest = find_request request_id digest runs ids in
      elim (lookup runs run_id) [
        | none ↦ raise key_error
        | some r ↦
            if r.request.request_id == request_id
            then (if r.request_hash == digest then ok (some r) else raise submission_conflict)
            else rest
      ]

  -- The statuses that a workspace lists.
  unfoldable pub statuses : Dict (RunRecord F) → List ℕ → List (RunStatus F)
  statuses runs [] = []
  statuses runs (run_id ∷ ids) = elim (lookup runs run_id) [
    | none ↦ statuses runs ids
    | some r ↦ r.status ∷ statuses runs ids
  ]

  unfoldable pub new_outcome : ConcreteScenario F → OutcomeSummary F
  new_outcome scenario = record {
    scenario = scenario;
    status = Status.queued;
    cursor = 0;
    cached = false;
    loss_percent = none;
    completion_time = none;
    delivered_value = none;
    error = none;
  }

  unfoldable pub new_status : ℕ → RunRequest F → List (ConcreteScenario F) → TaskSet F → RunStatus F
  unfolding new_outcome
  new_status id request scenarios task_set = record {
    id = id;
    name = request.name;
    task_set_id = task_set.id;
    state = RunState.submitting;
    intent = request.intent;
    job_id = none;
    outcomes = map new_outcome scenarios;
    last_cursor = 0;
    error = none;
    pinned = false;
    superseded = false;
    cancel_requested = false;
    retry_paused = false;
  }

  unfoldable pub new_record :
      RunStatus F → RunRequest F → ℕ → TaskSet F → List ℕ → List ℕ → ℕ → ℕ → RunRecord F
  new_record status request digest task_set keys missing reservation now = record {
    status = status;
    task_set = task_set;
    request = request;
    request_hash = digest;
    cache_keys = keys;
    results = [];
    service_indices = missing;
    service_cursor = 0;
    reservation = reservation;
    result_bytes = 0;
    created_at = now;
  }

  unfoldable pub with_run : RunRequest F → ℕ → Workspace F → Workspace F
  with_run request run_id w = record w {
    runs = w.runs ++ run_id ∷ [];
    latest_id = elim request.intent [ interactive ↦ some run_id | manual ↦ w.latest_id ];
  }

module _ {F : Type 0} (settings : AppSettings) (host : Host F) where
  unfoldable pub previous : Workspace F → RunRequest F → Method F (Option (RunRecord F))
  unfolding find_request
  previous w request s =
      (find_request request.request_id (host.request_digest request) s.runs w.runs, s)

  -- Whether an interactive run comes too soon after the last run of the workspace.
  unfoldable pub too_soon : Intent → Option ℕ → Method F Bool
  unfolding monotonic get_record
  too_soon interactive (some run_id) = do
    now ← monotonic host
    r ← get_record run_id
    pure (ltb (now - r.created_at) settings.min_interactive_seconds)
  too_soon _ _ = pure false

  unfoldable pub is_hasty : Workspace F → RunRequest F → Method F Bool
  unfolding last too_soon
  is_hasty w request = too_soon request.intent (last w.runs)

  unfoldable pub input_bytes : WorkspaceStore F → ℕ
  unfolding statuses
  input_bytes s =
      sum_of (λ w. host.workspace_bytes w (statuses s.runs w.runs)) (values s.workspaces)

  unfoldable pub keys_of : TaskSet F → List (ConcreteScenario F) → List ℕ
  keys_of task_set = map (λ s. host.result_digest task_set.content_hash s.model s.execution_seed)

  unfoldable pub reservation_of : List ℕ → ℕ
  unfolding min
  reservation_of missing = min settings.max_run_bytes (settings.max_model_bytes * length missing)

  -- Room for the results, or the error that there is none.
  unfoldable pub make_room : ℕ → List ℕ → Method F Unit
  unfolding prune_cache prune_for_capacity used
  make_room reservation keys = do
    prune_cache settings reservation keys
    prune_for_capacity settings reservation keys
    bytes ← gets used
    if ltb settings.max_result_bytes (bytes + reservation) then throw app_capacity else pure tt

  -- The record is stored, and its workspace lists it.
  unfoldable pub store_run : ℕ → RunRequest F → RunRecord F → Method F (RunRecord F × Bool)
  unfolding save_run get_workspace with_run save_workspace
  store_run workspace_id request r = do
    save_run r.status.id r
    w ← get_workspace workspace_id
    save_workspace workspace_id (with_run request r.status.id w)
    pure (r, true)

  unfoldable pub add_run :
      ℕ
      → RunRequest F
      → List (ConcreteScenario F)
      → TaskSet F
      → List ℕ
      → List ℕ
      → ℕ
      → Method F (RunRecord F × Bool)
  unfolding draw_id new_status new_record monotonic input_bytes store_run
  add_run workspace_id request scenarios task_set keys missing reservation = do
    id ← draw_id host
    now ← monotonic host
    let status = new_status id request scenarios task_set
    let r =
        new_record status request (host.request_digest request) task_set keys missing reservation
          now
    bytes ← gets input_bytes
    let large = ltb settings.max_input_bytes (bytes + host.status_bytes status)
    if large then throw app_capacity else store_run workspace_id request r

  -- The part of `register` that follows `prune_history`.
  unfoldable pub fill :
      ℕ → RunRequest F → List (ConcreteScenario F) → TaskSet F → Method F (RunRecord F × Bool)
  unfolding keys_of reservation_of make_room add_run
  fill workspace_id request scenarios task_set = do
    cache ← gets (λ s. s.cache)
    let keys = keys_of task_set scenarios
    let missing = indices_without (has_key cache) 0 keys
    make_room (reservation_of missing) keys
    add_run workspace_id request scenarios task_set keys missing (reservation_of missing)

  -- The part of `register` that follows the look-up of an earlier run.
  unfoldable pub admit :
      ℕ
      → Workspace F
      → RunRequest F
      → List (ConcreteScenario F)
      → TaskSet F
      → Method F (RunRecord F × Bool)
  unfolding is_hasty prune_history fill has_active_run active_records
  admit workspace_id w request scenarios task_set = do
    active ← gets (λ s. has_active_run s w)
    if active then throw run_active else do
      full ← gets (λ s. leb settings.max_active_runs (length (active_records s)))
      if full then throw app_capacity else do
        hasty ← is_hasty w request
        if hasty then throw app_capacity else do
          prune_history settings workspace_id w
          fill workspace_id request scenarios task_set

  unfoldable pub register :
      ℕ → RunRequest F → List (ConcreteScenario F) → TaskSet F → Method F (RunRecord F × Bool)
  unfolding get_workspace previous admit
  register workspace_id request scenarios task_set = do
    w ← get_workspace workspace_id
    found ← previous w request
    elim found [ some r ↦ pure (r, false) | none ↦ admit workspace_id w request scenarios task_set ]
