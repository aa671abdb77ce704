-- ===== src/App/Storage/Editing.antt =====
-- storage.py: `save_editor`, `preview` and `comparison`.
use Prim.Native.Nat.{ℕ, suc, ◌+◌}
use value_stream_simulator.Prelude.{
  Bool, true, false, not, ◌||◌, ◌&&◌, Option, none, some, List, [], ◌∷◌, ◌++◌, map, length, any,
  select, count_if, sum_of, leb, ltb, ◌==◌, if◌then◌else◌,
}
use value_stream_simulator.Prelude.Exec.{Result, pure, throw, gets, modify, ◌>>=◌, ◌>>◌}
use value_stream_simulator.Prelude.Dict.{Dict, lookup, remove, values}
use value_stream_simulator.App.Schemas.{
  Code, app_capacity, run_active, revision_conflict, limit_exceeded, invalid_input,
  comparison_limit, TaskSetSpec, ConcreteScenario, TaskSet, EditorRequest, Preview, is_terminal,
  Workspace, ComparisonAction, pin, unpin, baseline, delete,
}
use value_stream_simulator.App.Settings.{AppSettings}
use value_stream_simulator.App.Storage.{
  RunRecord, WorkspaceStore, Host, Generator, Method, includes, is_just, save_workspace, save_run,
  get_workspace, find_run, listed_status,
}
use value_stream_simulator.App.Storage.Pruning.{prune_cache}
use value_stream_simulator.App.Storage.Access.{draw_id}
use value_stream_simulator.App.Storage.Admission.{statuses}

-- len(set(ids)) != len(ids)
unfoldable pub has_repeat : List ℕ → Bool
unfolding includes
has_repeat [] = false
has_repeat (x ∷ xs) = includes x xs || has_repeat xs

-- next((x for x in xs if p(x)), None)
unfoldable pub find {ℓ} : {A : Type ℓ} → (A → Bool) → List A → Option A
find p [] = none
find p (x ∷ xs) = let rest = find p xs in if p x then some x else rest

-- None where the field names the run.
unfoldable pub cleared : ℕ → Option ℕ → Option ℕ
unfolding is_just
cleared run_id field = if is_just run_id field then none else field

module _ {F : Type 0} where
  unfoldable pub lift : {A : Type 0} → Result Code A → Method F A
  lift r s = (r, s)

  -- The workspace that the editor's request describes, before it is stored.
  unfoldable pub edited : EditorRequest F → TaskSet F → Workspace F → Workspace F
  unfolding is_just
  edited request task_set w =
      let kept = is_just task_set.id w.current_task_set in
      record w {
        task_spec = request.task_spec;
        definitions = request.definitions;
        task_sets =
            if any (λ t. task_set.id == t.id) w.task_sets
            then w.task_sets
            else w.task_sets ++ task_set ∷ [];
        current_task_set = some task_set.id;
        baseline_id = if kept then w.baseline_id else none;
        latest_id = if kept then w.latest_id else none;
        revision = suc w.revision;
      }

  -- The workspace that `baseline` makes: the inputs of the run are the current ones.
  unfoldable pub with_baseline : ℕ → RunRecord F → Dict (RunRecord F) → Workspace F → Workspace F
  with_baseline run_id r runs w = record w {
    baseline_id = some run_id;
    current_task_set = some r.task_set.id;
    task_spec = r.task_set.spec;
    latest_id = elim w.latest_id [
      | none ↦ none
      | some latest ↦ elim (lookup runs latest) [
        | none ↦ none
        | some l ↦ if l.task_set.id == r.task_set.id then some latest else none
      ]
    ];
    revision = suc w.revision;
  }

  unfoldable pub without_run : ℕ → Workspace F → Workspace F
  unfolding cleared
  without_run run_id w = record w {
    runs = select (λ x. not (x == run_id)) w.runs;
    baseline_id = cleared run_id w.baseline_id;
    latest_id = cleared run_id w.latest_id;
  }

module _ {F : Type 0} (settings : AppSettings) (host : Host F) (generator : Generator F) where
  -- The task set with this specification, or a new one.
  unfoldable pub task_set_for : TaskSetSpec F → Workspace F → Method F (TaskSet F)
  unfolding find draw_id
  task_set_for spec w =
      elim (find (λ t. host.spec_digest t.spec == host.spec_digest spec) w.task_sets) [
        | some t ↦ pure t
        | none ↦ if leb settings.max_task_sets (length w.task_sets) then throw app_capacity else do
          id ← draw_id host
          let tasks = generator.materialize_tasks spec
          pure (record {
            id = id;
            revision = 1;
            spec = spec;
            content_hash = host.tasks_digest tasks;
            tasks = tasks;
          })
      ]

  -- `_preview`
  unfoldable pub make_preview : Workspace F → List (ConcreteScenario F) → Method F (Preview F)
  make_preview w scenarios = elim w.current_task_set [
    | none ↦ throw invalid_input
    | some task_set_id ↦ pure (record {
      digest = host.preview_digest task_set_id w.revision scenarios;
      task_set_id = task_set_id;
      workspace_revision = w.revision;
      scenarios = scenarios;
      count = length scenarios;
    })
  ]

  unfoldable pub preview : ℕ → Method F (Preview F)
  unfolding get_workspace lift make_preview
  preview workspace_id = do
    w ← get_workspace workspace_id
    scenarios ← lift (generator.expand_scenarios w.definitions settings)
    make_preview w scenarios

  -- The bytes of the inputs, once the workspace is replaced.
  unfoldable pub bytes_with : Workspace F → WorkspaceStore F → ℕ
  unfolding statuses
  bytes_with candidate s =
      sum_of (λ w. host.workspace_bytes w (statuses s.runs w.runs))
        (select (λ w. not (w.id == candidate.id)) (values s.workspaces))
      + host.workspace_bytes candidate (statuses s.runs candidate.runs)

  -- The candidate takes the place of the workspace, if the inputs fit.
  unfoldable pub commit : ℕ → Workspace F → List (ConcreteScenario F) → Method F (Preview F)
  unfolding bytes_with save_workspace make_preview
  commit workspace_id candidate scenarios = do
    size ← gets (bytes_with candidate)
    if ltb settings.max_input_bytes size
        then throw app_capacity
        else do save_workspace workspace_id candidate; make_preview candidate scenarios

  unfoldable pub save_editor : ℕ → EditorRequest F → Method F (Preview F)
  unfolding get_workspace lift task_set_for edited commit
  save_editor workspace_id request = do
    w ← get_workspace workspace_id
    if not (request.expected_revision == w.revision)
        then throw revision_conflict
        else if ltb settings.max_tasks request.task_spec.count
        then throw limit_exceeded
        else if has_repeat (map (λ d. d.id) request.definitions)
        then throw invalid_input
        else do
          scenarios ← lift (generator.expand_scenarios request.definitions settings)
          task_set ← task_set_for request.task_spec w
          commit workspace_id (edited request task_set w) scenarios

  -- sum(x.pinned for x in w.runs)
  unfoldable pub pins : WorkspaceStore F → Workspace F → ℕ
  unfolding listed_status
  pins s w = count_if (listed_status (λ status. status.pinned) s) w.runs

  unfoldable pub set_pinned : Bool → ℕ → RunRecord F → Method F Unit
  unfolding save_run
  set_pinned pinned run_id r =
      save_run run_id (record r { status = record r.status { pinned = pinned } })

  unfoldable pub act : ComparisonAction → ℕ → ℕ → Workspace F → RunRecord F → Method F Unit
  unfolding pins set_pinned with_baseline save_workspace prune_cache
  act pin workspace_id run_id w r = do
    full ← gets (λ s. not r.status.pinned && leb settings.max_pins (pins s w))
    if full then throw comparison_limit else set_pinned true run_id r
  act unpin workspace_id run_id w r = set_pinned false run_id r
  act baseline workspace_id run_id w r = do
    runs ← gets (λ s. s.runs)
    save_workspace workspace_id (with_baseline run_id r runs w)
  act delete workspace_id run_id w r = do
    modify (λ s. record s { runs = remove run_id s.runs })
    save_workspace workspace_id (without_run run_id w)
    prune_cache settings 0 []

  -- action in {"pin", "baseline"} and not r.results
  unfoldable pub lacks_results : ComparisonAction → RunRecord F → Bool
  lacks_results pin r = length r.results == 0
  lacks_results baseline r = length r.results == 0
  lacks_results _ r = false

  unfoldable pub comparison : ℕ → ℕ → ComparisonAction → Method F (Workspace F)
  unfolding get_workspace find_run lacks_results act
  comparison workspace_id run_id action = do
    w ← get_workspace workspace_id
    r ← find_run workspace_id run_id
    if not (is_terminal r.status.state)
        then throw run_active
        else if lacks_results action r
        then throw invalid_input
        else do act action workspace_id run_id w r; get_workspace workspace_id
