-- ===== src/App/Storage/Examples.antt =====
-- storage.py: a store with one workspace, on which the theorems are applied.
use Prim.Native.Nat.{ℕ, ◌+◌}
use value_stream_simulator.Prelude.{
  ◌≡◌, refl, ◌⊎◌, true, none, List, [], ◌∷◌, All, length, suc, ◌≤◌, arith,
}
use value_stream_simulator.Prelude.Exec.{ok, raise}
use value_stream_simulator.Prelude.Dict.{lookup, put, remove, values}
use value_stream_simulator.Service.Schemas.{ModelInput, ResultData, listed}
use value_stream_simulator.App.Schemas.{
  revision_conflict, constant, linear, ModelSettings, ConcreteScenario, TaskSet, EditorRequest,
  Preview, manual, null, RunRequest,
}
use value_stream_simulator.App.Settings.{AppSettings}
use value_stream_simulator.App.Storage.{
  or_raise, RunRecord, WorkspaceStore, Host, Generator, new_store, used,
}
use value_stream_simulator.App.Storage.Access.{create, new_workspace, retain_result, result}
use value_stream_simulator.App.Storage.Admission.{
  register, indices_without, new_record, new_outcome, new_status,
}
use value_stream_simulator.App.Storage.Pruning.{is_needed, pruned}
use value_stream_simulator.App.Storage.Editing.{has_repeat, save_editor}
use value_stream_simulator.App.Storage.Calls.{
  Call, create_call, save_editor_call, register_call, retain_result_call, perform, perform_all,
  RespectsLimits, calls-RespectsLimits,
}
use value_stream_simulator.App.Storage.Freed.{pruned-Frees}
use value_stream_simulator.App.Storage.Retained.{retain_result-result}
use value_stream_simulator.App.Storage.Revisions.{second_edit-refused}

abbrev pub limits : AppSettings
limits = record {
  max_workspaces = 1;
  max_task_sets = 2;
  max_definitions = 4;
  max_tasks = 10;
  max_models = 4;
  max_resources = 9;
  max_axis_values = 4;
  max_pins = 1;
  max_active_runs = 1;
  max_retained_runs = 2;
  max_body_bytes = 100;
  max_input_bytes = 100;
  max_result_bytes = 20;
  max_run_bytes = 15;
  max_model_bytes = 8;
  poll_seconds = 1;
  retry_seconds = 60;
  min_interactive_seconds = 1;
}

-- Times and identifiers count up, every text has five bytes, and digests are small sums.
abbrev pub host : Host ℕ
host = record {
  monotonic = λ n. n;
  uuid4 = λ n. n;
  decimal = λ digits places. digits;
  result_bytes = λ r. 5;
  status_bytes = λ s. 5;
  workspace_bytes = λ w ss. 5;
  spec_digest = λ spec. spec.seed;
  tasks_digest = λ tasks. length tasks;
  request_digest = λ r. r.preview_digest;
  preview_digest = λ id revision scenarios. id + revision;
  result_digest = λ digest model seed. seed;
}

abbrev pub model : ModelInput ℕ
model = record {
  developer_team = [];
  deployment_cadence = 5;
  qa_testers = listed [];
  toolchain_pool = listed [];
  support_interval = none;
  support_task_story_points = 2;
}

abbrev pub settings : ModelSettings ℕ
settings = record {
  team_size = 4;
  efficiency_min = 1;
  efficiency_max = 2;
  distribution = linear;
  deployment_cadence = 5;
  qa_size = 5;
  qa_time_cost = 1;
  qa_failure_rate = 0;
  qa_failure_cost = 0;
  toolchain_size = 9;
  deployment_duration = 1;
  deployment_failure_rate = 0;
  support_interval = none;
  support_task_story_points = 2;
}

abbrev pub scenario : ℕ → ConcreteScenario ℕ
scenario n = record {
  id = n;
  definition_id = 1;
  revision = 1;
  name = "Delivery model";
  settings = settings;
  team_seed = 123;
  execution_seed = n;
  model = model;
}

abbrev pub generator : Generator ℕ
generator = record {
  materialize_tasks = λ spec. [];
  expand_scenarios = λ definitions limits. ok (scenario 71 ∷ scenario 72 ∷ []);
}

abbrev pub edit : ℕ → ℕ → EditorRequest ℕ
edit revision seed = record {
  expected_revision = revision;
  task_spec = record {
    name = "Task set";
    count = 3;
    story_points = constant 1;
    initial_value = constant 1;
    depreciation_rate = 0;
    seed = seed;
  };
  definitions = [];
}

abbrev pub task_set : TaskSet ℕ
task_set = record {
  id = 2;
  revision = 1;
  spec = (edit 0 42).task_spec;
  content_hash = 0;
  tasks = [];
}

abbrev pub request : RunRequest ℕ
request = record {
  request_id = 900;
  preview_digest = 3;
  name = "Baseline";
  intent = manual;
  source_run_id = none;
  property = none;
  value = null;
  definition_id = none;
  family_value = null;
}

abbrev pub value : ResultData ℕ
value = record {
  model_index = 0;
  model = model;
  summary_result = record { completion_time = 9; total_delivered_value = 8; loss = 1 };
  metadata = record { event_metadata = []; resource_metadata = [] };
}

-- The workspace is 0 and the run is 3. A second workspace is refused.
abbrev pub calls : List (Call ℕ)
calls =
    create_call
    ∷ create_call
    ∷ save_editor_call 0 (edit 0 42)
    ∷ register_call 0 request (scenario 71 ∷ scenario 72 ∷ []) task_set
    ∷ retain_result_call 3 0 value
    ∷ []

calls-RespectsLimits_example :
    RespectsLimits limits (perform_all limits host generator calls new_store)
calls-RespectsLimits_example = calls-RespectsLimits limits host generator calls

abbrev pub edited : WorkspaceStore ℕ
edited =
    (save_editor limits host generator 0 (edit 0 42)
      (perform_all limits host generator (create_call ∷ []) new_store)).1

abbrev pub shown : Preview ℕ
shown = record {
  digest = 3;
  task_set_id = 2;
  workspace_revision = 1;
  scenarios = scenario 71 ∷ scenario 72 ∷ [];
  count = 2;
}

second_edit-refused_example :
    (shown.workspace_revision ≡ suc 0)
    × (save_editor limits host generator 0 (edit 0 7) edited ≡ (raise revision_conflict, edited))
unfolding save_editor perform_all or_raise lookup perform create new_store put new_workspace
    has_repeat values
second_edit-refused_example =
    second_edit-refused limits host generator 0 (edit 0 42) (edit 0 7) shown
      (perform_all limits host generator (create_call ∷ []) new_store) edited refl refl

-- The store where the run is registered, and where its first result is retained.
abbrev pub submitted : WorkspaceStore ℕ
submitted =
    perform_all limits host generator
      (create_call
        ∷ save_editor_call 0 (edit 0 42)
        ∷ register_call 0 request (scenario 71 ∷ scenario 72 ∷ []) task_set
        ∷ [])
      new_store

-- The whole reservation, and then five of its bytes in the cache.
used-submitted : used submitted ≡ 15
unfolding used perform_all values retain_result lookup perform register or_raise save_editor create
    new_store put new_workspace has_repeat indices_without remove
used-submitted = refl

used-retained : used (retain_result limits host 3 0 value submitted).1 ≡ 15
unfolding used perform_all values retain_result lookup perform register or_raise save_editor create
    new_store put new_workspace has_repeat indices_without remove
used-retained = refl

abbrev pub retained : WorkspaceStore ℕ
retained = (retain_result limits host 3 0 value submitted).1

abbrev pub run : RunRecord ℕ
run =
    new_record (new_status 3 request (scenario 71 ∷ scenario 72 ∷ []) task_set) request 3 task_set
      (71 ∷ 72 ∷ []) (0 ∷ 1 ∷ []) 15 0

retain_result-result_example : (result limits host 3 71 retained).0 ≡ ok value
unfolding used perform_all values retain_result lookup perform register or_raise save_editor create
    new_store put new_workspace has_repeat indices_without remove new_record new_status
retain_result-result_example =
    retain_result-result limits host 3 0 value run 71 (new_outcome (scenario 71)) submitted retained
      refl refl refl refl

pruned-Frees_example :
    (lookup (pruned limits 6 [] retained).cache 71 ≡ lookup retained.cache 71)
    × ((used (pruned limits 6 [] retained) + 6 ≤ 20)
        ⊎ All
            (λ entry. is_needed retained.runs [] entry.0 ≡ true)
            (pruned limits 6 [] retained).cache)
unfolding used perform_all values retain_result lookup perform register or_raise save_editor create
    new_store put new_workspace has_repeat indices_without remove is_needed
pruned-Frees_example = pruned-Frees limits 6 [] retained 71 (omega arith) refl
