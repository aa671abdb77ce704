-- ===== src/App/Schemas.antt =====
-- src/value_stream/app/schemas.py and app/errors.py: the data of the application. `F` stands for
-- Python's float. Identifiers and digests are numbers; an error is its code, without its text.
use Prim.Native.Nat.{ℕ}
use Prim.Native.String.{String}
use value_stream_simulator.Prelude.{Bool, true, false, Option, List}
use value_stream_simulator.Service.Schemas.{TaskInput, ModelInput, ErrorCode, Status}

-- The codes of `AppError`; `model` is a code that the service reports for a model, and the last two
-- are exceptions of Python and pydantic.
pub data Code : Type 0 where
  app_capacity workspace_not_found run_not_found run_active revision_conflict : Code
  result_not_found limit_exceeded invalid_input submission_conflict result_too_large : Code
  comparison_limit service_unavailable service_invalid_response body_too_large : Code
  internal_error job_not_found service_job_lost : Code
  model : ErrorCode → Code
  key_error validation_error : Code

pub data ValueSpec (F : Type 0) : Type 0 where
  constant : F → ValueSpec F
  uniform : F → F → ValueSpec F

pub record TaskSetSpec (F : Type 0) : Type 0 where
  pub name : String
  pub count : ℕ
  pub story_points : ValueSpec F
  pub initial_value : ValueSpec F
  pub depreciation_rate : F
  pub seed : ℕ

pub data Distribution : Type 0 where
  linear normal : Distribution

pub record ModelSettings (F : Type 0) : Type 0 where
  pub team_size : ℕ
  pub efficiency_min : F
  pub efficiency_max : F
  pub distribution : Distribution
  pub deployment_cadence : ℕ
  pub qa_size : ℕ
  pub qa_time_cost : F
  pub qa_failure_rate : F
  pub qa_failure_cost : F
  pub toolchain_size : ℕ
  pub deployment_duration : F
  pub deployment_failure_rate : F
  pub support_interval : Option F
  pub support_task_story_points : F

pub data SweepValue (F : Type 0) : Type 0 where
  number : F → SweepValue F
  text : String → SweepValue F
  null : SweepValue F

pub record SweepRange (F : Type 0) : Type 0 where
  pub start : F
  pub end : F
  pub step : F

pub data Axis (F : Type 0) : Type 0 where
  explicit : List (SweepValue F) → Axis F
  range : SweepRange F → Axis F

-- A sweep is keyed by the name of a property of the settings.
pub record ScenarioDefinition (F : Type 0) : Type 0 where
  pub id : ℕ
  pub name : String
  pub revision : ℕ
  pub settings : ModelSettings F
  pub sweeps : List (String × Axis F)
  pub team_seed : ℕ
  pub execution_seed : ℕ

pub record ConcreteScenario (F : Type 0) : Type 0 where
  pub id : ℕ
  pub definition_id : ℕ
  pub revision : ℕ
  pub name : String
  pub settings : ModelSettings F
  pub team_seed : ℕ
  pub execution_seed : ℕ
  pub model : ModelInput F

pub record TaskSet (F : Type 0) : Type 0 where
  pub id : ℕ
  pub revision : ℕ
  pub spec : TaskSetSpec F
  pub content_hash : ℕ
  pub tasks : List (TaskInput F)

pub record EditorRequest (F : Type 0) : Type 0 where
  pub expected_revision : ℕ
  pub task_spec : TaskSetSpec F
  pub definitions : List (ScenarioDefinition F)

pub record Preview (F : Type 0) : Type 0 where
  pub digest : ℕ
  pub task_set_id : ℕ
  pub workspace_revision : ℕ
  pub scenarios : List (ConcreteScenario F)
  pub count : ℕ

pub data Intent : Type 0 where
  manual interactive : Intent

pub record RunRequest (F : Type 0) : Type 0 where
  pub request_id : ℕ
  pub preview_digest : ℕ
  pub name : String
  pub intent : Intent
  pub source_run_id : Option ℕ
  pub property : Option String
  pub value : SweepValue F
  pub definition_id : Option ℕ
  pub family_value : SweepValue F

pub data RunState : Type 0 where
  submitting queued running reconnecting cancelling : RunState
  completed completed_with_errors cancelled failed : RunState

-- state in TERMINAL
unfoldable pub is_terminal : RunState → Bool
is_terminal RunState.submitting = false
is_terminal RunState.queued = false
is_terminal RunState.running = false
is_terminal RunState.reconnecting = false
is_terminal RunState.cancelling = false
is_terminal _ = true

pub record OutcomeSummary (F : Type 0) : Type 0 where
  pub scenario : ConcreteScenario F
  pub status : Status
  pub cursor : ℕ
  pub cached : Bool
  pub loss_percent : Option F
  pub completion_time : Option F
  pub delivered_value : Option F
  pub error : Option Code

pub record RunStatus (F : Type 0) : Type 0 where
  pub id : ℕ
  pub name : String
  pub task_set_id : ℕ
  pub state : RunState
  pub intent : Intent
  pub job_id : Option ℕ
  pub outcomes : List (OutcomeSummary F)
  pub last_cursor : ℕ
  pub error : Option Code
  pub pinned : Bool
  pub superseded : Bool
  pub cancel_requested : Bool
  pub retry_paused : Bool

-- `runs` holds references: the status with an identifier is one object, which the workspace shares
-- with the run's record in the store.
pub record Workspace (F : Type 0) : Type 0 where
  pub id : ℕ
  pub revision : ℕ
  pub task_spec : TaskSetSpec F
  pub definitions : List (ScenarioDefinition F)
  pub task_sets : List (TaskSet F)
  pub current_task_set : Option ℕ
  pub baseline_id : Option ℕ
  pub latest_id : Option ℕ
  pub runs : List ℕ

pub data ComparisonAction : Type 0 where
  pin unpin baseline delete : ComparisonAction
