-- ===== src/Service/Schemas.antt =====
-- src/value_stream/service/schemas.py: the wire contract. `F` stands for Python's float, which the
-- service passes on and never computes with.
use Prim.Native.Nat.{ℕ}
use Prim.Native.String.{String}
use value_stream_simulator.Prelude.Int.{ℤ}
use value_stream_simulator.Prelude.{Bool, true, false, Option, none, some, List, length, ◌==◌}

pub data TaskType : Type 0 where
  development support : TaskType

pub data EventStatus : Type 0 where
  success failure : EventStatus

pub data EventType : Type 0 where
  start end terminal : EventType

pub record TaskInput (F : Type 0) : Type 0 where
  pub initial_value : F
  pub story_points : F
  pub depreciation_rate : F
  pub task_name : Option String
  pub creation_sim_t : F
  pub task_type : TaskType
  pub is_rework : Bool

pub record DeveloperInput (F : Type 0) : Type 0 where
  pub name : String
  pub efficiency : F

pub record QaInput (F : Type 0) : Type 0 where
  pub time_cost : F
  pub failure_rate : F
  pub failure_cost : F

pub record ToolchainInput (F : Type 0) : Type 0 where
  pub deployment_duration : F
  pub failure_rate : F

-- A pool of `limit` equal resources, or a list of resources: the two `kind`s of the contract.
pub data Collection (R : Type 0) : Type 0 where
  pool : ℕ → R → Collection R
  listed : List R → Collection R

pub record ModelInput (F : Type 0) : Type 0 where
  pub developer_team : List (DeveloperInput F)
  pub deployment_cadence : ℕ
  pub qa_testers : Collection (QaInput F)
  pub toolchain_pool : Collection (ToolchainInput F)
  pub support_interval : Option F
  pub support_task_story_points : F

pub record JobRequest (F : Type 0) : Type 0 where
  pub tasks : List (TaskInput F)
  pub models : List (ModelInput F)
  pub seed : Option ℕ
  pub model_seeds : Option (List ℕ)
  pub submission_id : Option ℕ

pub record SummaryData (F : Type 0) : Type 0 where
  pub completion_time : F
  pub total_delivered_value : F
  pub loss : F

pub record TaskEventData (F : Type 0) : Type 0 where
  pub event : String
  pub event_type : EventType
  pub time : F
  pub status : EventStatus
  pub loss : F
  pub task_type : TaskType
  pub is_rework : Bool
  pub duration : Option F
  pub resource_id : Option ℕ

pub record ResourceMetadataData (F : Type 0) : Type 0 where
  pub time : F
  pub state : String
  pub waiting : ℤ
  pub allocated : ℤ
  pub active : ℤ
  pub success_t : Option F
  pub failure_t : Option F
  pub interruption_t : Option F
  pub waiting_t : Option F
  pub idle_t : Option F

pub record MetadataData (F : Type 0) : Type 0 where
  pub event_metadata : List (TaskEventData F)
  pub resource_metadata : List (ResourceMetadataData F)

pub record ResultData (F : Type 0) : Type 0 where
  pub model_index : ℕ
  pub model : ModelInput F
  pub summary_result : SummaryData F
  pub metadata : MetadataData F

-- The codes that the service reports for a model.
pub data ErrorCode : Type 0 where
  result_too_large worker_failed model_timeout model_failed : ErrorCode

pub record ModelError : Type 0 where
  pub model_index : ℕ
  pub code : ErrorCode
  pub message : String

pub data Status : Type 0 where
  queued running succeeded failed cancelled : Status

pub record OutcomeData (F : Type 0) : Type 0 where
  pub cursor : ℕ
  pub model_index : ℕ
  pub status : Status
  pub result : Option (ResultData F)
  pub error : Option ModelError

-- The validator of `OutcomeData`: false where it raises. The two other states are no outcome.
module _ {F : Type 0} where
  abbrev shape : Status → ℕ → Option (ResultData F) → Option ModelError → Bool
  shape Status.succeeded index (some r) none = r.model_index == index
  shape Status.failed index none (some e) = e.model_index == index
  shape Status.cancelled index none none = true
  shape _ _ _ _ = false

  unfoldable pub valid_shape : OutcomeData F → Bool
  valid_shape o = shape o.status o.model_index o.result o.error

  unfoldable pub validate_seeds : JobRequest F → Bool
  validate_seeds request = elim request.model_seeds [
    | none ↦ true
    | some seeds ↦ elim request.seed [
      | some _ ↦ false
      | none ↦ length seeds == length request.models
    ]
  ]

pub record OutcomePage (F : Type 0) : Type 0 where
  pub outcomes : List (OutcomeData F)
  pub next_cursor : ℕ

pub data JobState : Type 0 where
  queued running completed completed_with_errors cancelled : JobState

pub record JobStatus : Type 0 where
  pub job_id : ℕ
  pub status : JobState
  pub total_models : ℕ
  pub queued_models : ℕ
  pub running_models : ℕ
  pub succeeded_models : ℕ
  pub failed_models : ℕ
  pub cancelled_models : ℕ
  pub last_cursor : ℕ
