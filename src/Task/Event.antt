-- ===== src/Task/Event.antt =====
-- src/value_stream/task: task_event.py with its enumerations, and epoch.py. A workflow state and an
-- identifier are numbers: the code only compares them.
use Prim.Native.Nat.{ℕ}
use value_stream_simulator.Prelude.{Bool, true, false, Option, none, some, if◌then◌else◌}
use value_stream_simulator.Prelude.Exec.{Result, ok, raise}
use value_stream_simulator.Prelude.Number.{Number}

pub data TaskType : Type 0 where
  development support : TaskType

pub data EventStatus : Type 0 where
  success failure : EventStatus

pub data EventType : Type 0 where
  start end terminal : EventType

-- The ValueErrors of the package, one for each message.
pub data ValueError : Type 0 where
  negative_epoch_time before_epoch decreasing_time from_terminal already_started : ValueError
  invalid_end no_history empty_history not_ended other_event already_terminal : ValueError
  negative_points validation_error : ValueError

abbrev pub is_success : EventStatus → Bool
is_success EventStatus.success = true
is_success EventStatus.failure = false

abbrev pub is_start : EventType → Bool
is_start EventType.start = true
is_start _ = false

abbrev pub is_end : EventType → Bool
is_end EventType.end = true
is_end _ = false

abbrev pub is_terminal : EventType → Bool
is_terminal EventType.terminal = true
is_terminal _ = false

module _ (n : Number) where
  pub record TaskEvent : Type 0 where
    pub event : ℕ
    pub event_type : EventType
    pub time : n.Float
    pub status : EventStatus
    pub loss : n.Float
    pub task_type : TaskType
    pub is_rework : Bool
    pub duration : Option n.Float
    pub resource_id : Option ℕ

  unfoldable pub start_event : ℕ → n.Float → TaskType → Bool → EventStatus → Option ℕ → TaskEvent
  start_event event time task_type is_rework status resource_id = record {
    event = event;
    event_type = EventType.start;
    time = time;
    status = status;
    loss = n.zero;
    task_type = task_type;
    is_rework = is_rework;
    duration = none;
    resource_id = resource_id;
  }

  unfoldable pub end_event :
      ℕ → n.Float → TaskType → Bool → n.Float → EventStatus → n.Float → Option ℕ → TaskEvent
  end_event event time task_type is_rework duration status loss resource_id = record {
    event = event;
    event_type = EventType.end;
    time = time;
    status = status;
    loss = loss;
    task_type = task_type;
    is_rework = is_rework;
    duration = some duration;
    resource_id = resource_id;
  }

  unfoldable pub terminal_event : ℕ → n.Float → TaskType → Bool → EventStatus → Option ℕ → TaskEvent
  terminal_event event time task_type is_rework status resource_id = record {
    event = event;
    event_type = EventType.terminal;
    time = time;
    status = status;
    loss = n.zero;
    task_type = task_type;
    is_rework = is_rework;
    duration = none;
    resource_id = resource_id;
  }

  -- `Epoch`, given its offset.
  unfoldable pub to_sim_time : n.Float → n.Float → Result ValueError n.Float
  to_sim_time offset epoch_t =
      if n.lt epoch_t n.zero then raise negative_epoch_time else ok (n.add epoch_t offset)

  unfoldable pub to_epoch_time : n.Float → n.Float → Result ValueError n.Float
  to_epoch_time offset sim_t =
      if n.lt sim_t offset then raise before_epoch else ok (n.sub sim_t offset)
