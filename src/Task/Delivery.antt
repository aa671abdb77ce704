-- ===== src/Task/Delivery.antt =====
-- src/value_stream/task/task.py: `Task` and `SupportTask`. A method is an action on the task that may
-- raise a ValueError (pydantic's ValidationError is one). The identifier that `uuid4` draws is given.
pub mod Laws
use Prim.Native.Nat.{ℕ}
use Prim.Native.String.{String}
use value_stream_simulator.Prelude.{
  Bool, true, false, not, ◌&&◌, ◌||◌, Option, none, some, if◌then◌else◌,
}
use value_stream_simulator.Prelude.Exec.{
  Result, ok, raise, Exec, pure, throw, gets, modify, continue, ◌>>=◌, ◌>>◌,
}
use value_stream_simulator.Prelude.Number.{Number}
use value_stream_simulator.Task.Event.{
  TaskType, EventStatus, ValueError, negative_points, validation_error, TaskEvent, to_sim_time,
  to_epoch_time,
}
use value_stream_simulator.Task.History.{
  TaskHistory, HistoryMethod, new_history, last, start, finish, resume, terminate,
}

module _ (n : Number) where
  pub record Task : Type 0 where
    pub task_name : Option String
    pub initial_value : n.Float
    pub story_points : n.Float
    pub creation_sim_t : n.Float
    pub depreciation_rate : n.Float
    pub task_type : TaskType
    pub history : TaskHistory n
    pub task_id : ℕ
    pub is_rework : Bool

  -- The bounds of the fields.
  unfoldable pub in_bounds : n.Float → n.Float → n.Float → n.Float → Bool
  in_bounds initial_value story_points creation_sim_t depreciation_rate =
      n.le n.zero initial_value
      && n.le n.zero story_points
      && n.le n.zero creation_sim_t
      && n.le n.zero depreciation_rate
      && n.le depreciation_rate n.one

  unfoldable pub new_task :
      ℕ → Option String → n.Float → n.Float → n.Float → n.Float → TaskType → Result ValueError Task
  new_task id name initial_value story_points creation_sim_t depreciation_rate task_type =
      if in_bounds initial_value story_points creation_sim_t depreciation_rate
      then ok record {
        task_name = name;
        initial_value = initial_value;
        story_points = story_points;
        creation_sim_t = creation_sim_t;
        depreciation_rate = depreciation_rate;
        task_type = task_type;
        history = new_history n creation_sim_t;
        task_id = id;
        is_rework = false;
      }
      else raise validation_error

  unfoldable pub new_support_task : ℕ → Option String → n.Float → n.Float → Result ValueError Task
  new_support_task id name story_points creation_sim_t =
      new_task id name n.zero story_points creation_sim_t n.zero TaskType.support

  unfoldable pub reset : ℕ → n.Float → Task → Result ValueError Task
  reset id epoch_start_sim_t task =
      new_task id task.task_name task.initial_value task.story_points epoch_start_sim_t
        task.depreciation_rate task.task_type

  abbrev pub value_at : Task → n.Float → n.Float
  value_at task sim_t =
      n.mul task.initial_value
        (n.power (n.sub n.one task.depreciation_rate) (n.sub sim_t task.creation_sim_t))

  unfoldable pub value_of : Task → Result ValueError n.Float → Result ValueError n.Float
  value_of task (ok sim_t) = ok (value_at task sim_t)
  value_of task (raise x) = raise x

  unfoldable pub value : Option n.Float → Task → Result ValueError n.Float
  value none task = ok task.initial_value
  value (some epoch_t) task = value_of task (to_sim_time n task.history.epoch_start_sim_t epoch_t)

  abbrev pub TaskMethod : Type 0 → Type 0
  TaskMethod A = Exec ValueError Task A

  unfoldable pub of_result : {A : Type 0} → Result ValueError A → TaskMethod A
  of_result r task = (r, task)

  unfoldable pub on_history : {A : Type 0} → HistoryMethod n A → TaskMethod A
  on_history m task = let (r, h) = m task.history in (r, record task { history = h })

  unfoldable pub relative_loss : n.Float → n.Float → TaskMethod n.Float
  relative_loss starting_value to_epoch_t = do
    ending_value ← λ task. (value (some to_epoch_t) task, task)
    initial_value ← gets (λ task. task.initial_value)
    pure (n.div (n.sub ending_value starting_value) initial_value)

  unfoldable pub loss : n.Float → n.Float → TaskMethod n.Float
  loss from_epoch_t to_epoch_t = do
    starting_value ← λ task. (value (some from_epoch_t) task, task)
    initial_value ← gets (λ task. task.initial_value)
    if n.same starting_value n.zero || n.same initial_value n.zero
        then pure n.zero
        else relative_loss starting_value to_epoch_t

  unfoldable pub remaining_work : Task → n.Float
  remaining_work task = n.sub task.story_points task.history.completed_story_points

  unfoldable pub complete : n.Float → Task → Task
  complete points task = record task {
    history = record task.history { completed_story_points = points };
  }

  -- The points are written before the test of their sign.
  unfoldable pub add_work : n.Float → TaskMethod n.Float
  add_work points = do
    modify (λ task. complete (n.add task.history.completed_story_points points) task)
    completed ← gets (λ task. task.history.completed_story_points)
    if n.lt completed n.zero then throw negative_points else pure n.zero

  unfoldable pub fill_work : n.Float → n.Float → TaskMethod n.Float
  fill_work points remaining = do
    modify (λ task. complete task.story_points task)
    pure (n.sub points remaining)

  unfoldable pub do_work : n.Float → TaskMethod n.Float
  do_work points = do
    remaining ← gets remaining_work
    if n.le points remaining then add_work points else fill_work points remaining

  -- The loss since the last event, at the time of the end.
  unfoldable pub loss_since : n.Float → Option (TaskEvent n) → TaskMethod n.Float
  loss_since sim_t none = pure n.zero
  loss_since sim_t (some e) = do
    to_epoch_t ← λ task. (to_epoch_time n task.history.epoch_start_sim_t sim_t, task)
    loss e.time to_epoch_t

  -- `end`: the identifier of the resource is not passed on.
  unfoldable pub end_task : n.Float → Option ℕ → EventStatus → Option ℕ → TaskMethod Unit
  end_task sim_t event status resource_id = do
    last_event ← gets (λ task. last n task.history.events)
    loss ← loss_since sim_t last_event
    task ← gets (λ task. task)
    on_history (finish n sim_t task.task_type task.is_rework event status loss none)

  unfoldable pub start_task : n.Float → ℕ → Option ℕ → TaskMethod Unit
  start_task sim_t event resource_id = do
    task ← gets (λ task. task)
    on_history (start n sim_t event task.task_type task.is_rework resource_id)

  unfoldable pub resume_task : ℕ → TaskMethod Unit
  resume_task event = on_history (resume n event)

  unfoldable pub deliver : n.Float → TaskMethod Unit
  deliver sim_t = do
    t ← λ task. (to_epoch_time n task.history.epoch_start_sim_t sim_t, task)
    v ← λ task. (value (some t) task, task)
    modify (λ task. record task { history = record task.history { delivered_value = some v } })

  unfoldable pub terminate_task : n.Float → ℕ → EventStatus → Option ℕ → TaskMethod Unit
  terminate_task sim_t event status resource_id = do
    task ← gets (λ task. task)
    on_history (terminate n sim_t event task.task_type task.is_rework status resource_id)
    deliver sim_t

  unfoldable pub as_rework : Task → Task
  as_rework task = record task { is_rework = true }

  unfoldable pub clear_rework : Task → Task
  clear_rework task = record task { is_rework = false }
