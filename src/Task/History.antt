-- ===== src/Task/History.antt =====
-- src/value_stream/task/task_history.py: `TaskHistory`. A method is an action on the history that
-- may raise a ValueError.
pub mod Calls
pub mod Chain
pub mod Refusals
use Prim.Native.Nat.{ℕ}
use value_stream_simulator.Prelude.{
  Bool, true, false, not, ◌&&◌, Option, none, some, List, [], ◌∷◌, ◌++◌, ◌==◌, if◌then◌else◌,
}
use value_stream_simulator.Prelude.Exec.{
  Result, ok, raise, Exec, pure, throw, gets, modify, continue, ◌>>=◌, ◌>>◌,
}
use value_stream_simulator.Prelude.Number.{Number}
use value_stream_simulator.Task.Event.{
  TaskType, EventStatus, EventType, ValueError, before_epoch, decreasing_time, from_terminal,
  already_started, invalid_end, no_history, empty_history, not_ended, other_event, already_terminal,
  is_success, is_start, is_end, is_terminal, TaskEvent, start_event, end_event, terminal_event,
  to_epoch_time,
}

module _ (n : Number) where
  pub record TaskHistory : Type 0 where
    pub events : List (TaskEvent n)
    pub epoch_start_sim_t : n.Float
    pub delivered_value : Option n.Float
    pub completed_story_points : n.Float

  unfoldable pub new_history : n.Float → TaskHistory
  new_history epoch_start_sim_t = record {
    events = [];
    epoch_start_sim_t = epoch_start_sim_t;
    delivered_value = none;
    completed_story_points = n.zero;
  }

  -- events[-1], and what `del events[-1]` leaves.
  abbrev pub last : List (TaskEvent n) → Option (TaskEvent n)
  last [] = none
  last (e ∷ []) = some e
  last (e ∷ e' ∷ es) = last (e' ∷ es)

  abbrev pub but_last : List (TaskEvent n) → List (TaskEvent n)
  but_last [] = []
  but_last (e ∷ []) = []
  but_last (e ∷ e' ∷ es) = e ∷ but_last (e' ∷ es)

  abbrev pub HistoryMethod : Type 0 → Type 0
  HistoryMethod A = Exec ValueError TaskHistory A

  unfoldable pub of_result : {A : Type 0} → Result ValueError A → HistoryMethod A
  of_result r h = (r, h)

  unfoldable pub append : TaskEvent n → HistoryMethod Unit
  append e = modify (λ h. record h { events = h.events ++ e ∷ [] })

  unfoldable pub last_event : HistoryMethod (Option (TaskEvent n))
  last_event = gets (λ h. last h.events)

  unfoldable pub epoch_time : n.Float → HistoryMethod n.Float
  epoch_time sim_time = do
    offset ← gets (λ h. h.epoch_start_sim_t)
    of_result (to_epoch_time n offset sim_time)

  abbrev pub is_active : TaskEvent n → Bool
  is_active e = is_start e.event_type && is_success e.status

  -- What `start` refuses, in the order of its tests.
  unfoldable pub check_start : n.Float → Option (TaskEvent n) → Result {0, 0} ValueError Unit
  check_start time none = ok tt
  check_start time (some e) =
      if n.lt time e.time
      then raise decreasing_time
      else if is_terminal e.event_type
      then raise from_terminal
      else if is_active e
      then raise already_started
      else ok tt

  unfoldable pub start : n.Float → ℕ → TaskType → Bool → Option ℕ → HistoryMethod Unit
  start sim_time event task_type is_rework resource_id = do
    time ← epoch_time sim_time
    last ← last_event
    of_result (check_start time last)
    append (start_event n event time task_type is_rework EventStatus.success resource_id)

  abbrev pub named : Option ℕ → TaskEvent n → ℕ
  named none e = e.event
  named (some event) e = event

  -- The end event that `end` appends, or what it raises.
  unfoldable pub ending :
      n.Float
      → TaskType
      → Bool
      → Option ℕ
      → EventStatus
      → n.Float
      → Option ℕ
      → Option (TaskEvent n)
      → Result ValueError (TaskEvent n)
  ending time task_type is_rework event status loss resource_id none = raise no_history
  ending time task_type is_rework event status loss resource_id (some e) =
      let event = named event e in
      if n.lt time e.time
      then raise decreasing_time
      else if is_active e && (e.event == event)
      then ok
          (end_event n event time task_type is_rework (n.sub time e.time) status loss resource_id)
      else raise invalid_end

  unfoldable pub finish :
      n.Float → TaskType → Bool → Option ℕ → EventStatus → n.Float → Option ℕ → HistoryMethod Unit
  finish sim_time task_type is_rework event status loss resource_id = do
    time ← epoch_time sim_time
    last ← last_event
    e ← of_result (ending time task_type is_rework event status loss resource_id last)
    append e

  unfoldable pub check_resume : ℕ → Option (TaskEvent n) → Result {0, 0} ValueError Unit
  check_resume event none = raise empty_history
  check_resume event (some e) =
      if not (is_end e.event_type)
      then raise not_ended
      else if not (e.event == event)
      then raise other_event
      else ok tt

  unfoldable pub resume : ℕ → HistoryMethod Unit
  resume event = do
    last ← last_event
    of_result (check_resume event last)
    modify (λ h. record h { events = but_last h.events })

  unfoldable pub check_terminate : n.Float → Option (TaskEvent n) → Result {0, 0} ValueError Unit
  check_terminate time none = ok tt
  check_terminate time (some e) =
      if n.lt time e.time
      then raise decreasing_time
      else if is_terminal e.event_type
      then raise already_terminal
      else ok tt

  unfoldable pub terminate :
      n.Float → ℕ → TaskType → Bool → EventStatus → Option ℕ → HistoryMethod Unit
  terminate sim_time event task_type is_rework status resource_id = do
    time ← epoch_time sim_time
    last ← last_event
    of_result (check_terminate time last)
    append (terminal_event n event time task_type is_rework status resource_id)
