-- ===== src/Workflow/TaskStore/Examples.antt =====
-- The stores of task_store.py run on native numbers, with a list for the items and flags for an event.
use value_stream_simulator.Prelude.{
  refl, Bool, true, false, Option, none, some, List, [], ◌∷◌, ◌++◌,
}
use value_stream_simulator.Prelude.Naturals.{naturals}
use value_stream_simulator.Task.Event.{
  TaskType, EventStatus, terminal_event, start_event, to_epoch_time, to_sim_time,
}
use value_stream_simulator.Task.History.{
  new_history, append, of_result, last_event, epoch_time, check_terminate, terminate, check_start,
  start,
}
use value_stream_simulator.Task.Delivery.{
  Task, value, value_of, on_history, deliver, terminate_task, start_task,
}
use value_stream_simulator.Workflow.TaskStore.{
  Simpy, TaskStore, accepted, new_store, mark, check_alarm, put_unalarmed, put_with, put,
  terminal_put, set_alarm,
}
use value_stream_simulator.Workflow.TaskStore.Delivery.{
  deliver_all, terminated, deliver_all-set_alarm,
}
use value_stream_simulator.Workflow.TaskStore.Alarm.{
  SimpyLaws, Watch, set_alarm-Watch, gained, terminal_put-Watch, put-Watch,
}

record Flags : Type 0 where
  triggered : Bool
  processed : Bool
  value : Option (List (Task naturals))

abbrev lists : Simpy naturals
lists = record {
  Event = Flags;
  triggered = λ e. e.triggered;
  processed = λ e. e.processed;
  value = λ e. e.value;
  succeed = λ v e. record { triggered = true; processed = e.processed; value = some v };
  put_items = λ items t. items ++ t ∷ [];
}

lists-SimpyLaws : SimpyLaws naturals lists
lists-SimpyLaws = record { puts = λ _ _. refl; succeeds = λ _ _. refl; carries = λ _ _. refl }

abbrev alarm : Flags
alarm = record { triggered = false; processed = false; value = none }

abbrev task : Task naturals
task = record {
  task_name = none;
  initial_value = 100;
  story_points = 8;
  creation_sim_t = 3;
  depreciation_rate = 0;
  task_type = TaskType.development;
  history = new_history naturals 3;
  task_id = 1;
  is_rework = false;
}

abbrev delivery : TaskStore naturals lists
delivery = (set_alarm naturals lists 1 alarm (new_store naturals lists 6)).1

deliver_all-set_alarm_example :
    Watch naturals lists 1 []
      (terminated naturals lists 6 (9, task) ∷ [])
      (deliver_all naturals lists ((9, task) ∷ (9, task) ∷ []) delivery).1
unfolding set_alarm new_store deliver_all terminal_put put_with put_unalarmed mark check_alarm
    terminate_task on_history deliver terminate append of_result last_event epoch_time
    check_terminate new_history terminal_event to_epoch_time value value_of to_sim_time
deliver_all-set_alarm_example =
    deliver_all-set_alarm naturals lists lists-SimpyLaws 1 alarm ((9, task) ∷ (9, task) ∷ [])
      (new_store naturals lists 6) refl refl

terminal_put-Watch_example :
    Watch naturals lists 1 []
      (gained naturals lists accepted
        (terminate_task naturals 9 6 EventStatus.success none task).1
        [])
      (terminal_put naturals lists 9 task delivery).1
unfolding set_alarm new_store terminal_put put_with put_unalarmed mark check_alarm terminate_task
    on_history deliver terminate append of_result last_event epoch_time check_terminate new_history
    terminal_event to_epoch_time value value_of to_sim_time
terminal_put-Watch_example =
    terminal_put-Watch naturals lists lists-SimpyLaws 9 task 1 [] [] delivery accepted
      (set_alarm-Watch naturals lists 1 alarm (new_store naturals lists 6) refl) refl

put-Watch_example :
    Watch naturals lists 1 []
      (gained naturals lists accepted (start_task naturals 9 6 none task).1 [])
      (put naturals lists 9 task delivery).1
unfolding set_alarm new_store put put_with put_unalarmed mark check_alarm start_task on_history
    start append of_result last_event epoch_time check_start new_history start_event to_epoch_time
put-Watch_example =
    put-Watch naturals lists lists-SimpyLaws 9 task 1 [] [] delivery accepted
      (set_alarm-Watch naturals lists 1 alarm (new_store naturals lists 6) refl) refl
