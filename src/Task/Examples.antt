-- ===== src/Task/Examples.antt =====
-- The task package run on native numbers.
use value_stream_simulator.Prelude.{◌≡◌, refl, false, none, some, [], ◌∷◌}
use value_stream_simulator.Prelude.Exec.{ok, raise}
use value_stream_simulator.Prelude.Naturals.{naturals, naturals-IsOrdered}
use value_stream_simulator.Prelude.Int.{pos, negsuc}
use value_stream_simulator.Prelude.Integers.{integers}
use value_stream_simulator.Task.Event.{
  TaskType, EventStatus, ValueError, TaskEvent, start_event, end_event, terminal_event,
  to_epoch_time,
}
use value_stream_simulator.Task.History.{
  TaskHistory, new_history, append, of_result, last_event, epoch_time, check_start, start, ending,
  finish, resume, check_terminate, terminate,
}
use value_stream_simulator.Task.History.Calls.{
  Call, start_call, finish_call, terminate_call, run, run_all,
}
use value_stream_simulator.Task.History.Chain.{IsChain, reachable-IsChain}
use value_stream_simulator.Task.History.Refusals.{
  run_raises, Raises, terminal_refuses, resume-finish,
}
use value_stream_simulator.Task.Delivery.{
  Task, do_work, add_work, complete, remaining_work, terminate_task,
}
use value_stream_simulator.Task.Delivery.Laws.{Terminates, terminate_task_lem}

abbrev started : Call naturals
started = start_call 5 1 TaskType.development false none

abbrev ended : Call naturals
ended = finish_call 8 TaskType.development false (some 1) EventStatus.success 0 none

abbrev delivered : Call naturals
delivered = terminate_call 9 2 TaskType.development false EventStatus.success none

abbrev active_history : TaskHistory naturals
active_history = run_all naturals (started ∷ []) (new_history naturals 3)

abbrev ended_history : TaskHistory naturals
ended_history = run_all naturals (started ∷ ended ∷ delivered ∷ []) (new_history naturals 3)

reachable-IsChain_example :
    IsChain naturals
      (run_all naturals
        (started ∷ started ∷ ended ∷ delivered ∷ [])
        (new_history naturals 3)).events
reachable-IsChain_example =
    reachable-IsChain naturals (started ∷ started ∷ ended ∷ delivered ∷ []) 3

run_raises_example : (run naturals started active_history).1 ≡ active_history
unfolding run run_all start append of_result last_event epoch_time check_start new_history
    start_event to_epoch_time
run_raises_example = run_raises naturals started active_history ValueError.already_started refl

abbrev last_of_ended : TaskEvent naturals
last_of_ended = terminal_event naturals 2 6 TaskType.development false EventStatus.success none

terminal_refuses_example : Raises naturals (run naturals started ended_history)
unfolding run run_all start finish terminate append of_result last_event epoch_time check_start
    ending check_terminate new_history start_event end_event terminal_event to_epoch_time
terminal_refuses_example = terminal_refuses naturals started ended_history last_of_ended refl refl

resume-finish_example :
    resume naturals 1
      (finish naturals 8 TaskType.development false
        (some 1)
        EventStatus.failure
        0
        none
        active_history).1
    ≡ (ok tt, active_history)
unfolding run run_all start finish append of_result last_event epoch_time check_start ending
    new_history start_event to_epoch_time
resume-finish_example =
    resume-finish naturals 8 TaskType.development false 1 EventStatus.failure 0 none active_history
      refl

abbrev task : Task naturals
task = record {
  task_name = none;
  initial_value = 100;
  story_points = 8;
  creation_sim_t = 3;
  depreciation_rate = 0;
  task_type = TaskType.development;
  history = active_history;
  task_id = 1;
  is_rework = false;
}

abbrev counted : Task integers
counted = record {
  task_name = none;
  initial_value = pos 100;
  story_points = pos 8;
  creation_sim_t = pos 3;
  depreciation_rate = pos 0;
  task_type = TaskType.development;
  history = new_history integers (pos 3);
  task_id = 1;
  is_rework = false;
}

taken_back : (do_work integers (negsuc 1) counted).0 ≡ raise ValueError.negative_points
unfolding do_work remaining_work new_history add_work complete
taken_back = refl

terminate_task_lem_example :
    Terminates naturals 9 2 EventStatus.success none task
      (terminate_task naturals 9 2 EventStatus.success none task)
terminate_task_lem_example =
    terminate_task_lem naturals naturals-IsOrdered 9 2 EventStatus.success none task
