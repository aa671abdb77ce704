-- ===== src/Simulation/Policy/Examples.antt =====
-- The default policy on a support task and a development task.
use value_stream_simulator.Prelude.{◌≡◌, ltb, false, none, List, [], ◌∷◌, if◌then◌else◌}
use value_stream_simulator.Prelude.Naturals.{naturals}
use value_stream_simulator.Task.Event.{TaskType}
use value_stream_simulator.Task.History.{new_history}
use value_stream_simulator.Task.Delivery.{Task}
use value_stream_simulator.Simulation.Policy.{
  task_priority, task_priority_lem, first_list, second_list, neither, rank, supports,
}

abbrev task : TaskType → Task naturals
task kind = record {
  task_name = none;
  initial_value = 100;
  story_points = 8;
  creation_sim_t = 3;
  depreciation_rate = 0;
  task_type = kind;
  history = new_history naturals 3;
  task_id = 1;
  is_rework = false;
}

abbrev urgent : List (Task naturals)
urgent = task TaskType.support ∷ []

abbrev regular : List (Task naturals)
regular = task TaskType.development ∷ task TaskType.development ∷ []

task_priority_lem_example : task_priority regular urgent ≡ (
    if ltb (rank urgent) (rank regular)
    then first_list
    else if ltb (rank regular) (rank urgent)
    then second_list
    else if supports regular
    then first_list
    else neither)
task_priority_lem_example = task_priority_lem regular urgent
