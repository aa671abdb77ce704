-- ===== src/Resources/Tracker/Examples.antt =====
-- A tracker of resource_tracker.py on native numbers.
use value_stream_simulator.Prelude.{◌≡◌, some, List, [], ◌∷◌}
use value_stream_simulator.Prelude.Naturals.{naturals}
use value_stream_simulator.Task.Event.{EventStatus}
use value_stream_simulator.Resources.Tracker.{new_tracker}
use value_stream_simulator.Resources.Tracker.Backlog.{
  Call, start_waiting_call, complete_waiting_call, start_work_call, complete_work_call, track_all,
  level, waiting_after, backlog_of_calls,
}

abbrev calls : List (Call naturals)
calls =
    start_waiting_call 4 1
    ∷ start_waiting_call 5 1
    ∷ complete_waiting_call 7 1 3
    ∷ start_work_call 7 1 0
    ∷ complete_work_call 9 1 EventStatus.failure (some 2)
    ∷ []

backlog_of_calls_example :
    level naturals
      (λ m. m.waiting)
      (track_all naturals calls (new_tracker naturals 3)).recorded_data
      0
    ≡ waiting_after naturals calls 0
backlog_of_calls_example = backlog_of_calls naturals 3 calls
