-- ===== src/Task/Router.antt =====
-- src/value_stream/task/task_router.py. A route is a store, named by a number, or a router; `route`
-- gives the store that the task is put in.
use Prim.Native.Nat.{ℕ}
use value_stream_simulator.Prelude.{Option, none, some}
use value_stream_simulator.Task.Event.{TaskType, EventStatus}

mutual
  pub data Route : Type 0 where
    store : ℕ → Route
    router : TaskRouter → Route

  pub data TaskRouter : Type 0 where
    default_router : Route → TaskRouter
    status_router : Route → Route → TaskRouter
    type_router : Route → Route → TaskRouter

unfoldable mutual
  pub send_to : TaskType → Route → Option EventStatus → ℕ
  send_to t (store s) status = s
  send_to t (router r) status = route t r status

  -- No status counts as a failure.
  pub route : TaskType → TaskRouter → Option EventStatus → ℕ
  route t (default_router r) status = send_to t r status
  route t (status_router on_success on_failure) (some EventStatus.success) =
      send_to t on_success (some EventStatus.success)
  route t (status_router on_success on_failure) (some EventStatus.failure) =
      send_to t on_failure (some EventStatus.failure)
  route t (status_router on_success on_failure) none = send_to t on_failure none
  route TaskType.support (type_router on_support on_development) status =
      send_to TaskType.support on_support status
  route TaskType.development (type_router on_support on_development) status =
      send_to TaskType.development on_development status
