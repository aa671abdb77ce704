-- ===== src/Workflow/Sdlc.antt =====
-- src/value_stream/workflow/sdlc_workflow.py: the states of the workflow, and how `start` wires the
-- stores, the operators and their routers. A store has the number of its state.
pub mod Journey
mod Examples
use Prim.Native.Nat.{ℕ}
use value_stream_simulator.Prelude.{Option, none, some}
use value_stream_simulator.Task.Event.{TaskType, EventStatus}
use value_stream_simulator.Task.Router.{Route, TaskRouter, store, status_router, type_router, route}

pub data WorkflowState : Type 0 where
  pending development dev_complete qa_testing qa_complete : WorkflowState
  deployment delivery support_pending support_complete : WorkflowState

abbrev pub number : WorkflowState → ℕ
number pending = 0
number development = 1
number dev_complete = 2
number qa_testing = 3
number qa_complete = 4
number deployment = 5
number delivery = 6
number support_pending = 7
number support_complete = 8

-- The state in which the operator that takes tasks from a store works on them.
unfoldable pub operator_of : WorkflowState → Option WorkflowState
operator_of pending = some development
operator_of dev_complete = some qa_testing
operator_of qa_complete = some deployment
operator_of _ = none

-- The router of each operator.
unfoldable pub router_of : WorkflowState → Option TaskRouter
router_of development =
    some (type_router (store (number support_complete)) (store (number dev_complete)))
router_of qa_testing = some (status_router (store (number qa_complete)) (store (number pending)))
router_of deployment = some (status_router (store (number delivery)) (store (number qa_complete)))
router_of _ = none

-- The store that a task goes to from a store, worked on with a status: none where no operator takes
-- tasks from the store.
unfoldable pub next_store : TaskType → WorkflowState → EventStatus → Option ℕ
next_store kind from status = elim (operator_of from) [
  | none ↦ none
  | some state ↦ elim (router_of state) [ none ↦ none | some r ↦ some (route kind r (some status)) ]
]
