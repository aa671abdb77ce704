-- ===== src/Workflow/Sdlc/Journey.antt =====
-- sdlc_workflow.py: the ways of a task through the stores.
use value_stream_simulator.Prelude.{◌≡◌, ◌≢◌, ◌⊎◌, Bool, true, false, some, arith}
use value_stream_simulator.Task.Event.{TaskType, EventStatus, is_success}
use value_stream_simulator.Task.Router.{route}
use value_stream_simulator.Workflow.Sdlc.{
  WorkflowState, pending, dev_complete, qa_testing, qa_complete, delivery, support_complete, number,
  operator_of, router_of, next_store,
}

-- One move of a task, with what was known of its quality test: that its last one succeeded.
pub data Moves (kind : TaskType) : (from to : WorkflowState) → (before after : Bool) → Type 0 where
  untested :
      {from to : WorkflowState} (status : EventStatus) {tested : Bool}
      → operator_of from ≢ some qa_testing
      → next_store kind from status ≡ some (number to)
      → Moves kind from to tested tested
  tested :
      {from to : WorkflowState} (status : EventStatus) {before : Bool}
      → operator_of from ≡ some qa_testing
      → next_store kind from status ≡ some (number to)
      → Moves kind from to before (is_success status)

-- The moves of a task from `pending`, where no test of it is known.
pub data Travels (kind : TaskType) : WorkflowState → Bool → Type 0 where
  enters : Travels kind pending false
  goes_on :
      {from to : WorkflowState} {before after : Bool}
      → Travels kind from before
      → Moves kind from to before after
      → Travels kind to after

-- Where a task can be, and what is then known of its test.
abbrev Stands : TaskType → WorkflowState → Bool → Type 0
Stands TaskType.development pending t = Unit
Stands TaskType.development dev_complete t = Unit
Stands TaskType.development qa_complete t = t ≡ true
Stands TaskType.development delivery t = t ≡ true
Stands TaskType.support pending t = Unit
Stands TaskType.support support_complete t = Unit
Stands _ _ t = ⊥

lands :
    (kind : TaskType) (from to : WorkflowState) (status : EventStatus) (t : Bool)
    → Stands kind from t
    → next_store kind from status ≡ some (number to)
    → operator_of from ≢ some qa_testing
    → Stands kind to t
unfolding next_store operator_of router_of route
lands kind from to status t h e other = ground arith

lands_tested :
    (kind : TaskType) (from to : WorkflowState) (status : EventStatus) (t : Bool)
    → Stands kind from t
    → next_store kind from status ≡ some (number to)
    → operator_of from ≡ some qa_testing
    → Stands kind to (is_success status)
unfolding next_store operator_of router_of route
lands_tested kind from to status t h e here = ground arith

travels-Stands :
    {kind : TaskType} {at : WorkflowState} {t : Bool} → Travels kind at t → Stands kind at t
travels-Stands {kind = TaskType.development} enters = tt
travels-Stands {kind = TaskType.support} enters = tt
travels-Stands {kind} (goes_on {from} {to} {before} j (untested status other e)) =
    lands kind from to status before (travels-Stands j) e other
travels-Stands {kind} (goes_on {from} {to} {before} j (tested status here e)) =
    lands_tested kind from to status before (travels-Stands j) e here

-- Whatever the outcomes of the work on it, and however often it fails, a task waits in `pending`, or
-- it is a support task that is complete, or a development task that waits for its test, or that
-- waits for deployment or is delivered, and then its last test succeeded.
pub travels_lem :
    (kind : TaskType) (at : WorkflowState) (t : Bool)
    → Travels kind at t
    → (at ≡ pending)
      ⊎ ((kind ≡ TaskType.support) × (at ≡ support_complete))
      ⊎ ((kind ≡ TaskType.development) × (at ≡ dev_complete))
      ⊎ ((kind ≡ TaskType.development) × ((at ≡ qa_complete) ⊎ (at ≡ delivery)) × (t ≡ true))
travels_lem kind at t j = known kind at t (travels-Stands j)
  where
    known :
        (kind : TaskType) (at : WorkflowState) (t : Bool)
        → Stands kind at t
        → (at ≡ pending)
          ⊎ ((kind ≡ TaskType.support) × (at ≡ support_complete))
          ⊎ ((kind ≡ TaskType.development) × (at ≡ dev_complete))
          ⊎ ((kind ≡ TaskType.development) × ((at ≡ qa_complete) ⊎ (at ≡ delivery)) × (t ≡ true))
    known kind at t h = ground arith
