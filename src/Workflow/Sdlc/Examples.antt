-- ===== src/Workflow/Sdlc/Examples.antt =====
-- A development task that fails its test once, and is delivered.
use value_stream_simulator.Prelude.{◌≡◌, ◌⊎◌, refl, true}
use value_stream_simulator.Task.Event.{TaskType, EventStatus}
use value_stream_simulator.Task.Router.{route}
use value_stream_simulator.Workflow.Sdlc.{
  pending, dev_complete, qa_complete, delivery, support_complete, operator_of, router_of,
  next_store,
}
use value_stream_simulator.Workflow.Sdlc.Journey.{
  Travels, enters, goes_on, untested, tested, travels_lem,
}

abbrev kind : TaskType
kind = TaskType.development

retested : Travels kind qa_complete true
unfolding operator_of router_of next_store route
retested =
    goes_on {from = dev_complete}
      (goes_on {from = pending}
        (goes_on {from = dev_complete}
          (goes_on {from = pending} enters (untested EventStatus.success (λ e. cc) refl))
          (tested EventStatus.failure refl refl))
        (untested EventStatus.success (λ e. cc) refl))
      (tested EventStatus.success refl refl)

delivered : Travels kind delivery true
unfolding operator_of router_of next_store route
delivered = goes_on {from = qa_complete} retested (untested EventStatus.success (λ e. cc) refl)

travels_lem_example :
    (delivery ≡ pending)
    ⊎ ((kind ≡ TaskType.support) × (delivery ≡ support_complete))
    ⊎ ((kind ≡ TaskType.development) × (delivery ≡ dev_complete))
    ⊎ ((kind ≡ TaskType.development)
        × ((delivery ≡ qa_complete) ⊎ (delivery ≡ delivery))
        × (true ≡ true))
travels_lem_example = travels_lem kind delivery true delivered
