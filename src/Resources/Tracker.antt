-- ===== src/Resources/Tracker.antt =====
-- src/value_stream/resources: `InMemoryResourceTracker` of resource_tracker.py and the record of
-- resource_metadata.py. `env.now` is an argument.
pub mod Backlog
mod Examples
use Prim.Native.Nat.{ℕ}
use value_stream_simulator.Prelude.{Option, none, some, List, [], ◌∷◌, ◌++◌}
use value_stream_simulator.Prelude.Int.{ℤ, pos, negsuc}
use value_stream_simulator.Prelude.Number.{Number}
use value_stream_simulator.Task.Event.{EventStatus}

module _ (n : Number) where
  pub record ResourceMetadata : Type 0 where
    pub time : n.Float
    pub state : ℕ
    pub waiting : ℤ
    pub allocated : ℤ
    pub active : ℤ
    pub success_t : Option n.Float
    pub failure_t : Option n.Float
    pub interruption_t : Option n.Float
    pub waiting_t : Option n.Float
    pub idle_t : Option n.Float

  -- `ResourceMetadata(time, state)`, with the defaults of the other fields.
  unfoldable pub metadata : n.Float → ℕ → ResourceMetadata
  metadata time state = record {
    time = time;
    state = state;
    waiting = pos 0;
    allocated = pos 0;
    active = pos 0;
    success_t = none;
    failure_t = none;
    interruption_t = none;
    waiting_t = none;
    idle_t = none;
  }

  pub record Tracker : Type 0 where
    pub epoch_t : n.Float
    pub recorded_data : List ResourceMetadata

  unfoldable pub new_tracker : n.Float → Tracker
  new_tracker now = record { epoch_t = now; recorded_data = [] }

  unfoldable pub append : ResourceMetadata → Tracker → Tracker
  append m t = record t { recorded_data = t.recorded_data ++ m ∷ [] }

  unfoldable pub at : n.Float → ℕ → Tracker → ResourceMetadata
  at now state t = metadata (n.sub now t.epoch_t) state

  unfoldable pub register : n.Float → ℕ → Tracker → Tracker
  register now state t = append (record (at now state t) { allocated = pos 1 }) t

  unfoldable pub start_work : n.Float → ℕ → n.Float → Tracker → Tracker
  start_work now state elapsed_t t =
      append (record (at now state t) { active = pos 1; idle_t = some elapsed_t }) t

  unfoldable pub complete_work : n.Float → ℕ → EventStatus → Option n.Float → Tracker → Tracker
  complete_work now state EventStatus.failure elapsed_t t =
      append (record (at now state t) { active = negsuc 0; failure_t = elapsed_t }) t
  complete_work now state EventStatus.success elapsed_t t =
      append (record (at now state t) { active = negsuc 0; success_t = elapsed_t }) t

  unfoldable pub interruption : n.Float → ℕ → n.Float → Tracker → Tracker
  interruption now state elapsed_t t =
      append (record (at now state t) { interruption_t = some elapsed_t }) t

  unfoldable pub start_waiting : n.Float → ℕ → Tracker → Tracker
  start_waiting now state t = append (record (at now state t) { waiting = pos 1 }) t

  unfoldable pub complete_waiting : n.Float → ℕ → n.Float → Tracker → Tracker
  complete_waiting now state waiting_t t =
      append (record (at now state t) { waiting = negsuc 0; waiting_t = some waiting_t }) t
