-- ===== src/Simulation.antt =====
-- src/value_stream/simulation: the policy of a simulation.
pub mod Policy
