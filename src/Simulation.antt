-- ===== src/Simulation.antt =====
-- src/bbc_sim/simulation: faults, value generators and the engine that ticks them.
pub mod Fault
pub mod Generators
pub mod Engine
