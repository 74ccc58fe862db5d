-- ===== src/Runtime.antt =====
-- src/bbc_sim/simulator_runtime: the running B-BC.
pub mod App
pub mod Lifecycle
