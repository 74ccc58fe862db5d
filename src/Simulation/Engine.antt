-- ===== src/Simulation/Engine.antt =====
-- src/bbc_sim/simulation/engine.py: the engine that ticks the generators.
mod Defs
pub mod Frozen
unfoldable pub use Defs.*
