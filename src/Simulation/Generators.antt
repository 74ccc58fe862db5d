-- ===== src/Simulation/Generators.antt =====
-- src/bbc_sim/simulation/generators.py: the value generators.
mod Defs
pub mod Walk
pub mod Sequence
unfoldable pub use Defs.*
