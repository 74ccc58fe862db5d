-- ===== src/Simulation/Fault.antt =====
-- src/bbc_sim/simulation/fault.py: injected faults.
mod Defs
pub mod Suppression
unfoldable pub use Defs.*
