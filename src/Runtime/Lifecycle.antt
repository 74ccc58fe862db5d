-- ===== src/Runtime/Lifecycle.antt =====
-- src/bbc_sim/simulator_runtime/runtime.py: the subsystems of a run, and their start and stop.
mod Defs
pub mod Clean
unfoldable pub use Defs.*
