-- ===== src/Cli.antt =====
-- src/bbc_sim/cli.py and the command of src/bbc_sim/simulator_runtime/cli.py.
mod Defs
pub mod Pipeline
pub mod Accepted
unfoldable pub use Defs.*
