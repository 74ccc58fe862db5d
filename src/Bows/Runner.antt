-- ===== src/Bows/Runner.antt =====
-- src/bbc_sim/bows/runner.py: the connector that polls a device and publishes what it reads.
mod Defs
pub mod Shutdown
pub mod Polls
unfoldable pub use Defs.*
