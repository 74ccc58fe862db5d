-- ===== src/Observability/LogBuffer.antt =====
-- src/bbc_sim/observability/log_buffer.py: the ring buffer of log entries.
mod Defs
pub mod Kept
unfoldable pub use Defs.*
