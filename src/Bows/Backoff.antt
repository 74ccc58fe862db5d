-- ===== src/Bows/Backoff.antt =====
-- src/bbc_sim/bows/downlink/backoff.py: the delays between attempts to connect.
mod Defs
pub mod Bounds
unfoldable pub use Defs.*
