-- ===== src/Bows/Reconnect.antt =====
-- The loop that `run_forever` of the downlink and of the uplink client share.
mod Defs
pub mod Ends
unfoldable pub use Defs.*
