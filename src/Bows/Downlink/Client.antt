-- ===== src/Bows/Downlink/Client.antt =====
-- src/bbc_sim/bows/downlink/client.py: the client of GatewayEgress, and that it ends cleanly.
mod Defs
pub mod Shutdown
unfoldable pub use Defs.*
