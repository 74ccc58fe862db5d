-- ===== src/Services.antt =====
-- src/bbc_sim/services: the BACnet client and its commands.
mod Defs
pub mod Hybrid
pub mod Commands
unfoldable pub use Defs.*
