-- ===== src/Bows/Downlink.antt =====
-- src/bbc_sim/bows/downlink: control commands from Building OS as BACnet writes.
mod Defs
pub mod Execution
pub mod Stream
pub mod Client
unfoldable pub use Defs.*
