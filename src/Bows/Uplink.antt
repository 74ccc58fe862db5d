-- ===== src/Bows/Uplink.antt =====
-- src/bbc_sim/bows: readings as messages for Building OS.
mod Defs
pub mod Frames
pub mod Client
unfoldable pub use Defs.*
