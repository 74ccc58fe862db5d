-- ===== src/Bows/Acquire.antt =====
-- src/bbc_sim/bows/acquire.py: reading the objects of a device.
mod Defs
pub mod Points
unfoldable pub use Defs.*
