-- ===== src/Semantic.antt =====
-- src/bbc_sim/semantic/brick.py: BACnet tags from the Brick classes of a device and a point.
mod Defs
unfoldable pub use Defs.*
