-- ===== src/BacnetObjects.antt =====
-- src/bbc_sim/bacnet_objects/builder.py: the BACnet objects of a config.
mod Defs
pub mod PresentValue
unfoldable pub use Defs.*
