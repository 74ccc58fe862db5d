-- ===== src/Mapping.antt =====
-- src/bbc_sim/yaml_generator/mapping.py: the BACnet object type of a point.
mod Defs
pub mod Inference
unfoldable pub use Defs.*
