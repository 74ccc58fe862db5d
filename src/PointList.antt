-- ===== src/PointList.antt =====
-- src/bbc_sim/yaml_generator/pointlist.py: reading and validating an SBCO point list.
-- The csv module hands over the header and the rows, where a short row lacks a value.
mod Defs
pub mod Issues
unfoldable pub use Defs.*
