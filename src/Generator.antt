-- ===== src/Generator.antt =====
-- src/bbc_sim/yaml_generator/generator.py: the simulator.yaml model of a point list.
mod Defs
mod Build
pub mod Search
pub mod Assignment
pub mod Totals
pub mod Objects
pub mod Valid
pub mod Groups
pub mod MultiDevice
pub mod Network
unfoldable pub use Defs.*
unfoldable pub use Build.*
