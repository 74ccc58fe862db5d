-- ===== src/Export.antt =====
-- src/bbc_sim/export: the artifacts of a config for other tools.
mod Defs
pub mod Links
pub mod Things
unfoldable pub use Defs.*
