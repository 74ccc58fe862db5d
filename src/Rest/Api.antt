-- ===== src/Rest/Api.antt =====
-- src/bbc_sim/rest/api.py: the control plane of a running device.
mod Defs
mod Pages
pub mod Writes
pub mod Freeze
unfoldable pub use Defs.*
unfoldable pub use Pages.*
