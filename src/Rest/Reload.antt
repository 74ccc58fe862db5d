-- ===== src/Rest/Reload.antt =====
-- src/bbc_sim/rest/reload.py: the reload of a config into the running device.
mod Defs
mod Apply
pub mod Diff
pub mod Validity
unfoldable pub use Defs.*
unfoldable pub use Apply.*
