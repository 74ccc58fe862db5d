-- ===== src/Rest.antt =====
-- src/bbc_sim/rest: the management interface.
pub mod Reload
pub mod Status
pub mod Api
