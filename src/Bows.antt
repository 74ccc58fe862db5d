-- ===== src/Bows.antt =====
-- src/bbc_sim/bows: the connector between the B-BC and Building OS.
pub mod Registry
pub mod Downlink
pub mod Uplink
pub mod Acquire
pub mod Backoff
pub mod Reconnect
pub mod Runner
