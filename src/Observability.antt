-- ===== src/Observability.antt =====
-- src/bbc_sim/observability: what the admin interface shows of the running program.
pub mod LogBuffer
