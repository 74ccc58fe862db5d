-- ===== src/Southbound/Transport.antt =====
-- src/bbc_sim/southbound/transport.py, factory.py and the pure part of amqp.py.
mod Defs
pub mod Delivery
pub mod Factory
unfoldable pub use Defs.*
