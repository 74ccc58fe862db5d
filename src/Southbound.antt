-- ===== src/Southbound.antt =====
-- src/bbc_sim/southbound: bindings of objects to field protocols.
mod Address
mod Transform
mod Binding
mod Status
pub mod Transport
pub mod Commands
pub mod Telemetry
unfoldable pub use Address.*
unfoldable pub use Transform.*
unfoldable pub use Status.*
unfoldable pub use Binding.*
