-- ===== src/Runtime/App.antt =====
-- src/bbc_sim/simulator_runtime/app.py: the application that enforces `writable`.
mod Defs
mod Handlers
pub mod Multiple
pub mod Laws
pub mod Safety
unfoldable pub use Defs.*
unfoldable pub use Handlers.*
