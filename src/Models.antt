-- ===== src/Models.antt =====
-- src/bbc_sim/models.py: the rows of a point list and the simulator.yaml intermediate model.
-- `F` stands for Python's float, whose operations the modules that compute with it take.
mod Enums
mod Values
mod Configs
mod Conversions
mod Compare
unfoldable pub use Enums.*
unfoldable pub use Values.*
unfoldable pub use Configs.*
unfoldable pub use Conversions.*
unfoldable pub use Compare.*
