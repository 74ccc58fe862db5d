-- ===== src/Validate.antt =====
-- `validate_config` and `validate_multi_device_config` of src/bbc_sim/yaml_generator/yaml_io.py.
mod Defs
pub mod Exact
unfoldable pub use Defs.*
