-- ===== src/Yaml.antt =====
-- src/bbc_sim/yaml_generator/yaml_io.py: simulator.yaml as dicts, in both directions. The text of a
-- YAML file is outside.
mod Entries
mod Write
mod Read
mod Load
mod Files
pub mod RoundTrip
pub mod FileTrip
unfoldable pub use Entries.*
unfoldable pub use Write.*
unfoldable pub use Read.*
unfoldable pub use Load.*
unfoldable pub use Files.*
