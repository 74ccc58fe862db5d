-- ===== src/Validate/Defs.antt =====
-- The validators of src/bbc_sim/yaml_generator/yaml_io.py. The sets `seen_instances` and
-- `seen_points` are a function into lists and a list.
use bacnet_sim_gateway.Common.{
  ℕ, suc, String, string_eq, ℤ, int_eq, is_nonpositive, Bool, true, false, not, ◌&&◌, Option, none,
  some, List, [], ◌∷◌, ◌++◌, map, contains, is_empty, if◌then◌else◌,
}
use bacnet_sim_gateway.Models.{
  BacnetObjectType, object_type_eq, is_multistate, BindingDirection, telemetry, command, both,
  BindingSpec, BacnetObjectSpec, SimulatorConfig, MultiDeviceConfig,
}
use bacnet_sim_gateway.Generator.{Used, mark_used}

-- the messages, each with the values that its text shows
pub data ConfigError : Type 0 where
  device_not_positive : ConfigError
  duplicate_point : String → ConfigError
  duplicate_instance : BacnetObjectType → ℤ → ConfigError
  missing_state_text : String → ConfigError
  command_not_writable : String → ConfigError

unfoldable pub takes_commands : BindingDirection → Bool
takes_commands telemetry = false
takes_commands command = true
takes_commands both = true

module _ {F : Type 0} where
  unfoldable pub has_command_binding : Option (BindingSpec F) → Bool
  has_command_binding none = false
  has_command_binding (some b) = takes_commands b.direction

  -- the tests of one object that look at no other
  unfoldable pub object_errors : BacnetObjectSpec F → List ConfigError
  object_errors o =
      (if is_multistate o.object_type && is_empty o.state_text
        then missing_state_text o.point_id ∷ []
        else [])
      ++ (if has_command_binding o.binding && not o.writable
          then command_not_writable o.point_id ∷ []
          else [])

  -- the loop of `validate_config`
  unfoldable pub validate_objects :
      Used → List String → List (BacnetObjectSpec F) → List ConfigError
  validate_objects seen_instances seen_points [] = []
  validate_objects seen_instances seen_points (o ∷ objects) =
      (if contains seen_points o.point_id then duplicate_point o.point_id ∷ [] else [])
      ++ ((if contains (seen_instances o.object_type) o.object_instance
            then duplicate_instance o.object_type o.object_instance ∷ []
            else [])
          ++ (object_errors o
              ++ validate_objects (mark_used o.object_type o.object_instance seen_instances)
                  (o.point_id ∷ seen_points) objects))

  unfoldable pub validate_config : SimulatorConfig F → List ConfigError
  validate_config config =
      (if is_nonpositive config.bbc.device_id then device_not_positive ∷ [] else [])
      ++ validate_objects (λ t. []) [] config.objects

-- `device[{i}] ({bbc_id}): {e}`
pub data DeviceError : Type 0 where
  duplicate_device_id : ℕ → String → ℤ → DeviceError
  in_device : ℕ → String → ConfigError → DeviceError

module _ {F : Type 0} where
  unfoldable pub validate_devices : ℕ → List ℤ → List (SimulatorConfig F) → List DeviceError
  validate_devices i seen_device_ids [] = []
  validate_devices i seen_device_ids (dev ∷ devices) =
      (if contains seen_device_ids dev.bbc.device_id
        then duplicate_device_id i dev.bbc.bbc_id dev.bbc.device_id ∷ []
        else [])
      ++ (map (in_device i dev.bbc.bbc_id) (validate_config dev)
          ++ validate_devices (suc i) (dev.bbc.device_id ∷ seen_device_ids) devices)

  unfoldable pub validate_multi_device_config : MultiDeviceConfig F → List DeviceError
  validate_multi_device_config config = validate_devices 0 [] config.devices
