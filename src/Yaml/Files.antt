-- ===== src/Yaml/Files.antt =====
-- `dump_config`, `load_config`, `validate_yaml` and the functions of several devices. A file is what
-- `yaml.safe_load` makes of its text, and `yaml.safe_dump` writes a text from which it is made again.
use bacnet_sim_gateway.Common.{
  string_eq, Bool, true, false, Option, none, some, List, [], ◌∷◌, map, Result, ok, raise, ◌>>=◌,
  if◌then◌else◌,
}
use bacnet_sim_gateway.Common.Text.{is_blank}
use bacnet_sim_gateway.Models.{
  Value, Fields, Items, FloatOps, ConversionError, get_field, MultiDeviceConfig, multi_device,
  device_mapping_text, SimulatorConfig,
}
use bacnet_sim_gateway.Validate.{
  ConfigError, DeviceError, validate_config, validate_multi_device_config,
}
use bacnet_sim_gateway.Yaml.Write.{config_to_dict}
use bacnet_sim_gateway.Yaml.Read.{LoadError, not_converted, not_a_dict, untyped, is_true}
use bacnet_sim_gateway.Yaml.Load.{dict_to_config, dict_or_default}

-- `unreadable` is a file that is missing or not in UTF-8, `not_yaml` one that has a YAMLError,
-- `bad_scalar` one of which `safe_load` raises a ValueError, as of the date 2024-13-45
pub data YamlFile (F : Type 0) : Type 0 where
  unreadable : YamlFile F
  not_yaml : YamlFile F
  bad_scalar : YamlFile F
  document : Value F → YamlFile F

-- `multi_device_yaml` is the ValueError of `load_config`
pub data FileError : Type 0 where
  not_read : FileError
  yaml_error : FileError
  scalar_error : FileError
  multi_device_yaml : FileError
  not_loaded : LoadError → FileError

-- the messages of `validate_yaml`; without a load error, the YAMLError
pub data YamlIssue : Type 0 where
  invalid_yaml : Option LoadError → YamlIssue
  in_config : ConfigError → YamlIssue
  in_devices : DeviceError → YamlIssue

module _ {F : Type 0} where
  unfoldable pub safe_load : YamlFile F → Result FileError (Value F)
  safe_load unreadable = raise not_read
  safe_load not_yaml = raise yaml_error
  safe_load bad_scalar = raise scalar_error
  safe_load (document v) = ok v

  -- `"devices" in data` of a dict
  unfoldable pub has_devices : Fields F → Bool
  has_devices d = elim (get_field "devices" d) [ none ↦ false | some v ↦ true ]

  unfoldable pub dump_config : SimulatorConfig F → YamlFile F
  dump_config config = document (Value.obj (config_to_dict config))

  unfoldable pub device_items : List (SimulatorConfig F) → Items F
  device_items [] = Items.nil
  device_items (dev ∷ devices) = Items.cons (Value.obj (config_to_dict dev)) (device_items devices)

  unfoldable pub dump_multi_device_config : MultiDeviceConfig F → YamlFile F
  dump_multi_device_config config = document (
      Value.obj (
        Fields.field "device_mapping" (Value.text (device_mapping_text config.device_mapping))
          (Fields.field "devices" (Value.arr (device_items config.devices)) Fields.end)))

abbrev loaded : {A : Type 0} → Result LoadError A → Result FileError A
loaded (ok a) = ok a
loaded (raise e) = raise (not_loaded e)

-- which exceptions the second `except` takes: no OverflowError; what an untyped value does is open
unfoldable pub is_caught : LoadError → Bool
is_caught (not_converted ConversionError.overflow) = false
is_caught untyped = false
is_caught _ = true

unfoldable pub issues_of :
    {A : Type 0} → (A → List YamlIssue) → Result LoadError A → Result FileError (List YamlIssue)
issues_of test (ok a) = ok (test a)
issues_of test (raise e) =
    if is_caught e then ok (invalid_yaml (some e) ∷ []) else raise (not_loaded e)

module _ {F : Type 0} where
  abbrev pub config_issues : SimulatorConfig F → List YamlIssue
  config_issues config = map in_config (validate_config config)

  abbrev pub device_issues : MultiDeviceConfig F → List YamlIssue
  device_issues config = map in_devices (validate_multi_device_config config)

module _ {F : Type 0} (fl : FloatOps F) where
  -- `d["bbc"]` of a value that is no dict is a TypeError
  unfoldable pub value_to_config : Value F → Result LoadError (SimulatorConfig F)
  value_to_config v = do d ← dict_or_default (some v); dict_to_config fl d

  unfoldable pub devices_of_items : Items F → Result LoadError (List (SimulatorConfig F))
  devices_of_items Items.nil = ok []
  devices_of_items (Items.cons v items) = do
    dev ← value_to_config v
    devices ← devices_of_items items
    ok (dev ∷ devices)

  -- the loop over `data.get("devices") or []`; no key and no character is a dict
  unfoldable pub devices_of : Option (Value F) → Result LoadError (List (SimulatorConfig F))
  devices_of none = ok []
  devices_of (some (Value.arr items)) = devices_of_items items
  devices_of (some (Value.obj (Fields.field k v d))) = raise not_a_dict
  devices_of (some (Value.text s)) = if is_blank s then ok [] else raise not_a_dict
  devices_of (some v) =
      if is_true fl v then raise (not_converted ConversionError.bad_type) else ok []

  unfoldable pub multi_of_value : Value F → Result LoadError (MultiDeviceConfig F)
  multi_of_value content = do
    d ← dict_or_default (some content)
    devices ← devices_of (get_field "devices" d)
    ok (record { devices = devices; device_mapping = multi_device })

  unfoldable pub load_multi_device_config : YamlFile F → Result FileError (MultiDeviceConfig F)
  load_multi_device_config file = do content ← safe_load file; loaded (multi_of_value content)

  unfoldable pub config_of_value : Value F → Result FileError (SimulatorConfig F)
  config_of_value (Value.obj d) =
      if has_devices d then raise multi_device_yaml else loaded (dict_to_config fl d)
  config_of_value content = loaded (value_to_config content)

  unfoldable pub load_config : YamlFile F → Result FileError (SimulatorConfig F)
  load_config file = do content ← safe_load file; config_of_value content

  -- of a value that is no dict, either `in`, `get` or the index of `dict_to_config` is a TypeError or
  -- an AttributeError
  unfoldable pub validate_value : Value F → Result FileError (List YamlIssue)
  validate_value (Value.obj d) =
      if has_devices d
      then issues_of device_issues (multi_of_value (Value.obj d))
      else issues_of config_issues (dict_to_config fl d)
  validate_value content = ok (invalid_yaml (some not_a_dict) ∷ [])

  unfoldable pub validate_yaml : YamlFile F → Result FileError (List YamlIssue)
  validate_yaml unreadable = raise not_read
  validate_yaml not_yaml = ok (invalid_yaml none ∷ [])
  validate_yaml bad_scalar = raise scalar_error
  validate_yaml (document content) = validate_value content
