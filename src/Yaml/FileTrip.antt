-- ===== src/Yaml/FileTrip.antt =====
-- A config that is dumped is loaded again, and validated as it was.
use bacnet_sim_gateway.Common.{false, string_eq, List, [], ◌∷◌, map, ok, raise, ◌≡◌, refl, All}
use bacnet_sim_gateway.Models.{
  FloatOps, get_field, multi_device, SimulatorConfig, MultiDeviceConfig,
}
use bacnet_sim_gateway.Validate.{validate_config, validate_multi_device_config}
use bacnet_sim_gateway.Yaml.Write.{config_to_dict, config_entries}
use bacnet_sim_gateway.Yaml.Load.{dict_or_default}
use bacnet_sim_gateway.Yaml.Files.{
  multi_device_yaml, in_config, in_devices, safe_load, has_devices, dump_config, device_items,
  dump_multi_device_config, value_to_config, devices_of_items, devices_of, multi_of_value,
  load_multi_device_config, config_of_value, load_config, issues_of, validate_value, validate_yaml,
}
use bacnet_sim_gateway.Yaml.RoundTrip.{IsForeignKept, dict_to_config-config_to_dict}

-- the foreign device of every config is kept
abbrev pub AreForeignKept : {F : Type 0} → List (SimulatorConfig F) → Type 0
AreForeignKept = All (λ dev. IsForeignKept dev.network)

module _ {F : Type 0} (fl : FloatOps F) where
  no_devices : (config : SimulatorConfig F) → has_devices (config_to_dict config) ≡ false
  unfolding has_devices get_field config_to_dict config_entries
  no_devices config = refl

  pub load_config-dump_config :
      (config : SimulatorConfig F)
      → IsForeignKept config.network
      → load_config fl (dump_config config) ≡ ok config
  unfolding load_config dump_config safe_load config_of_value
  load_config-dump_config config kept =
      rw (no_devices config, dict_to_config-config_to_dict fl config kept)

  pub validate_yaml-dump_config :
      (config : SimulatorConfig F)
      → IsForeignKept config.network
      → validate_yaml fl (dump_config config) ≡ ok (map in_config (validate_config config))
  unfolding validate_yaml dump_config validate_value issues_of
  validate_yaml-dump_config config kept =
      rw (no_devices config, dict_to_config-config_to_dict fl config kept)

  devices_back :
      (devices : List (SimulatorConfig F))
      → AreForeignKept devices
      → devices_of_items fl (device_items devices) ≡ ok devices
  unfolding devices_of_items device_items value_to_config dict_or_default
  devices_back [] kept = refl
  devices_back (dev ∷ devices) kept =
      rw (dict_to_config-config_to_dict fl dev kept.0, devices_back devices kept.1)

  pub load_multi_device_config-dump_multi_device_config :
      (devices : List (SimulatorConfig F))
      → AreForeignKept devices
      → load_multi_device_config fl
          (dump_multi_device_config (record { devices = devices; device_mapping = multi_device }))
        ≡ ok (record { devices = devices; device_mapping = multi_device })
  unfolding load_multi_device_config dump_multi_device_config safe_load multi_of_value
      dict_or_default get_field devices_of
  load_multi_device_config-dump_multi_device_config devices kept =
      rw (devices_back devices kept) refl

  pub validate_yaml-dump_multi_device_config :
      (devices : List (SimulatorConfig F))
      → AreForeignKept devices
      → validate_yaml fl
          (dump_multi_device_config (record { devices = devices; device_mapping = multi_device }))
        ≡ ok (
            map in_devices (
              validate_multi_device_config
                (record { devices = devices; device_mapping = multi_device })))
  unfolding validate_yaml dump_multi_device_config validate_value has_devices issues_of
      multi_of_value dict_or_default get_field devices_of
  validate_yaml-dump_multi_device_config devices kept = rw (devices_back devices kept) refl

  -- the file of several devices is refused by the loader of one
  pub load_config-dump_multi_device_config :
      (config : MultiDeviceConfig F)
      → load_config fl (dump_multi_device_config config) ≡ raise multi_device_yaml
  unfolding load_config dump_multi_device_config safe_load config_of_value has_devices get_field
  load_config-dump_multi_device_config config = refl
