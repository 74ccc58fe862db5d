-- ===== src/Cli/Pipeline.antt =====
-- What `generate-yaml` writes, `validate` accepts and `run` calls.
use bacnet_sim_gateway.Common.{
  String, ℤ, false, Option, none, some, List, [], ◌∷◌, map, Result, ok, raise, >>=-eq-ok, ◌≡◌, refl,
  sym, ◌∙◌, ◌++◌, length, All, ◌⊎◌, inl, inr, Option-cases,
}
use bacnet_sim_gateway.Models.{
  SbcoPoint, FloatOps, PointFilter, DeviceMappingMode, aggregated, multi_device, RuntimeMode,
  NetworkConfig, default_network, SimulatorConfig, MultiDeviceConfig,
}
use bacnet_sim_gateway.PointList.{Row, read_point_list}
use bacnet_sim_gateway.Mapping.{Warning}
use bacnet_sim_gateway.Generator.{generate_config, generate_multi_device_config}
use bacnet_sim_gateway.Generator.Network.{
  network-generate_config, network-generate_multi_device_config,
}
use bacnet_sim_gateway.Validate.{validate_config, validate_multi_device_config}
use bacnet_sim_gateway.Yaml.{
  YamlFile, multi_device_yaml, dump_config, dump_multi_device_config, validate_yaml,
}
use bacnet_sim_gateway.Yaml.RoundTrip.{IsForeignKept}
use bacnet_sim_gateway.Yaml.FileTrip.{
  AreForeignKept, load_config-dump_config, validate_yaml-dump_config,
  validate_yaml-dump_multi_device_config, load_config-dump_multi_device_config,
}
use bacnet_sim_gateway.Cli.Defs.{
  Line, Command, warning_line, wrote, wrote_devices, total_objects, runs, file_failed, CliError,
  starting, write_or_exit, finish_multi_device, finish_aggregated, generate_file, generate_yaml,
  override_mode, lacks_port, ui_lines, start_run, run_or_exit, run_cmd, config_line, device_line,
  default_object_name, read_or_fail,
}

module _ {F : Type 0} (fl : FloatOps F) where
  -- What `run` does with the file: of one device, it calls the runtime with its config, in the mode
  -- that is asked for; one of several devices is refused by the loader. The constructor of the runtime
  -- may still raise, as for a replay without a sequence.
  abbrev pub CallsRuntime : DeviceMappingMode → YamlFile F → Type 0
  CallsRuntime aggregated file =
      (config : SimulatorConfig F) × (validate_config config ≡ [])
      × ((mode : Option RuntimeMode) (rest_port : Option ℤ)
          → run_cmd fl file mode rest_port false
            ≡ ok (runs (starting ∷ []) (override_mode mode config)))
  CallsRuntime multi_device file =
      (mode : Option RuntimeMode) (rest_port : Option ℤ)
      → run_cmd fl file mode rest_port false ≡ raise (file_failed multi_device_yaml)

  abbrev pub IsWritten : DeviceMappingMode → Command F → Type 0
  IsWritten device_mapping command =
      (file : YamlFile F) × (command.written ≡ some file)
      × (command.exit_code ≡ 0)
      × (validate_yaml fl file ≡ ok [])
      × CallsRuntime device_mapping file

  abbrev pub IsRefused : Command F → Type 0
  IsRefused command = (command.written ≡ none) × (command.exit_code ≡ 1)

  run_cmd-start_run :
      (file : YamlFile F) (mode : Option RuntimeMode) (rest_port : Option ℤ)
      → validate_yaml fl file ≡ ok []
      → run_cmd fl file mode rest_port false ≡ start_run fl file mode rest_port false
  unfolding run_cmd run_or_exit
  run_cmd-start_run file mode rest_port valid = rw valid refl

  write_or_exit-IsWritten :
      {E : Type 0} (line : E → Line) (errors : List E) (notes : List Line) (file : YamlFile F)
      (done : Line) (device_mapping : DeviceMappingMode)
      → (errors ≡ [] → (validate_yaml fl file ≡ ok []) × CallsRuntime device_mapping file)
      → IsWritten device_mapping (write_or_exit notes (map line errors) file done)
        ⊎ IsRefused (write_or_exit notes (map line errors) file done)
  unfolding write_or_exit
  write_or_exit-IsWritten line [] notes file done device_mapping good =
      (let (valid, calls) = good refl in inl (file, refl, refl, valid, calls))
  write_or_exit-IsWritten line (e ∷ errors) notes file done device_mapping good = inr (refl, refl)

  default_network-IsForeignKept : (net : NetworkConfig) → net ≡ default_network → IsForeignKept net
  default_network-IsForeignKept net e = rw e (inl (refl, refl))

  default_network-AreForeignKept :
      (devices : List (SimulatorConfig F))
      → All (λ dev. dev.network ≡ default_network) devices
      → AreForeignKept devices
  default_network-AreForeignKept [] h = tt
  default_network-AreForeignKept (dev ∷ devices) h =
      (default_network-IsForeignKept dev.network h.0, default_network-AreForeignKept devices h.1)

  same_result : {c d : Command F} (r : Result CliError (Command F)) → r ≡ ok c → r ≡ ok d → c ≡ d
  same_result r e e' = cc

  finish_aggregated-IsWritten :
      (notes : List Line) (config : SimulatorConfig F) (warnings : List Warning)
      (command : Command F)
      → config.network ≡ default_network
      → finish_aggregated notes (some (config, warnings)) ≡ ok command
      → IsWritten aggregated command ⊎ IsRefused command
  unfolding finish_aggregated start_run lacks_port ui_lines
  finish_aggregated-IsWritten notes config warnings command network h =
      let kept = default_network-IsForeignKept config.network network in
      let file = dump_config config in
      let good : validate_config config ≡ []
          → (validate_yaml fl file ≡ ok []) × CallsRuntime aggregated file =
        λ valid.
          let accepted : validate_yaml fl file ≡ ok [] =
            rw (validate_yaml-dump_config fl config kept, valid) refl in
          (
            accepted,
            (
              config,
              valid,
              λ mode rest_port.
                  run_cmd-start_run file mode rest_port accepted
                  ∙ rw (load_config-dump_config fl config kept) refl,
            ),
          ) in
      let all =
        write_or_exit-IsWritten config_line (validate_config config)
          (notes ++ map warning_line warnings) file (wrote (length config.objects)) aggregated
          good in
      rw (sym (same_result _ refl h)) all

  finish_multi_device-IsWritten :
      (notes : List Line) (devices : List (SimulatorConfig F)) (warnings : List Warning)
      (command : Command F)
      → All (λ dev. dev.network ≡ default_network) devices
      → finish_multi_device notes
          (some (record { devices = devices; device_mapping = multi_device }, warnings))
        ≡ ok command
      → IsWritten multi_device command ⊎ IsRefused command
  unfolding finish_multi_device start_run lacks_port
  finish_multi_device-IsWritten notes devices warnings command network h =
      let kept = default_network-AreForeignKept devices network in
      let config : MultiDeviceConfig F = record {
        devices = devices;
        device_mapping = multi_device;
      } in
      let file = dump_multi_device_config config in
      let good : validate_multi_device_config config ≡ []
          → (validate_yaml fl file ≡ ok []) × CallsRuntime multi_device file =
        λ valid.
          let accepted : validate_yaml fl file ≡ ok [] =
            rw (validate_yaml-dump_multi_device_config fl devices kept, valid) refl in
          (
            accepted,
            λ mode rest_port.
                run_cmd-start_run file mode rest_port accepted
                ∙ rw (load_config-dump_multi_device_config fl config) refl,
          ) in
      let all =
        write_or_exit-IsWritten device_line (validate_multi_device_config config)
          (notes ++ map warning_line warnings) file
          (wrote_devices (length devices) (total_objects devices)) multi_device good in
      rw (sym (same_result _ refl h)) all

  no_result :
      (notes : List Line) (command : Command F)
      → finish_aggregated {F = F} notes none ≡ ok command
      → ⊥
  unfolding finish_aggregated
  no_result notes command h = cc

  no_devices_result :
      (notes : List Line) (command : Command F)
      → finish_multi_device {F = F} notes none ≡ ok command
      → ⊥
  unfolding finish_multi_device
  no_devices_result notes command h = cc

  generate_file-IsWritten :
      (device_mapping : DeviceMappingMode) (notes : List Line) (points : List (SbcoPoint F))
      (bbc_id : String) (device_id : ℤ) (update_mode : Option String) (command : Command F)
      → generate_file fl device_mapping notes points bbc_id device_id update_mode ≡ ok command
      → IsWritten device_mapping command ⊎ IsRefused command
  unfolding generate_file
  generate_file-IsWritten aggregated notes points bbc_id device_id update_mode command h =
      elim (Option-cases
        (generate_config fl points bbc_id device_id default_object_name update_mode)) [
          | inl failed ↦
              (let none_made = rw failed at h in absurd (no_result notes command none_made))
          | inr ((config, warnings), made) ↦
              finish_aggregated-IsWritten notes config warnings command
                (network-generate_config fl update_mode points bbc_id device_id default_object_name
                  config warnings made)
                (rw made at h)
        ]
  generate_file-IsWritten multi_device notes points bbc_id device_id update_mode command h =
      elim (Option-cases
        (generate_multi_device_config fl points bbc_id device_id default_object_name update_mode)) [
          | inl failed ↦
              (let none_made = rw failed at h in absurd (no_devices_result notes command none_made))
          | inr ((config, warnings), made) ↦
              let (network, single) =
                network-generate_multi_device_config fl update_mode points bbc_id device_id
                  default_object_name config warnings made in
              let result = rw made at h in
              finish_multi_device-IsWritten notes config.devices warnings command network
                (rw (sym single) result)
        ]

  -- A `generate-yaml` that ends without an exception has written a file and exits with 0, or has
  -- written none and exits with 1. The file is accepted by `validate_yaml`. With a file of
  -- one device, `run` without `--ui` calls the runtime with a config that has no validation errors,
  -- in the mode that is asked for; whether a runtime can be built from that config is not said. A file
  -- of several devices makes `run` raise a ValueError.
  pub generate_yaml-run_cmd :
      (header : List String) (rows : List Row) (bbc_id : String) (device_id : ℤ)
      (point_filter : PointFilter) (device_mapping : DeviceMappingMode)
      (update_mode : Option String) (command : Command F)
      → generate_yaml fl header rows bbc_id device_id point_filter device_mapping update_mode
        ≡ ok command
      → IsWritten device_mapping command ⊎ IsRefused command
  unfolding generate_yaml
  generate_yaml-run_cmd header rows bbc_id device_id point_filter device_mapping update_mode command
        h =
      let (points, read, made) = >>=-eq-ok (read_or_fail (read_point_list fl header rows)) _ h in
      generate_file-IsWritten device_mapping _ _ bbc_id device_id update_mode command made
