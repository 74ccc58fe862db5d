-- ===== src/Cli/Defs.antt =====
-- The commands `generate-yaml`, `validate`, `validate-point-list` and `run`. A command is what it
-- prints, its exit code and the file that it writes.
use bacnet_sim_gateway.Common.{
  ℕ, ◌+◌, ◌-◌, String, ℤ, Bool, true, false, Option, none, some, List, [], ◌∷◌, ◌++◌, map, length,
  ◌==◌, nat_eq, Result, ok, raise, ◌>>=◌, if◌then◌else◌,
}
use bacnet_sim_gateway.Common.Text.{is_blank}
use bacnet_sim_gateway.Models.{
  SbcoPoint, FloatOps, PointFilter, bacnet_rows, all_rows, DeviceMappingMode, aggregated,
  multi_device, RuntimeMode, SimulatorConfig, MultiDeviceConfig,
}
use bacnet_sim_gateway.PointList.{ReadError, PointIssue, Row, read_point_list, validate_point_list}
use bacnet_sim_gateway.Mapping.{Warning}
use bacnet_sim_gateway.Generator.{generate_config, generate_multi_device_config}
use bacnet_sim_gateway.Validate.{
  ConfigError, DeviceError, validate_config, validate_multi_device_config,
}
use bacnet_sim_gateway.Yaml.{
  YamlFile, FileError, YamlIssue, dump_config, dump_multi_device_config, load_config, validate_yaml,
}

pub data Line : Type 0 where
  skipped : ℕ → Line
  warning_line : Warning → Line
  config_line : ConfigError → Line
  device_line : DeviceError → Line
  point_line : PointIssue → Line
  yaml_line : YamlIssue → Line
  wrote_devices : ℕ → ℕ → Line
  wrote : ℕ → Line
  is_valid : Line
  ui_needs_port : Line
  starting : Line
  admin_ui : ℤ → Line

-- an exception that leaves a command
pub data CliError : Type 0 where
  read_failed : ReadError → CliError
  key_error : CliError
  file_failed : FileError → CliError

pub record Command (F : Type 0) : Type 0 where
  pub lines : List Line
  pub exit_code : ℕ
  pub written : Option (YamlFile F)

abbrev pub read_or_fail : {A : Type 0} → Result ReadError A → Result CliError A
read_or_fail (ok a) = ok a
read_or_fail (raise e) = raise (read_failed e)

abbrev pub file_or_fail : {A : Type 0} → Result FileError A → Result CliError A
file_or_fail (ok a) = ok a
file_or_fail (raise e) = raise (file_failed e)

abbrev pub default_object_name : String
default_object_name = "Local Virtual B-BC"

module _ {F : Type 0} where
  -- `[p for p in points if p.device_id_bacnet]`
  unfoldable pub with_device : List (SbcoPoint F) → List (SbcoPoint F)
  with_device [] = []
  with_device (p ∷ points) =
      if is_blank p.device_id_bacnet then with_device points else p ∷ with_device points

  unfoldable pub filter_points : PointFilter → List (SbcoPoint F) → List (SbcoPoint F)
  filter_points bacnet_rows points = with_device points
  filter_points all_rows points = points

  -- the message of the filter, with the number of the points that it leaves out
  unfoldable pub skip_lines : PointFilter → List (SbcoPoint F) → List Line
  skip_lines all_rows points = []
  skip_lines bacnet_rows points =
      let count = length points - length (with_device points) in
      if count == 0 then [] else skipped count ∷ []

  unfoldable pub total_objects : List (SimulatorConfig F) → ℕ
  total_objects [] = 0
  total_objects (dev ∷ devices) = length dev.objects + total_objects devices

  -- errors are printed and end the command with 1; without errors the file is written
  unfoldable pub write_or_exit : List Line → List Line → YamlFile F → Line → Command F
  write_or_exit notes [] file done = record {
    lines = notes ++ done ∷ [];
    exit_code = 0;
    written = some file;
  }
  write_or_exit notes (e ∷ errors) file done = record {
    lines = notes ++ e ∷ errors;
    exit_code = 1;
    written = none;
  }

  unfoldable pub finish_multi_device :
      List Line → Option (MultiDeviceConfig F × List Warning) → Result CliError (Command F)
  finish_multi_device notes none = raise key_error
  finish_multi_device notes (some (config, warnings)) = ok (
      write_or_exit (notes ++ map warning_line warnings)
        (map device_line (validate_multi_device_config config)) (dump_multi_device_config config)
        (wrote_devices (length config.devices) (total_objects config.devices)))

  unfoldable pub finish_aggregated :
      List Line → Option (SimulatorConfig F × List Warning) → Result CliError (Command F)
  finish_aggregated notes none = raise key_error
  finish_aggregated notes (some (config, warnings)) = ok (
      write_or_exit (notes ++ map warning_line warnings) (map config_line (validate_config config))
        (dump_config config) (wrote (length config.objects)))

  -- `_report`
  unfoldable pub report : List Line → Command F
  report [] = record { lines = is_valid ∷ []; exit_code = 0; written = none }
  report (e ∷ errors) = record { lines = e ∷ errors; exit_code = 1; written = none }

  -- `if mode is not None: cfg.mode = mode`
  unfoldable pub override_mode : Option RuntimeMode → SimulatorConfig F → SimulatorConfig F
  override_mode none config = config
  override_mode (some mode) config = record {
    bbc = config.bbc;
    network = config.network;
    objects = config.objects;
    mode = mode;
  }

-- `run_cmd` exits, or calls `run` with a config, after some lines
pub data RunCall (F : Type 0) : Type 0 where
  exits : List Line → ℕ → RunCall F
  runs : List Line → SimulatorConfig F → RunCall F

unfoldable pub ui_lines : Bool → Option ℤ → List Line
ui_lines true (some port) = admin_ui port ∷ []
ui_lines _ _ = []

unfoldable pub lacks_port : Bool → Option ℤ → Bool
lacks_port true none = true
lacks_port _ _ = false

module _ {F : Type 0} (fl : FloatOps F) where
  unfoldable pub generate_file :
      DeviceMappingMode
      → List Line
      → List (SbcoPoint F)
      → String
      → ℤ
      → Option String
      → Result CliError (Command F)
  generate_file multi_device notes points bbc_id device_id update_mode =
      finish_multi_device notes
        (generate_multi_device_config fl points bbc_id device_id default_object_name update_mode)
  generate_file aggregated notes points bbc_id device_id update_mode =
      finish_aggregated notes
        (generate_config fl points bbc_id device_id default_object_name update_mode)

  unfoldable pub generate_yaml :
      List String
      → List Row
      → String
      → ℤ
      → PointFilter
      → DeviceMappingMode
      → Option String
      → Result CliError (Command F)
  generate_yaml header rows bbc_id device_id point_filter device_mapping update_mode = do
    points ← read_or_fail (read_point_list fl header rows)
    generate_file device_mapping (skip_lines point_filter points)
        (filter_points point_filter points) bbc_id device_id update_mode

  unfoldable pub validate : YamlFile F → Result CliError (Command F)
  validate file = do
    issues ← file_or_fail (validate_yaml fl file)
    ok (report (map yaml_line issues))

  unfoldable pub validate_pointlist_cmd : List String → List Row → Result CliError (Command F)
  validate_pointlist_cmd header rows = do
    issues ← read_or_fail (validate_point_list fl header rows)
    ok (report (map point_line issues))

  -- the command after a config that validates
  unfoldable pub start_run :
      YamlFile F → Option RuntimeMode → Option ℤ → Bool → Result CliError (RunCall F)
  start_run file mode rest_port ui =
      if lacks_port ui rest_port then ok (exits (ui_needs_port ∷ []) 1) else (do
        config ← file_or_fail (load_config fl file)
        ok (runs (starting ∷ ui_lines ui rest_port) (override_mode mode config)))

  unfoldable pub run_or_exit :
      List YamlIssue
      → YamlFile F
      → Option RuntimeMode
      → Option ℤ
      → Bool
      → Result CliError (RunCall F)
  run_or_exit [] file mode rest_port ui = start_run file mode rest_port ui
  run_or_exit (e ∷ errors) file mode rest_port ui = ok (exits (map yaml_line (e ∷ errors)) 1)

  unfoldable pub run_cmd :
      YamlFile F → Option RuntimeMode → Option ℤ → Bool → Result CliError (RunCall F)
  run_cmd file mode rest_port ui = do
    issues ← file_or_fail (validate_yaml fl file)
    run_or_exit issues file mode rest_port ui
