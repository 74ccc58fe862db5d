-- ===== src/Tests/Commands.antt =====
-- The properties of the command line at concrete inputs.
use bacnet_sim_gateway.Common.{
  ℕ, string_eq, ℤ, true, false, none, some, List, [], ◌∷◌, Result, ok, ◌≡◌, refl, arith, All, ◌⊎◌,
  traverse,
}
use bacnet_sim_gateway.Common.Dict.{lookup}
use bacnet_sim_gateway.Common.Text.{strip, lstrip, rstrip, lower}
use bacnet_sim_gateway.Models.{
  BacnetObjectType, SbcoPoint, bacnet_rows, multi_device, is_multistate,
}
use bacnet_sim_gateway.PointList.{
  Row, read_point_list, required_columns, missing_in, row_to_point, cell, norm_bool, opt_int,
  opt_float, read_scale, split_labels, check_points,
}
use bacnet_sim_gateway.Mapping.{normalize_object_type}
use bacnet_sim_gateway.Generator.Valid.{IsLabelled}
use bacnet_sim_gateway.Cli.{Command, CliError, generate_yaml}
use bacnet_sim_gateway.Cli.Pipeline.{IsWritten, IsRefused, generate_yaml-run_cmd}
use bacnet_sim_gateway.Cli.Accepted.{Writes, generate_yaml-Writes}
use bacnet_sim_gateway.Tests.Samples.{ops, point}

analog_only :
    (t : BacnetObjectType)
    → normalize_object_type "analogValue" ≡ some t
    → is_multistate t ≡ true
    → true ≡ false
unfolding normalize_object_type is_multistate lookup strip lstrip rstrip lower
analog_only t e m = ground arith

-- a row with an analog value, which belongs to a device
abbrev rows : List Row
rows =
    (("gateway_id", some "gw")
      ∷ ("device_id", some "dev")
      ∷ ("device_name", some "AHU")
      ∷ ("device_type", some "AHU")
      ∷ ("point_type", some "Temperature")
      ∷ ("point_specification", some "measurement")
      ∷ ("point_id", some "p1")
      ∷ ("point_name", some " p1 ")
      ∷ ("writable", some "yes")
      ∷ ("device_id_bacnet", some "1")
      ∷ ("object_type_bacnet", some "analogValue")
      ∷ [])
    ∷ []

abbrev row_points : List (SbcoPoint ℕ)
row_points = point "p1" "analogValue" none [] ∷ []

rows_read : read_point_list ops required_columns rows ≡ ok row_points
unfolding read_point_list missing_in traverse row_to_point cell norm_bool opt_int opt_float
    read_scale split_labels strip lstrip rstrip lower lookup
rows_read = refl

no_issues : check_points [] row_points ≡ []
unfolding check_points
no_issues = refl

labelled : All IsLabelled row_points
unfolding strip rstrip lstrip
labelled = (analog_only, tt)

abbrev generated : Result CliError (Command ℕ)
generated =
    generate_yaml ops required_columns rows "BBC" (ℤ.pos 1) bacnet_rows multi_device (some "static")

generate_yaml-Writes_example : Writes ops generated
generate_yaml-Writes_example =
    generate_yaml-Writes ops required_columns rows row_points "BBC" (ℤ.pos 1) bacnet_rows
      multi_device (some "static") rows_read no_issues labelled refl

written_command : Writes ops generated
written_command =
    generate_yaml-Writes ops required_columns rows row_points "BBC" (ℤ.pos 1) bacnet_rows
      multi_device (some "static") rows_read no_issues labelled refl

generate_yaml-run_cmd_example :
    IsWritten ops multi_device written_command.0 ⊎ IsRefused ops written_command.0
generate_yaml-run_cmd_example =
    generate_yaml-run_cmd ops required_columns rows "BBC" (ℤ.pos 1) bacnet_rows multi_device
      (some "static") written_command.0 written_command.2
