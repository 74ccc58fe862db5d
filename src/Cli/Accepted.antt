-- ===== src/Cli/Accepted.antt =====
-- A point list that validates is generated and written, whichever rows the filter takes.
use bacnet_sim_gateway.Common.{
  String, string_eq, ℤ, is_nonpositive, false, Option, some, List, [], ◌∷◌, contains, Result, ok,
  ◌≡◌, refl, arith, All, IsNodup, inl, inr, Bool-cases,
}
use bacnet_sim_gateway.Common.Text.{is_blank}
use bacnet_sim_gateway.Models.{
  SbcoPoint, FloatOps, PointFilter, bacnet_rows, all_rows, DeviceMappingMode, aggregated,
  multi_device,
}
use bacnet_sim_gateway.PointList.{Row, read_point_list, check_points}
use bacnet_sim_gateway.PointList.Issues.{row_ids, check_points-HasDistinctIds}
use bacnet_sim_gateway.Generator.Valid.{IsLabelled, generate_config-valid}
use bacnet_sim_gateway.Generator.MultiDevice.{generate_multi_device_config-valid}
use bacnet_sim_gateway.Yaml.{YamlFile}
use bacnet_sim_gateway.Cli.Defs.{
  Command, Line, CliError, write_or_exit, finish_multi_device, finish_aggregated, generate_file,
  generate_yaml, with_device, filter_points, skip_lines, default_object_name,
}

module _ {F : Type 0} where
  with_device-All :
      (P : SbcoPoint F → Type 0) (points : List (SbcoPoint F))
      → All P points
      → All P (with_device points)
  unfolding with_device
  with_device-All P [] h = tt
  with_device-All P (p ∷ points) h = elim (Bool-cases (is_blank p.device_id_bacnet)) [
    | inl blank ↦ rw blank (with_device-All P points h.1)
    | inr named ↦ rw named (h.0, with_device-All P points h.1)
  ]

  with_device-contains :
      (points : List (SbcoPoint F)) (id : String)
      → contains (row_ids points) id ≡ false
      → contains (row_ids (with_device points)) id ≡ false
  unfolding with_device
  with_device-contains [] id h = refl
  with_device-contains (p ∷ points) id h = let rest = with_device-contains points id in ground arith

  with_device-IsNodup :
      (points : List (SbcoPoint F))
      → IsNodup (row_ids points)
      → IsNodup (row_ids (with_device points))
  unfolding with_device
  with_device-IsNodup [] h = tt
  with_device-IsNodup (p ∷ points) h = elim (Bool-cases (is_blank p.device_id_bacnet)) [
    | inl blank ↦ rw blank (with_device-IsNodup points h.1)
    | inr named ↦
        rw named (with_device-contains points p.point_id h.0, with_device-IsNodup points h.1)
  ]

  check_points-filter_points :
      (point_filter : PointFilter) (points : List (SbcoPoint F))
      → check_points [] points ≡ []
      → check_points [] (filter_points point_filter points) ≡ []
  unfolding filter_points
  check_points-filter_points bacnet_rows points checked =
      let (named, distinct) = (check_points-HasDistinctIds points).0 checked in
      (check_points-HasDistinctIds (with_device points)).1
        (with_device-All _ points named, with_device-IsNodup points distinct)
  check_points-filter_points all_rows points checked = checked

  filter_points-All :
      (P : SbcoPoint F → Type 0) (point_filter : PointFilter) (points : List (SbcoPoint F))
      → All P points
      → All P (filter_points point_filter points)
  unfolding filter_points
  filter_points-All P bacnet_rows points h = with_device-All P points h
  filter_points-All P all_rows points h = h

module _ {F : Type 0} (fl : FloatOps F) where
  -- the command has written a file, and exits with 0
  abbrev pub Writes : Result CliError (Command F) → Type 0
  Writes r =
      (command : Command F) × (file : YamlFile F) × (r ≡ ok command)
      × (command.written ≡ some file)
      × (command.exit_code ≡ 0)

  generate_file-Writes :
      (device_mapping : DeviceMappingMode) (notes : List Line) (points : List (SbcoPoint F))
      (bbc_id : String) (device_id : ℤ) (update_mode : Option String)
      → check_points [] points ≡ []
      → All IsLabelled points
      → is_nonpositive device_id ≡ false
      → Writes (generate_file fl device_mapping notes points bbc_id device_id update_mode)
  unfolding generate_file finish_aggregated finish_multi_device write_or_exit
  generate_file-Writes aggregated notes points bbc_id device_id update_mode checked labelled
        positive =
      let (config, warnings, made, valid) =
        generate_config-valid fl update_mode points bbc_id device_id default_object_name checked
          labelled positive in
      rw (made, finish_aggregated, valid, write_or_exit) (_, _, refl, refl, refl)
  generate_file-Writes multi_device notes points bbc_id device_id update_mode checked labelled
        positive =
      let (config, warnings, made, valid) =
        generate_multi_device_config-valid fl update_mode points bbc_id device_id
          default_object_name checked labelled positive in
      rw (made, finish_multi_device, valid, write_or_exit) (_, _, refl, refl, refl)

  -- A point list that is read and validates, with labels for every explicit multi-state point, and a
  -- positive device id: `generate-yaml` writes a file and exits with 0, with either filter of the rows,
  -- with one device or several, and with any update mode.
  pub generate_yaml-Writes :
      (header : List String) (rows : List Row) (points : List (SbcoPoint F)) (bbc_id : String)
      (device_id : ℤ) (point_filter : PointFilter) (device_mapping : DeviceMappingMode)
      (update_mode : Option String)
      → read_point_list fl header rows ≡ ok points
      → check_points [] points ≡ []
      → All IsLabelled points
      → is_nonpositive device_id ≡ false
      → Writes
          (generate_yaml fl header rows bbc_id device_id point_filter device_mapping update_mode)
  unfolding generate_yaml
  generate_yaml-Writes header rows points bbc_id device_id point_filter device_mapping update_mode
        read checked labelled positive =
      rw read (
        generate_file-Writes device_mapping (skip_lines point_filter points)
          (filter_points point_filter points) bbc_id device_id update_mode
          (check_points-filter_points point_filter points checked)
          (filter_points-All IsLabelled point_filter points labelled) positive)
