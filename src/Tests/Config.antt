-- ===== src/Tests/Config.antt =====
-- The properties of point lists, generation and validation at concrete inputs.
use bacnet_sim_gateway.Common.{
  ℕ, nat_eq, String, string_eq, ℤ, int_eq, pair_eq, true, false, none, some, List, [], ◌∷◌, ◌≡◌,
  ◌↔◌, refl, ok, arith, All, leb, ◌⊎◌,
}
use bacnet_sim_gateway.Common.Dict.{lookup, insert}
use bacnet_sim_gateway.Common.Text.{strip, lstrip, rstrip, lower}
use bacnet_sim_gateway.Models.{
  BacnetObjectType, object_type_beq, object_type_eq, analog_value, SimulatorConfig, SbcoPoint,
  is_multistate,
}
use bacnet_sim_gateway.PointList.{
  read_point_list, validate_point_list, check_points, required_columns,
}
use bacnet_sim_gateway.PointList.Issues.{validate_point_list-HasDistinctIds, HasDistinctIds}
use bacnet_sim_gateway.Mapping.{Warning, normalize_object_type, resolve_object_type}
use bacnet_sim_gateway.Mapping.Inference.{
  resolve_object_type-is_output, resolve_object_type-is_multistate,
}
use bacnet_sim_gateway.Generator.{
  Pairs, assign_instances, auto_pass, explicit_pass, try_explicit, record_instance, free_instance,
  mark_used, generate_config, next_free,
}
use bacnet_sim_gateway.Generator.Search.{IsLeastFree, next_free-IsLeastFree}
use bacnet_sim_gateway.Generator.Totals.{
  Numbered, assign_instances_total, assign_instances-explicit, assign_instances-distinct,
}
use bacnet_sim_gateway.Generator.Valid.{generate_config-valid}
use bacnet_sim_gateway.Validate.{validate_config}
use bacnet_sim_gateway.Validate.Exact.{IsValidModel, validate_config-IsValidModel}
use bacnet_sim_gateway.Tests.Samples.{ops, point, points, config}

-- the two analog points name a type that has no states
analog_only :
    (t : BacnetObjectType)
    → normalize_object_type "analogValue" ≡ some t
    → is_multistate t ≡ true
    → true ≡ false
unfolding normalize_object_type is_multistate lookup strip lstrip rstrip lower
analog_only t e m = ground arith

generate_config-valid_example :
    (generated : SimulatorConfig ℕ) × (warnings : List Warning) × (generate_config ops points
        "BBC-1"
        (ℤ.pos 1)
        "Virtual"
        (some "static")
      ≡ some (generated, warnings))
    × (validate_config generated ≡ [])
unfolding check_points strip rstrip lstrip
generate_config-valid_example =
    generate_config-valid ops (some "static") points "BBC-1" (ℤ.pos 1) "Virtual" refl
      (analog_only, (analog_only, ((λ t e m. refl), tt))) refl

validate_config-IsValidModel_example : (validate_config config ≡ []) ↔ IsValidModel config
validate_config-IsValidModel_example = validate_config-IsValidModel config

abbrev pairs : Pairs ℕ
pairs =
    (point "p1" "" (some (ℤ.pos 1)) [], analog_value) ∷ (point "p2" "" none [], analog_value) ∷ []

assign_instances_total_example : All (Numbered (assign_instances pairs).result) pairs
assign_instances_total_example = assign_instances_total pairs

assign_instances-explicit_example : lookup "p1" (assign_instances pairs).result ≡ some (ℤ.pos 1)
assign_instances-explicit_example =
    assign_instances-explicit [] (point "p1" "" (some (ℤ.pos 1)) []) analog_value (ℤ.pos 1)
      ((point "p2" "" none [], analog_value) ∷ []) refl tt refl

abbrev second : String
second = "p2"

assign_instances-distinct_example : second ≡ second
unfolding assign_instances lookup auto_pass explicit_pass try_explicit record_instance insert
    free_instance next_free mark_used object_type_beq
assign_instances-distinct_example =
    assign_instances-distinct pairs (refl, (refl, tt)) second second analog_value (ℤ.pos 2) refl
      refl refl refl

next_free-IsLeastFree_example : IsLeastFree 1 (ℤ.pos 1 ∷ []) (next_free 2 1 (ℤ.pos 1 ∷ []))
next_free-IsLeastFree_example = next_free-IsLeastFree 1 (ℤ.pos 1 ∷ [])

resolve_object_type-is_output_example :
    normalize_object_type (strip "analogOutput")
    ≡ some (resolve_object_type (point "p" "analogOutput" none [])).0
unfolding resolve_object_type normalize_object_type lookup strip lstrip rstrip lower
resolve_object_type-is_output_example =
    resolve_object_type-is_output (point "p" "analogOutput" none []) refl

resolve_object_type-is_multistate_example :
    (normalize_object_type (strip "multiStateValue")
      ≡ some (resolve_object_type (point "p" "multiStateValue" none [])).0)
    ⊎ (leb 3 0 ≡ true)
unfolding resolve_object_type normalize_object_type lookup strip lstrip rstrip lower is_multistate
resolve_object_type-is_multistate_example =
    resolve_object_type-is_multistate (point "p" "multiStateValue" none []) refl

validate_point_list-HasDistinctIds_example :
    (validate_point_list ops required_columns [] ≡ ok []) ↔ (
      (ps : List (SbcoPoint ℕ)) × (read_point_list ops required_columns [] ≡ ok ps)
      × HasDistinctIds ps)
validate_point_list-HasDistinctIds_example =
    validate_point_list-HasDistinctIds ops required_columns []
