-- ===== src/Mapping/Defs.antt =====
-- The functions of src/bbc_sim/yaml_generator/mapping.py.
use bacnet_sim_gateway.Common.{
  ℕ, String, ℤ, Bool, true, false, not, ◌&&◌, ◌||◌, Option, none, some, List, [], ◌∷◌, ◌++◌,
  list_eq, nat_eq, string_eq, ◌==◌, contains, leb, length, if◌then◌else◌,
}
use bacnet_sim_gateway.Common.Text.{codes, is_blank, strip, lower}
use bacnet_sim_gateway.Common.Dict.{Dict, lookup}
use bacnet_sim_gateway.Models.{
  BacnetObjectType, analog_input, analog_output, analog_value, binary_input, binary_output,
  binary_value, multi_state_input, multi_state_output, multi_state_value, SbcoPoint,
}
use bacnet_sim_gateway.Units.{to_bacnet_units, no_units}

abbrev pub explicit_aliases : Dict (List ℕ) BacnetObjectType
explicit_aliases =
    (codes "analog-input", analog_input)
    ∷ (codes "analoginput", analog_input)
    ∷ (codes "ai", analog_input)
    ∷ (codes "analog-output", analog_output)
    ∷ (codes "analogoutput", analog_output)
    ∷ (codes "ao", analog_output)
    ∷ (codes "analog-value", analog_value)
    ∷ (codes "analogvalue", analog_value)
    ∷ (codes "av", analog_value)
    ∷ (codes "binary-input", binary_input)
    ∷ (codes "binaryinput", binary_input)
    ∷ (codes "bi", binary_input)
    ∷ (codes "binary-output", binary_output)
    ∷ (codes "binaryoutput", binary_output)
    ∷ (codes "bo", binary_output)
    ∷ (codes "binary-value", binary_value)
    ∷ (codes "binaryvalue", binary_value)
    ∷ (codes "bv", binary_value)
    ∷ (codes "multi-state-input", multi_state_input)
    ∷ (codes "multistateinput", multi_state_input)
    ∷ (codes "mi", multi_state_input)
    ∷ (codes "multi-state-output", multi_state_output)
    ∷ (codes "multistateoutput", multi_state_output)
    ∷ (codes "mo", multi_state_output)
    ∷ (codes "multi-state-value", multi_state_value)
    ∷ (codes "multistatevalue", multi_state_value)
    ∷ (codes "mv", multi_state_value)
    ∷ []

unfoldable pub normalize_object_type : String → Option BacnetObjectType
normalize_object_type raw = lookup (lower (strip raw)) explicit_aliases

pub data Family : Type 0 where
  multi_state binary analog : Family

-- Inference yields a Value or an Input, never an Output.
unfoldable pub family_to_concrete : Family → Bool → BacnetObjectType
family_to_concrete multi_state true = multi_state_value
family_to_concrete multi_state false = multi_state_input
family_to_concrete binary true = binary_value
family_to_concrete binary false = binary_input
family_to_concrete analog true = analog_value
family_to_concrete analog false = analog_input

-- The warnings of the generator, each with the values that its text shows.
pub data Warning : Type 0 where
  unknown_object_type : String → String → Warning
  not_inferred : String → Warning
  inferred : String → BacnetObjectType → Warning
  implies_writable : String → String → Warning
  instance_in_use : String → BacnetObjectType → ℤ → Warning
  unknown_unit : String → String → Warning
  no_brick_mapping : String → String → String → Warning

abbrev analog_specs : List (List ℕ)
analog_specs = codes "measurement" ∷ codes "metering" ∷ codes "setpoint" ∷ []

abbrev binary_specs : List (List ℕ)
binary_specs = codes "status" ∷ codes "alarm" ∷ []

abbrev writable_specs : List (List ℕ)
writable_specs = codes "command" ∷ codes "setpoint" ∷ []

module _ {F : Type 0} where
  unfoldable pub consistency_warnings : SbcoPoint F → List Warning
  consistency_warnings point =
      let spec = lower (strip point.point_specification) in
      if contains writable_specs spec && not point.writable
      then implies_writable point.point_id point.point_specification ∷ []
      else []

  -- the family that the labels, the unit or the specification show
  unfoldable pub infer_family : SbcoPoint F → Family × List Warning
  infer_family point =
      let spec = lower (strip point.point_specification) in
      let has_numeric_unit = not ((to_bacnet_units point.unit).0 == no_units) in
      if leb 3 (length point.labels)
      then (multi_state, [])
      else if length point.labels == 2
      then (binary, [])
      else if has_numeric_unit || contains analog_specs spec
      then (analog, [])
      else if contains binary_specs spec
      then (binary, [])
      else (analog, not_inferred point.point_id ∷ [])

  -- the path without a usable explicit type, from the warnings so far
  unfoldable pub infer_object_type : SbcoPoint F → List Warning → BacnetObjectType × List Warning
  infer_object_type point warnings =
      let (family, more) = infer_family point in
      let ot = family_to_concrete family point.writable in
      (ot, inferred point.point_id ot ∷ ((warnings ++ more) ++ consistency_warnings point))

  unfoldable pub resolve_object_type : SbcoPoint F → BacnetObjectType × List Warning
  resolve_object_type point =
      let explicit = strip point.object_type_bacnet in
      if is_blank explicit
      then infer_object_type point []
      else elim (normalize_object_type explicit) [
        | none ↦ infer_object_type point (unknown_object_type point.point_id explicit ∷ [])
        | some ot ↦ (ot, consistency_warnings point)
      ]
