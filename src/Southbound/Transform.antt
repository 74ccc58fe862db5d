-- ===== src/Southbound/Transform.antt =====
-- src/bbc_sim/southbound/mapping.py. A payload is its decoded text, if it decodes, and `loads` is
-- `json.loads`; a command is the value that `json.dumps` writes.
use bacnet_sim_gateway.Common.{
  String, string_eq, ℤ, Bool, false, not, ◌&&◌, ◌||◌, Option, none, some, Result, ok, raise, ◌>>=◌,
  or_raise, ◌==◌, if◌then◌else◌,
}
use bacnet_sim_gateway.Common.Text.{strip}
use bacnet_sim_gateway.Models.{
  Value, Fields, get_field, FloatOps, ConversionError, bad_value, trunc_error, str_value, int_value,
  float_value, is_truthy, is_analog, is_binary, is_multistate, BindingMapping, BacnetObjectSpec,
}

module _ {F : Type 0} (fl : FloatOps F) (loads : String → Option (Value F)) where
  -- JSON with a `value`, a JSON scalar, or a text
  unfoldable pub scalar_of : String → Value F
  scalar_of text = elim (loads text) [
    | none ↦ Value.text text
    | some v ↦ elim v [
      | Value.obj d ↦ elim (get_field "value" d) [ none ↦ Value.null | some w ↦ w ]
      | w ↦ w
    ]
  ]

  -- a payload that does not decode is a ValueError
  unfoldable pub extract : Option String → Result ConversionError (Value F)
  extract payload = do text ← or_raise payload bad_value; ok (scalar_of (strip text))

module _ {F : Type 0} (fl : FloatOps F) where
  unfoldable pub mapping_or_default : BacnetObjectSpec F → BindingMapping F
  mapping_or_default spec = elim spec.binding [
    | none ↦ record {
      type = "real";
      scale = fl.of_int (ℤ.pos 1);
      offset = fl.of_int (ℤ.pos 0);
      value_path = none;
      enum_map = Fields.end;
    }
    | some b ↦ b.mapping
  ]

  -- the tests of the value family
  unfoldable pub is_boolean : BacnetObjectSpec F → Bool
  is_boolean spec =
      is_binary spec.object_type
      || (not (is_analog spec.object_type) && (mapping_or_default spec).type == "boolean")

  unfoldable pub is_unsigned : BacnetObjectSpec F → Bool
  is_unsigned spec =
      is_multistate spec.object_type
      || (mapping_or_default spec).type == "unsigned"
      || (mapping_or_default spec).type == "enum"

  -- the index of the first entry that the text names, by index or by label
  unfoldable pub find_index : String → Fields F → Option String
  find_index raw Fields.end = none
  find_index raw (Fields.field idx label d) =
      if raw == idx || elim label [ Value.text l ↦ raw == l | _ ↦ false ]
      then some idx
      else find_index raw d

  -- `int(float(raw))`
  unfoldable pub int_of_float : Value F → Result ConversionError (Value F)
  int_of_float raw = do
    x ← float_value fl raw
    i ← or_raise (fl.trunc x) (trunc_error fl x)
    ok (Value.int i)

  unfoldable pub unsigned_value : Fields F → Value F → Result ConversionError (Value F)
  unsigned_value enum_map raw = elim (find_index (str_value fl raw) enum_map) [
    | none ↦ int_of_float raw
    | some idx ↦ (do i ← or_raise (fl.parse_int idx) bad_value; ok (Value.int i))
  ]

  unfoldable pub analog_value_of : BindingMapping F → Value F → Result ConversionError (Value F)
  analog_value_of m raw = do
    x ← float_value fl raw
    ok (Value.real (fl.add (fl.mul x m.scale) m.offset))

  unfoldable pub present_value_of_raw :
      BacnetObjectSpec F → Value F → Result ConversionError (Value F)
  present_value_of_raw spec raw =
      if is_boolean spec
      then ok (Value.text (if is_truthy fl raw then "active" else "inactive"))
      else if is_unsigned spec
      then unsigned_value (mapping_or_default spec).enum_map raw
      else analog_value_of (mapping_or_default spec) raw

  unfoldable pub telemetry_to_present_value :
      (String → Option (Value F))
      → BacnetObjectSpec F
      → Option String
      → Result ConversionError (Value F)
  telemetry_to_present_value loads spec payload = do
    raw ← extract fl loads payload
    present_value_of_raw spec raw

  -- a scale of 0 is a ValueError
  unfoldable pub analog_command : BindingMapping F → Value F → Result ConversionError (Value F)
  analog_command m value =
      if fl.is_zero m.scale
      then raise bad_value
      else (do x ← float_value fl value; ok (Value.real (fl.div (fl.sub x m.offset) m.scale)))

  unfoldable pub command_value : BacnetObjectSpec F → Value F → Result ConversionError (Value F)
  command_value spec value =
      if is_boolean spec
      then ok (Value.bool (is_truthy fl value))
      else if is_unsigned spec
      then (do i ← int_value fl value; ok (Value.int i))
      else analog_command (mapping_or_default spec) value

  -- `{"value": value}`
  unfoldable pub present_value_to_command :
      BacnetObjectSpec F → Value F → Result ConversionError (Value F)
  present_value_to_command spec value = do
    v ← command_value spec value
    ok (Value.obj (Fields.field "value" v Fields.end))
