-- ===== src/Models/Conversions.antt =====
-- `str(x)`, `int(x)` and `float(x)` of a dynamic value, and its lowered words.
use bacnet_sim_gateway.Common.{
  String, ℤ, Bool, true, false, [], ◌∷◌, Result, ok, raise, or_raise, list_eq, nat_eq, contains,
  if◌then◌else◌,
}
use bacnet_sim_gateway.Common.Text.{codes, strip, lower}
use bacnet_sim_gateway.Models.Values.{Value, FloatOps}

-- ValueError, TypeError, and OverflowError: of `int` of an infinite float, of `float` of an int out
-- of range
pub data ConversionError : Type 0 where
  bad_value : ConversionError
  bad_type : ConversionError
  overflow : ConversionError

abbrev pub bool_int : Bool → ℤ
bool_int true = ℤ.pos 1
bool_int false = ℤ.pos 0

module _ {F : Type 0} (fl : FloatOps F) where
  unfoldable pub str_value : Value F → String
  str_value Value.null = "None"
  str_value (Value.bool true) = "True"
  str_value (Value.bool false) = "False"
  str_value (Value.int i) = fl.show_int i
  str_value (Value.real x) = fl.show x
  str_value (Value.text s) = s
  str_value (Value.arr items) = fl.show_items items
  str_value (Value.obj fields) = fl.show_fields fields

  -- the error of `int(x)`: a NaN is not equal to itself, an infinite float is
  unfoldable pub trunc_error : F → ConversionError
  trunc_error x = if fl.le x x then overflow else bad_value

  unfoldable pub int_value : Value F → Result ConversionError ℤ
  int_value (Value.bool b) = ok (bool_int b)
  int_value (Value.int i) = ok i
  int_value (Value.real x) = or_raise (fl.trunc x) (trunc_error x)
  int_value (Value.text s) = or_raise (fl.parse_int s) bad_value
  int_value _ = raise bad_type

  unfoldable pub float_value : Value F → Result ConversionError F
  float_value (Value.bool b) = ok (fl.of_int (bool_int b))
  float_value (Value.int i) = or_raise (fl.float_of_int i) overflow
  float_value (Value.real x) = ok x
  float_value (Value.text s) = or_raise (fl.parse_float s) bad_value
  float_value _ = raise bad_type

  -- `str(value).lower() in ("1", "true", "on", "active", "yes")`
  unfoldable pub is_truthy : Value F → Bool
  is_truthy value =
      contains (codes "1" ∷ codes "true" ∷ codes "on" ∷ codes "active" ∷ codes "yes" ∷ [])
        (lower (str_value value))

  -- `str(value).strip().lower() in {"active", "1", "true", "on"}`
  unfoldable pub is_binary_truthy : Value F → Bool
  is_binary_truthy value =
      contains (codes "active" ∷ codes "1" ∷ codes "true" ∷ codes "on" ∷ [])
        (lower (strip (str_value value)))
