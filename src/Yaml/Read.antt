-- ===== src/Yaml/Read.antt =====
-- `_coerce_bool`, `_binding_from_dict`, `_object_from_dict` and `dict_to_config`. A reader takes the
-- lookup `d.get`. Python keeps a value of any type in most fields; a config of the model has values of
-- the annotated types, and a value of another type there is `untyped`.
use bacnet_sim_gateway.Common.{
  String, string_eq, ℤ, int_eq, nat_eq, list_eq, Bool, true, false, not, Option, none, some, List,
  [], ◌∷◌, ◌==◌, Result, ok, raise, ◌>>=◌, or_raise, contains, if◌then◌else◌,
}
use bacnet_sim_gateway.Common.Text.{is_blank, codes, strip, lower}
use bacnet_sim_gateway.Models.{
  Value, Fields, Items, FloatOps, ConversionError, int_value, float_value,
}

pub data LoadError : Type 0 where
  missing_key : String → LoadError
  not_a_member : String → LoadError
  not_converted : ConversionError → LoadError
  not_a_dict : LoadError
  untyped : LoadError

abbrev pub Lookup : Type 0 → Type 0
Lookup F = String → Option (Value F)

abbrev converted : {A : Type 0} → Result ConversionError A → Result LoadError A
converted (ok a) = ok a
converted (raise e) = raise (not_converted e)

module _ {F : Type 0} where
  -- `d[k]`, and the value as a text
  unfoldable pub need : String → Lookup F → Result LoadError (Value F)
  need k g = or_raise (g k) (missing_key k)

  unfoldable pub as_text : Value F → Result LoadError String
  as_text (Value.text s) = ok s
  as_text _ = raise untyped

  -- `d.get(k)` and `d.get(k, default)` for the annotated types
  unfoldable pub text_or_none : Option (Value F) → Result LoadError (Option String)
  text_or_none none = ok none
  text_or_none (some Value.null) = ok none
  text_or_none (some (Value.text s)) = ok (some s)
  text_or_none (some _) = raise untyped

  unfoldable pub text_or : String → Option (Value F) → Result LoadError String
  text_or default none = ok default
  text_or default (some v) = as_text v

  unfoldable pub int_or_none : Option (Value F) → Result LoadError (Option ℤ)
  int_or_none none = ok none
  int_or_none (some Value.null) = ok none
  int_or_none (some (Value.int i)) = ok (some i)
  int_or_none (some _) = raise untyped

  unfoldable pub texts_of_items : Items F → Result LoadError (List String)
  texts_of_items Items.nil = ok []
  texts_of_items (Items.cons v items) = do s ← as_text v; rest ← texts_of_items items; ok (s ∷ rest)

  -- `list(d.get(k, []))`; None is a TypeError
  unfoldable pub texts_or_empty : Option (Value F) → Result LoadError (List String)
  texts_or_empty none = ok []
  texts_or_empty (some (Value.arr items)) = texts_of_items items
  texts_or_empty (some Value.null) = raise (not_converted ConversionError.bad_type)
  texts_or_empty (some _) = raise untyped

  -- `dict(d.get(k, {}))`
  unfoldable pub fields_or_empty : Option (Value F) → Result LoadError (Fields F)
  fields_or_empty none = ok Fields.end
  fields_or_empty (some (Value.obj d)) = ok d
  fields_or_empty (some Value.null) = raise (not_converted ConversionError.bad_type)
  fields_or_empty (some _) = raise untyped

module _ {F : Type 0} (fl : FloatOps F) where
  -- `bool(value)`
  unfoldable pub is_true : Value F → Bool
  is_true Value.null = false
  is_true (Value.bool b) = b
  is_true (Value.int i) = not (i == ℤ.pos 0)
  is_true (Value.real x) = not (fl.is_zero x)
  is_true (Value.text s) = not (is_blank s)
  is_true (Value.arr Items.nil) = false
  is_true (Value.arr (Items.cons v items)) = true
  is_true (Value.obj Fields.end) = false
  is_true (Value.obj (Fields.field k v d)) = true

  unfoldable pub coerce_bool : Value F → Bool
  coerce_bool (Value.text s) =
      contains (codes "true" ∷ codes "1" ∷ codes "yes" ∷ codes "y" ∷ codes "on" ∷ [])
        (lower (strip s))
  coerce_bool value = is_true value

  unfoldable pub bool_or_false : Option (Value F) → Bool
  bool_or_false none = false
  bool_or_false (some v) = coerce_bool v

  -- `d.get(k)` of a float; an int stands for the float of its value
  unfoldable pub real_or_none : Option (Value F) → Result LoadError (Option F)
  real_or_none none = ok none
  real_or_none (some Value.null) = ok none
  real_or_none (some (Value.real x)) = ok (some x)
  real_or_none (some (Value.int i)) = ok (some (fl.of_int i))
  real_or_none (some _) = raise untyped

  -- `float(d.get(k, default))` and `int(d.get(k, default))`
  unfoldable pub float_or : F → Option (Value F) → Result LoadError F
  float_or default none = ok default
  float_or default (some v) = converted (float_value fl v)

  unfoldable pub int_or : ℤ → Option (Value F) → Result LoadError ℤ
  int_or default none = ok default
  int_or default (some v) = converted (int_value fl v)

  -- `d.get(k) or {}`, on which `get` is called
  unfoldable pub dict_or_empty : Option (Value F) → Result LoadError (Fields F)
  dict_or_empty none = ok Fields.end
  dict_or_empty (some (Value.obj d)) = ok d
  dict_or_empty (some v) = if is_true v then raise not_a_dict else ok Fields.end
