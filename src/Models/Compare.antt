-- ===== src/Models/Compare.antt =====
-- Python's `==` of dynamic values: numbers by value, lists item by item, dicts whatever the order of
-- their keys.
use bacnet_sim_gateway.Common.{
  ℕ, suc, nat_eq, String, string_eq, ℤ, int_eq, Bool, false, true, ◌&&◌, Option, none, some, ◌==◌,
  list_eq,
}
use bacnet_sim_gateway.Models.Values.{Value, Items, Fields, FloatOps, get_field}
use bacnet_sim_gateway.Models.Conversions.{bool_int}
use bacnet_sim_gateway.Models.Configs.{UpdateConfig}

module _ {F : Type 0} where
  unfoldable pub count_fields : Fields F → ℕ
  count_fields Fields.end = 0
  count_fields (Fields.field k v d) = suc (count_fields d)

module _ {F : Type 0} (fl : FloatOps F) where
  -- floats are equal if each is at most the other; a NaN is equal to nothing
  unfoldable pub float_eq : F → F → Bool
  float_eq x y = fl.le x y && fl.le y x

  unfoldable pub number_eq : Value F → Value F → Bool
  number_eq (Value.bool a) (Value.bool b) = bool_int a == bool_int b
  number_eq (Value.bool a) (Value.int b) = bool_int a == b
  number_eq (Value.int a) (Value.bool b) = a == bool_int b
  number_eq (Value.int a) (Value.int b) = a == b
  number_eq (Value.bool a) (Value.real y) = float_eq (fl.of_int (bool_int a)) y
  number_eq (Value.int a) (Value.real y) = float_eq (fl.of_int a) y
  number_eq (Value.real x) (Value.bool b) = float_eq x (fl.of_int (bool_int b))
  number_eq (Value.real x) (Value.int b) = float_eq x (fl.of_int b)
  number_eq (Value.real x) (Value.real y) = float_eq x y
  number_eq _ _ = false

unfoldable mutual
  pub value_eq : {F : Type 0} → FloatOps F → Value F → Value F → Bool
  value_eq fl Value.null Value.null = true
  value_eq fl (Value.text s) (Value.text t) = s == t
  value_eq fl (Value.arr xs) (Value.arr ys) = items_eq fl xs ys
  value_eq fl (Value.obj d) (Value.obj e) = (count_fields d == count_fields e) && fields_in fl d e
  value_eq fl v w = number_eq fl v w

  pub items_eq : {F : Type 0} → FloatOps F → Items F → Items F → Bool
  items_eq fl Items.nil Items.nil = true
  items_eq fl (Items.cons v xs) (Items.cons w ys) = value_eq fl v w && items_eq fl xs ys
  items_eq fl _ _ = false

  pub fields_in : {F : Type 0} → FloatOps F → Fields F → Fields F → Bool
  fields_in fl Fields.end e = true
  fields_in fl (Fields.field k v d) e =
      elim (get_field k e) [ none ↦ false | some w ↦ value_eq fl v w ] && fields_in fl d e

module _ {F : Type 0} (fl : FloatOps F) where
  unfoldable pub dict_eq : Fields F → Fields F → Bool
  dict_eq d e = value_eq fl (Value.obj d) (Value.obj e)

unfoldable pub text_option_eq : Option String → Option String → Bool
text_option_eq none none = true
text_option_eq (some s) (some t) = s == t
text_option_eq _ _ = false

unfoldable pub int_option_eq : Option ℤ → Option ℤ → Bool
int_option_eq none none = true
int_option_eq (some s) (some t) = s == t
int_option_eq _ _ = false

-- the fields of the dataclass
unfoldable pub update_eq : {F : Type 0} → FloatOps F → UpdateConfig F → UpdateConfig F → Bool
update_eq fl u w =
    int_option_eq u.interval w.interval
    && text_option_eq u.mode w.mode
    && dict_eq fl u.params w.params
