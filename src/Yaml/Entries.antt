-- ===== src/Yaml/Entries.antt =====
-- A dict that is built key by key: an entry without a value is a key that is not set.
use bacnet_sim_gateway.Common.{
  String, string_eq, Option, none, some, List, [], ◌∷◌, ◌==◌, if◌then◌else◌, ◌≡◌, refl, arith,
}
use bacnet_sim_gateway.Common.Items.{or_else}
use bacnet_sim_gateway.Common.Text.{is_blank}
use bacnet_sim_gateway.Models.{Value, Fields, text_items, get_field}

abbrev pub Entries : Type 0 → Type 0
Entries F = List (String × Option (Value F))

module _ {F : Type 0} where
  abbrev pub dict_of : Entries F → Fields F
  dict_of [] = Fields.end
  dict_of ((k, none) ∷ entries) = dict_of entries
  dict_of ((k, some v) ∷ entries) = Fields.field k v (dict_of entries)

  abbrev pub find_entry : Entries F → String → Option (Value F)
  find_entry [] k = none
  find_entry ((j, o) ∷ entries) k =
      let rest = find_entry entries k in if k == j then or_else o rest else rest

  -- the entries of a value that is set if it is not None, or if it is not empty
  abbrev pub text_entry : Option String → Option (Value F)
  text_entry none = none
  text_entry (some s) = some (Value.text s)

  abbrev pub real_entry : Option F → Option (Value F)
  real_entry none = none
  real_entry (some x) = some (Value.real x)

  abbrev pub texts_entry : List String → Option (Value F)
  texts_entry [] = none
  texts_entry (s ∷ l) = some (Value.arr (text_items (s ∷ l)))

  abbrev pub fields_entry : Fields F → Option (Value F)
  fields_entry Fields.end = none
  fields_entry (Fields.field k v d) = some (Value.obj (Fields.field k v d))

  abbrev pub filled_text_entry : String → Option (Value F)
  filled_text_entry s = if is_blank s then none else some (Value.text s)

  get_field-dict_of :
      (entries : Entries F) (k : String) → get_field k (dict_of entries) ≡ find_entry entries k
  unfolding get_field
  get_field-dict_of [] k = refl
  get_field-dict_of ((j, none) ∷ entries) k = ground (arith, get_field-dict_of entries k)
  get_field-dict_of ((j, some v) ∷ entries) k = ground (arith, get_field-dict_of entries k)

  -- Reading a dict that was built key by key finds what was set.
  pub reads_of_entries :
      (entries : Entries F) → (λ k. get_field k (dict_of entries)) ≡ find_entry entries
  reads_of_entries entries = λ i k. get_field-dict_of entries k i
