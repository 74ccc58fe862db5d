-- ===== src/Yaml/RoundTrip.antt =====
-- A config that is written as a dict is read back.
use bacnet_sim_gateway.Common.{
  String, string_eq, ℤ, int_eq, true, false, Option, none, some, List, [], ◌∷◌, ◌==◌, ok, ◌≡◌, refl,
  ap, ◌∙◌, ◌⊎◌, inl, inr,
}
use bacnet_sim_gateway.Common.Items.{or_else}
use bacnet_sim_gateway.Common.Text.{is_blank}
use bacnet_sim_gateway.Models.{
  Value, Fields, FloatOps, int_value, float_value, get_field, text_items, BacnetObjectType,
  object_type_text, object_type_of_text-object_type_text, mode_of_text-mode_text, BindingDirection,
  direction_text, direction_of_text-direction_text, UpdateConfig, BindingMapping, BindingSpec,
  RuntimeMode, mode_text, BacnetObjectSpec, NetworkConfig, BbcConfig, SimulatorConfig,
}
use bacnet_sim_gateway.Yaml.Entries.{
  dict_of, find_entry, text_entry, real_entry, texts_entry, fields_entry, filled_text_entry,
  reads_of_entries,
}
use bacnet_sim_gateway.Yaml.Write.{
  int_entry, update_entries, update_entry, mapping_entries, binding_entries, binding_entry,
  object_entries, object_to_dict, objects_to_items, network_entries, network_to_dict, bbc_entries,
  config_entries, config_to_dict, foreign_entries,
}
use bacnet_sim_gateway.Yaml.Read.{
  need, as_text, text_or_none, text_or, int_or_none, texts_of_items, texts_or_empty,
  fields_or_empty, is_true, coerce_bool, bool_or_false, real_or_none, float_or, int_or,
  dict_or_empty,
}
use bacnet_sim_gateway.Yaml.Load.{
  object_type_from, direction_from, mode_from, dict_or_default, mapping_of, binding_of,
  binding_from_dict, update_of, object_of, objects_of_items, objects_of, bbc_of, ttl_of, bdt_of,
  network_of, config_of, dict_to_config,
}

-- The foreign device is off, with the default time to live, or on, with one that is not 0: the others
-- are not written, or read as 30.
abbrev pub IsForeignKept : NetworkConfig → Type 0
IsForeignKept net =
    ((net.foreign_bbmd ≡ none) × (net.foreign_ttl ≡ ℤ.pos 30))
    ⊎ ((s : String) × (net.foreign_bbmd ≡ some s)
        × (is_blank s ≡ false)
        × ((net.foreign_ttl == ℤ.pos 0) ≡ false))

module _ {F : Type 0} (fl : FloatOps F) where
  -- each entry as its reader reads it, found last in the dict
  text_entry_back : (o : Option String) → text_or_none {F = F} (or_else (text_entry o) none) ≡ ok o
  unfolding text_or_none
  text_entry_back none = refl
  text_entry_back (some s) = refl

  int_entry_back : (o : Option ℤ) → int_or_none {F = F} (or_else (int_entry o) none) ≡ ok o
  unfolding int_or_none int_entry
  int_entry_back none = refl
  int_entry_back (some s) = refl

  texts_of_text_items : (l : List String) → texts_of_items {F = F} (text_items l) ≡ ok l
  unfolding texts_of_items text_items as_text
  texts_of_text_items [] = refl
  texts_of_text_items (s ∷ l) = rw (texts_of_text_items l)

  texts_entry_back :
      (l : List String) → texts_or_empty {F = F} (or_else (texts_entry l) none) ≡ ok l
  unfolding texts_or_empty
  texts_entry_back [] = refl
  texts_entry_back (s ∷ l) = texts_of_text_items (s ∷ l)

  fields_entry_back : (d : Fields F) → fields_or_empty (or_else (fields_entry d) none) ≡ ok d
  unfolding fields_or_empty
  fields_entry_back Fields.end = refl
  fields_entry_back (Fields.field k v d) = refl

  filled_text_back : (s : String) → text_or {F = F} "" (or_else (filled_text_entry s) none) ≡ ok s
  unfolding text_or as_text
  filled_text_back String.[] = refl
  filled_text_back (String.◌∷◌ c s) = refl

  real_entry_back : (o : Option F) → real_or_none fl (or_else (real_entry o) none) ≡ ok o
  unfolding real_or_none
  real_entry_back none = refl
  real_entry_back (some s) = refl

  dict_entry_back : (d : Fields F) → dict_or_empty fl (or_else (fields_entry d) none) ≡ ok d
  unfolding dict_or_empty
  dict_entry_back Fields.end = refl
  dict_entry_back (Fields.field k v d) = refl

  mapping_reads : (m : BindingMapping F) → mapping_of fl (find_entry (mapping_entries m)) ≡ ok m
  unfolding mapping_of mapping_entries text_or as_text float_or float_value
  mapping_reads m = rw (text_entry_back m.value_path, fields_entry_back m.enum_map)

  mapping_back :
      (m : BindingMapping F) → mapping_of fl (λ k. get_field k (dict_of (mapping_entries m))) ≡ ok m
  mapping_back m = ap (mapping_of fl) (reads_of_entries (mapping_entries m)) ∙ mapping_reads m

  direction_back :
      (d : BindingDirection) → direction_from {F = F} (some (Value.text (direction_text d))) ≡ ok d
  unfolding direction_from
  direction_back d = rw (direction_of_text-direction_text d)

  binding_reads : (b : BindingSpec F) → binding_of fl (find_entry (binding_entries b)) ≡ ok b
  unfolding binding_of binding_entries need as_text dict_or_empty
  binding_reads b =
      rw (direction_back b.direction, text_entry_back b.address, mapping_back b.mapping)

  binding_filled : (b : BindingSpec F) → is_true fl (Value.obj (dict_of (binding_entries b))) ≡ true
  unfolding is_true binding_entries
  binding_filled b = refl

  binding_back :
      (o : Option (BindingSpec F)) → binding_from_dict fl (or_else (binding_entry o) none) ≡ ok o
  unfolding binding_from_dict binding_entry dict_or_default
  binding_back none = refl
  binding_back (some b) =
      let read = ap (binding_of fl) (reads_of_entries (binding_entries b)) ∙ binding_reads b in
      rw (binding_filled b, read)

  update_reads : (u : UpdateConfig F) → update_of fl (find_entry (update_entries u)) ≡ ok u
  unfolding update_of update_entries
  update_reads u = rw (int_entry_back u.interval, text_entry_back u.mode, dict_entry_back u.params)

  update_back :
      (u : UpdateConfig F) → update_of fl (λ k. get_field k (dict_of (update_entries u))) ≡ ok u
  update_back u = ap (update_of fl) (reads_of_entries (update_entries u)) ∙ update_reads u

  update_entry_back :
      (u : UpdateConfig F)
      → dict_or_empty fl (or_else (update_entry u) none) ≡ ok (dict_of (update_entries u))
  unfolding update_entry
  update_entry_back u = dict_entry_back (dict_of (update_entries u))

  type_back :
      (t : BacnetObjectType) → object_type_from {F = F} (Value.text (object_type_text t)) ≡ ok t
  unfolding object_type_from
  type_back t = rw (object_type_of_text-object_type_text t)

  object_reads : (o : BacnetObjectSpec F) → object_of fl (find_entry (object_entries o)) ≡ ok o
  unfolding object_of object_entries need as_text int_or int_value float_or float_value
      bool_or_false coerce_bool is_true
  object_reads o = rw (
    update_entry_back o.update,
    type_back o.object_type,
    text_entry_back o.units,
    real_entry_back o.min_pres_value,
    real_entry_back o.max_pres_value,
    texts_entry_back o.state_text,
    text_entry_back o.active_text,
    text_entry_back o.inactive_text,
    filled_text_back o.description,
    update_back o.update,
    fields_entry_back o.metadata,
    binding_back o.binding,
    texts_entry_back o.tags,
  )

  objects_back :
      (objects : List (BacnetObjectSpec F))
      → objects_of_items fl (objects_to_items objects) ≡ ok objects
  unfolding objects_of_items objects_to_items object_to_dict dict_or_default
  objects_back [] = refl
  objects_back (o ∷ objects) =
      let read = ap (object_of fl) (reads_of_entries (object_entries o)) ∙ object_reads o in
      rw (read, objects_back objects)

  bbc_reads : (bbc : BbcConfig) → bbc_of fl (find_entry (bbc_entries bbc)) ≡ ok bbc
  unfolding bbc_of bbc_entries need as_text int_or int_value text_or
  bbc_reads bbc = refl

  bbc_back : (bbc : BbcConfig) → bbc_of fl (λ k. get_field k (dict_of (bbc_entries bbc))) ≡ ok bbc
  bbc_back bbc = ap (bbc_of fl) (reads_of_entries (bbc_entries bbc)) ∙ bbc_reads bbc

  bdt_back : (l : List String) → bdt_of fl (or_else (texts_entry l) none) ≡ ok l
  unfolding bdt_of is_true texts_or_empty text_items
  bdt_back [] = refl
  bdt_back (s ∷ l) = texts_of_text_items (s ∷ l)

  -- what is written of a foreign device is read back
  foreign_back :
      (net : NetworkConfig)
      → IsForeignKept net
      → (text_or_none (or_else (foreign_entries {F = F} net).0 none) ≡ ok net.foreign_bbmd)
        × (ttl_of fl (or_else (foreign_entries net).1 none) ≡ ok net.foreign_ttl)
  unfolding foreign_entries text_or_none ttl_of is_true int_or int_value
  foreign_back net (inl (off, default)) = (rw off, rw (off, default))
  foreign_back net (inr (s, on, filled, nonzero)) = (rw (on, filled), rw (on, filled, nonzero))

  network_reads :
      (net : NetworkConfig)
      → IsForeignKept net
      → network_of fl (find_entry (network_entries net)) ≡ ok net
  unfolding network_of network_entries as_text int_or int_value text_or
  network_reads net kept =
      rw ((foreign_back net kept).0, (foreign_back net kept).1, bdt_back net.bbmd_bdt)

  network_back :
      (net : NetworkConfig)
      → IsForeignKept net
      → network_of fl (λ k. get_field k (dict_of (network_entries net))) ≡ ok net
  network_back net kept =
      ap (network_of fl) (reads_of_entries (network_entries net)) ∙ network_reads net kept

  mode_back : (m : RuntimeMode) → mode_from {F = F} (some (Value.text (mode_text m))) ≡ ok m
  unfolding mode_from
  mode_back m = rw (mode_of_text-mode_text m)

  config_reads :
      (config : SimulatorConfig F)
      → IsForeignKept config.network
      → config_of fl (find_entry (config_entries config)) ≡ ok config
  unfolding config_of config_entries need dict_or_default network_to_dict objects_of
  config_reads config kept = rw (
    bbc_back config.bbc,
    network_back config.network kept,
    objects_back config.objects,
    mode_back config.mode,
  )

  -- A config that is written as a dict is read back as it is, if its foreign device is kept: every
  -- object, whatever optional properties it has, and every binding.
  pub dict_to_config-config_to_dict :
      (config : SimulatorConfig F)
      → IsForeignKept config.network
      → dict_to_config fl (config_to_dict config) ≡ ok config
  unfolding dict_to_config config_to_dict
  dict_to_config-config_to_dict config kept =
      ap (config_of fl) (reads_of_entries (config_entries config)) ∙ config_reads config kept
