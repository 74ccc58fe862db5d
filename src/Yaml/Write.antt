-- ===== src/Yaml/Write.antt =====
-- `_object_to_dict`, `_network_to_dict` and `config_to_dict`.
use bacnet_sim_gateway.Common.{ℤ, Option, none, some, List, [], ◌∷◌, if◌then◌else◌}
use bacnet_sim_gateway.Common.Text.{is_blank}
use bacnet_sim_gateway.Models.{
  Value, Fields, Items, object_type_text, mode_text, direction_text, UpdateConfig, BindingMapping,
  BindingSpec, BacnetObjectSpec, NetworkConfig, BbcConfig, SimulatorConfig,
}
use bacnet_sim_gateway.Yaml.Entries.{
  Entries, dict_of, text_entry, real_entry, texts_entry, fields_entry, filled_text_entry,
}

module _ {F : Type 0} where
  unfoldable pub int_entry : Option ℤ → Option (Value F)
  int_entry none = none
  int_entry (some i) = some (Value.int i)

  unfoldable pub update_entries : UpdateConfig F → Entries F
  update_entries u =
      ("interval", int_entry u.interval)
      ∷ ("mode", text_entry u.mode)
      ∷ ("params", fields_entry u.params)
      ∷ []

  -- no `update` key for the default; a dict that is not empty otherwise
  unfoldable pub update_entry : UpdateConfig F → Option (Value F)
  update_entry u = fields_entry (dict_of (update_entries u))

  unfoldable pub mapping_entries : BindingMapping F → Entries F
  mapping_entries m =
      ("type", some (Value.text m.type))
      ∷ ("scale", some (Value.real m.scale))
      ∷ ("offset", some (Value.real m.offset))
      ∷ ("value_path", text_entry m.value_path)
      ∷ ("enum_map", fields_entry m.enum_map)
      ∷ []

  unfoldable pub binding_entries : BindingSpec F → Entries F
  binding_entries b =
      ("protocol", some (Value.text b.protocol))
      ∷ ("direction", some (Value.text (direction_text b.direction)))
      ∷ ("address", text_entry b.address)
      ∷ ("mapping", some (Value.obj (dict_of (mapping_entries b.mapping))))
      ∷ []

  unfoldable pub binding_entry : Option (BindingSpec F) → Option (Value F)
  binding_entry none = none
  binding_entry (some b) = some (Value.obj (dict_of (binding_entries b)))

  unfoldable pub object_entries : BacnetObjectSpec F → Entries F
  object_entries o =
      ("point_id", some (Value.text o.point_id))
      ∷ ("object_type", some (Value.text (object_type_text o.object_type)))
      ∷ ("object_instance", some (Value.int o.object_instance))
      ∷ ("object_name", some (Value.text o.object_name))
      ∷ ("present_value", some o.present_value)
      ∷ ("writable", some (Value.bool o.writable))
      ∷ ("scale", some (Value.real o.scale))
      ∷ ("units", text_entry o.units)
      ∷ ("min_pres_value", real_entry o.min_pres_value)
      ∷ ("max_pres_value", real_entry o.max_pres_value)
      ∷ ("state_text", texts_entry o.state_text)
      ∷ ("active_text", text_entry o.active_text)
      ∷ ("inactive_text", text_entry o.inactive_text)
      ∷ ("description", filled_text_entry o.description)
      ∷ ("update", update_entry o.update)
      ∷ ("tags", texts_entry o.tags)
      ∷ ("metadata", fields_entry o.metadata)
      ∷ ("binding", binding_entry o.binding)
      ∷ []

  unfoldable pub object_to_dict : BacnetObjectSpec F → Fields F
  object_to_dict o = dict_of (object_entries o)

  unfoldable pub objects_to_items : List (BacnetObjectSpec F) → Items F
  objects_to_items [] = Items.nil
  objects_to_items (o ∷ objects) =
      Items.cons (Value.obj (object_to_dict o)) (objects_to_items objects)

  -- `if net.foreign_bbmd`
  unfoldable pub foreign_entries : NetworkConfig → Option (Value F) × Option (Value F)
  foreign_entries net = elim net.foreign_bbmd [
    | none ↦ (none, none)
    | some s ↦
        if is_blank s then (none, none) else (some (Value.text s), some (Value.int net.foreign_ttl))
  ]

  unfoldable pub network_entries : NetworkConfig → Entries F
  network_entries net =
      ("type", some (Value.text net.type))
      ∷ ("bind_address", some (Value.text net.bind_address))
      ∷ ("port", some (Value.int net.port))
      ∷ ("foreign_bbmd", (foreign_entries net).0)
      ∷ ("foreign_ttl", (foreign_entries net).1)
      ∷ ("bbmd_bdt", texts_entry net.bbmd_bdt)
      ∷ []

  unfoldable pub network_to_dict : NetworkConfig → Fields F
  network_to_dict net = dict_of (network_entries net)

  unfoldable pub bbc_entries : BbcConfig → Entries F
  bbc_entries bbc =
      ("bbc_id", some (Value.text bbc.bbc_id))
      ∷ ("device_id", some (Value.int bbc.device_id))
      ∷ ("object_name", some (Value.text bbc.object_name))
      ∷ ("vendor_name", some (Value.text bbc.vendor_name))
      ∷ ("vendor_identifier", some (Value.int bbc.vendor_identifier))
      ∷ ("model_name", some (Value.text bbc.model_name))
      ∷ []

  unfoldable pub config_entries : SimulatorConfig F → Entries F
  config_entries config =
      ("bbc", some (Value.obj (dict_of (bbc_entries config.bbc))))
      ∷ ("network", some (Value.obj (network_to_dict config.network)))
      ∷ ("mode", some (Value.text (mode_text config.mode)))
      ∷ ("objects", some (Value.arr (objects_to_items config.objects)))
      ∷ []

  unfoldable pub config_to_dict : SimulatorConfig F → Fields F
  config_to_dict config = dict_of (config_entries config)
