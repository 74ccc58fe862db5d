-- ===== src/Yaml/Load.antt =====
-- `_binding_from_dict`, `_object_from_dict` and `dict_to_config`. The keyword arguments are evaluated
-- in their order.
use bacnet_sim_gateway.Common.{
  String, ℤ, int_eq, Option, none, some, List, [], ◌∷◌, Result, ok, raise, ◌>>=◌, or_raise,
  if◌then◌else◌,
}
use bacnet_sim_gateway.Common.Text.{is_blank}
use bacnet_sim_gateway.Models.{
  Value, Fields, Items, FloatOps, get_field, BacnetObjectType, object_type_of_text, mode_of_text,
  RuntimeMode, BindingDirection, direction_of_text, UpdateConfig, BindingMapping, BindingSpec,
  BacnetObjectSpec, NetworkConfig, BbcConfig, SimulatorConfig, ConversionError,
}
use bacnet_sim_gateway.Yaml.Read.{
  LoadError, not_a_member, not_converted, not_a_dict, Lookup, need, as_text, text_or_none, text_or,
  int_or_none, texts_or_empty, fields_or_empty, is_true, bool_or_false, real_or_none, float_or,
  int_or, dict_or_empty,
}

module _ {F : Type 0} where
  -- an enum member by its value
  unfoldable pub object_type_from : Value F → Result LoadError BacnetObjectType
  object_type_from (Value.text s) = or_raise (object_type_of_text s) (not_a_member s)
  object_type_from _ = raise (not_a_member "")

  unfoldable pub direction_from : Option (Value F) → Result LoadError BindingDirection
  direction_from none = ok BindingDirection.telemetry
  direction_from (some (Value.text s)) = or_raise (direction_of_text s) (not_a_member s)
  direction_from (some _) = raise (not_a_member "")

  unfoldable pub mode_from : Option (Value F) → Result LoadError RuntimeMode
  mode_from none = ok RuntimeMode.simulator
  mode_from (some (Value.text s)) = or_raise (mode_of_text s) (not_a_member s)
  mode_from (some _) = raise (not_a_member "")

  -- `d.get(k, {})`, on which `get` is called
  unfoldable pub dict_or_default : Option (Value F) → Result LoadError (Fields F)
  dict_or_default none = ok Fields.end
  dict_or_default (some (Value.obj d)) = ok d
  dict_or_default (some _) = raise not_a_dict

module _ {F : Type 0} (fl : FloatOps F) where
  unfoldable pub mapping_of : Lookup F → Result LoadError (BindingMapping F)
  mapping_of m = do
    type ← text_or "real" (m "type")
    scale ← float_or fl (fl.of_int (ℤ.pos 1)) (m "scale")
    offset ← float_or fl (fl.of_int (ℤ.pos 0)) (m "offset")
    value_path ← text_or_none (m "value_path")
    enum_map ← fields_or_empty (m "enum_map")
    ok (record {
      type = type;
      scale = scale;
      offset = offset;
      value_path = value_path;
      enum_map = enum_map;
    })

  unfoldable pub binding_of : Lookup F → Result LoadError (BindingSpec F)
  binding_of b = do
    protocol_value ← need "protocol" b
    protocol ← as_text protocol_value
    direction ← direction_from (b "direction")
    address ← text_or_none (b "address")
    m ← dict_or_empty fl (b "mapping")
    mapping ← mapping_of (λ k. get_field k m)
    ok (record { protocol = protocol; direction = direction; address = address; mapping = mapping })

  unfoldable pub binding_from_dict : Option (Value F) → Result LoadError (Option (BindingSpec F))
  binding_from_dict none = ok none
  binding_from_dict (some v) =
      if is_true fl v
      then (do
        b ← dict_or_default (some v)
        binding ← binding_of (λ k. get_field k b)
        ok (some binding))
      else ok none

  -- `dict(upd.get("params") or {})`
  unfoldable pub update_of : Lookup F → Result LoadError (UpdateConfig F)
  update_of upd = do
    interval ← int_or_none (upd "interval")
    mode ← text_or_none (upd "mode")
    params ← dict_or_empty fl (upd "params")
    ok (record { interval = interval; mode = mode; params = params })

  unfoldable pub object_of : Lookup F → Result LoadError (BacnetObjectSpec F)
  object_of d = do
    id_value ← need "point_id" d
    point_id ← as_text id_value
    type_value ← need "object_type" d
    object_type ← object_type_from type_value
    instance_value ← need "object_instance" d
    object_instance ← int_or fl (ℤ.pos 0) (some instance_value)
    name_value ← need "object_name" d
    object_name ← as_text name_value
    units ← text_or_none (d "units")
    lo ← real_or_none fl (d "min_pres_value")
    hi ← real_or_none fl (d "max_pres_value")
    state_text ← texts_or_empty (d "state_text")
    active_text ← text_or_none (d "active_text")
    inactive_text ← text_or_none (d "inactive_text")
    scale ← float_or fl (fl.of_int (ℤ.pos 1)) (d "scale")
    description ← text_or "" (d "description")
    upd ← dict_or_empty fl (d "update")
    update ← update_of (λ k. get_field k upd)
    metadata ← fields_or_empty (d "metadata")
    binding ← binding_from_dict (d "binding")
    tags ← texts_or_empty (d "tags")
    ok (record {
      point_id = point_id;
      object_type = object_type;
      object_instance = object_instance;
      object_name = object_name;
      present_value = elim (d "present_value") [ none ↦ Value.null | some v ↦ v ];
      units = units;
      min_pres_value = lo;
      max_pres_value = hi;
      state_text = state_text;
      active_text = active_text;
      inactive_text = inactive_text;
      scale = scale;
      writable = bool_or_false fl (d "writable");
      description = description;
      update = update;
      metadata = metadata;
      binding = binding;
      tags = tags;
    })

  unfoldable pub objects_of_items : Items F → Result LoadError (List (BacnetObjectSpec F))
  objects_of_items Items.nil = ok []
  objects_of_items (Items.cons v items) = do
    d ← dict_or_default (some v)
    o ← object_of (λ k. get_field k d)
    rest ← objects_of_items items
    ok (o ∷ rest)

  -- `d.get("objects", [])`; a dict or a text that is not empty has no dicts in it
  unfoldable pub objects_of : Option (Value F) → Result LoadError (List (BacnetObjectSpec F))
  objects_of none = ok []
  objects_of (some (Value.arr items)) = objects_of_items items
  objects_of (some (Value.obj Fields.end)) = ok []
  objects_of (some (Value.obj (Fields.field k v d))) = raise not_a_dict
  objects_of (some (Value.text s)) = if is_blank s then ok [] else raise not_a_dict
  objects_of (some _) = raise (not_converted ConversionError.bad_type)

  unfoldable pub bbc_of : Lookup F → Result LoadError BbcConfig
  bbc_of bbc = do
    id_value ← need "bbc_id" bbc
    bbc_id ← as_text id_value
    device_value ← need "device_id" bbc
    device_id ← int_or fl (ℤ.pos 0) (some device_value)
    object_name ← text_or "Local Virtual B-BC" (bbc "object_name")
    vendor_name ← text_or "SBCO Simulator" (bbc "vendor_name")
    vendor_identifier ← int_or fl (ℤ.pos 999) (bbc "vendor_identifier")
    model_name ← text_or "Virtual BBC" (bbc "model_name")
    ok (record {
      bbc_id = bbc_id;
      device_id = device_id;
      object_name = object_name;
      vendor_name = vendor_name;
      vendor_identifier = vendor_identifier;
      model_name = model_name;
    })

  -- `int(net.get("foreign_ttl") or 30)`
  unfoldable pub ttl_of : Option (Value F) → Result LoadError ℤ
  ttl_of none = ok (ℤ.pos 30)
  ttl_of (some v) = if is_true fl v then int_or fl (ℤ.pos 30) (some v) else ok (ℤ.pos 30)

  -- `list(net.get("bbmd_bdt") or [])`
  unfoldable pub bdt_of : Option (Value F) → Result LoadError (List String)
  bdt_of none = ok []
  bdt_of (some v) = if is_true fl v then texts_or_empty (some v) else ok []

  unfoldable pub network_of : Lookup F → Result LoadError NetworkConfig
  network_of net = do
    type ← text_or "bacnet-ip" (net "type")
    bind_address ← text_or "0.0.0.0" (net "bind_address")
    port ← int_or fl (ℤ.pos 47808) (net "port")
    foreign_bbmd ← text_or_none (net "foreign_bbmd")
    foreign_ttl ← ttl_of (net "foreign_ttl")
    bbmd_bdt ← bdt_of (net "bbmd_bdt")
    ok (record {
      type = type;
      bind_address = bind_address;
      port = port;
      foreign_bbmd = foreign_bbmd;
      foreign_ttl = foreign_ttl;
      bbmd_bdt = bbmd_bdt;
    })

  unfoldable pub config_of : Lookup F → Result LoadError (SimulatorConfig F)
  config_of d = do
    bbc_value ← need "bbc" d
    bbc_dict ← dict_or_default (some bbc_value)
    bbc ← bbc_of (λ k. get_field k bbc_dict)
    net ← dict_or_default (d "network")
    network ← network_of (λ k. get_field k net)
    objects ← objects_of (d "objects")
    mode ← mode_from (d "mode")
    ok (record { bbc = bbc; network = network; objects = objects; mode = mode })

  unfoldable pub dict_to_config : Fields F → Result LoadError (SimulatorConfig F)
  dict_to_config d = config_of (λ k. get_field k d)
