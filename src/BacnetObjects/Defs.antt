-- ===== src/BacnetObjects/Defs.antt =====
-- `build_object`, `build_device`, `build_network_port` and `build_object_list`. An object is the record
-- of the properties that its class of bacpypes3 is given; `none` is a property that is not given.
use bacnet_sim_gateway.Common.{
  ℕ, String, string_eq, ◌<>◌, ℤ, Bool, false, ◌||◌, Option, none, some, List, [], ◌∷◌, ◌==◌, Result,
  ok, ◌>>=◌, length, leb, if◌then◌else◌,
}
use bacnet_sim_gateway.Common.Text.{is_blank}
use bacnet_sim_gateway.Models.{
  object_type_text, is_analog, is_binary, Value, FloatOps, ConversionError, int_value, float_value,
  BacnetObjectSpec, BbcConfig, NetworkConfig, SimulatorConfig,
}
use bacnet_sim_gateway.Yaml.{is_true}

pub record BuiltObject (F : Type 0) : Type 0 where
  pub object_identifier : String × ℤ
  pub object_name : String
  pub description : String
  pub status_flags : List ℕ
  pub event_state : String
  pub out_of_service : Bool
  pub present_value : Value F
  pub units : Option String
  pub min_pres_value : Option F
  pub max_pres_value : Option F
  pub polarity : Option String
  pub inactive_text : Option String
  pub active_text : Option String
  pub number_of_states : Option ℕ
  pub state_text : Option (List String)
  pub tags : List String

-- `spec_to_oid`: the type token and the number
unfoldable pub spec_to_oid : {F : Type 0} → BacnetObjectSpec F → String × ℤ
spec_to_oid spec = (object_type_text spec.object_type, spec.object_instance)

-- `max(1, min(pv, states))`
unfoldable pub clamp_state : ℤ → ℕ → ℕ
clamp_state (ℤ.negsuc p) states = 1
clamp_state (ℤ.pos p) states =
    let low = if leb p states then p else states in if leb 1 low then low else 1

module _ {F : Type 0} (fl : FloatOps F) where
  unfoldable pub binary_pv : Value F → String
  binary_pv (Value.text s) = if s == "active" || s == "inactive" then s else "inactive"
  binary_pv value = if is_true fl value then "active" else "inactive"

  -- the properties that every object has
  unfoldable pub base_object : BacnetObjectSpec F → Value F → BuiltObject F
  base_object spec value = record {
    object_identifier = spec_to_oid spec;
    object_name = spec.object_name;
    description = spec.description;
    status_flags = 0 ∷ 0 ∷ 0 ∷ 0 ∷ [];
    event_state = "normal";
    out_of_service = false;
    present_value = value;
    units = none;
    min_pres_value = none;
    max_pres_value = none;
    polarity = none;
    inactive_text = none;
    active_text = none;
    number_of_states = none;
    state_text = none;
    tags = spec.tags;
  }

  -- `spec.units or "noUnits"`
  unfoldable pub units_or_none : Option String → String
  units_or_none none = "noUnits"
  units_or_none (some u) = if is_blank u then "noUnits" else u

  -- `float(spec.present_value or 0.0)`
  unfoldable pub analog_start : Value F → Result ConversionError F
  analog_start value = if is_true fl value then float_value fl value else ok (fl.of_int (ℤ.pos 0))

  unfoldable pub build_analog : BacnetObjectSpec F → Result ConversionError (BuiltObject F)
  build_analog spec = do
    x ← analog_start spec.present_value
    ok (record (base_object spec (Value.real x)) {
      units = some (units_or_none spec.units);
      min_pres_value = spec.min_pres_value;
      max_pres_value = spec.max_pres_value;
    })

  unfoldable pub build_binary : BacnetObjectSpec F → BuiltObject F
  build_binary spec = record (base_object spec (Value.text (binary_pv spec.present_value))) {
    polarity = some "normal";
    inactive_text = spec.inactive_text;
    active_text = spec.active_text;
  }

  -- `spec.state_text or ["state-1"]`
  unfoldable pub states_of : List String → List String
  states_of [] = "state-1" ∷ []
  states_of (s ∷ states) = s ∷ states

  unfoldable pub state_start : Value F → Result ConversionError ℤ
  state_start value = if is_true fl value then int_value fl value else ok (ℤ.pos 1)

  unfoldable pub build_multistate : BacnetObjectSpec F → Result ConversionError (BuiltObject F)
  build_multistate spec = do
    pv ← state_start spec.present_value
    let n = length (states_of spec.state_text)
    ok (record (base_object spec (Value.int (ℤ.pos (clamp_state pv n)))) {
      number_of_states = some n;
      state_text = some (states_of spec.state_text);
    })

  unfoldable pub build_object : BacnetObjectSpec F → Result ConversionError (BuiltObject F)
  build_object spec =
      if is_analog spec.object_type
      then build_analog spec
      else if is_binary spec.object_type
      then ok (build_binary spec)
      else build_multistate spec

  unfoldable pub build_all_objects :
      List (BacnetObjectSpec F) → Result ConversionError (List (BuiltObject F))
  build_all_objects [] = ok []
  build_all_objects (spec ∷ specs) = do
    o ← build_object spec
    rest ← build_all_objects specs
    ok (o ∷ rest)

pub record BuiltDevice : Type 0 where
  pub object_identifier : String × ℤ
  pub object_name : String
  pub vendor_name : String
  pub vendor_identifier : ℤ
  pub model_name : String
  pub firmware_revision : String
  pub application_software_version : String

unfoldable pub build_device : BbcConfig → BuiltDevice
build_device bbc = record {
  object_identifier = ("device", bbc.device_id);
  object_name = bbc.object_name;
  vendor_name = bbc.vendor_name;
  vendor_identifier = bbc.vendor_identifier;
  model_name = bbc.model_name;
  firmware_revision = "0.1.0";
  application_software_version = "0.1.0";
}

-- how the port takes part in discovery across subnets
pub data PortMode : Type 0 where
  normal_mode : PortMode
  foreign_mode : String → ℤ → PortMode
  bbmd_mode : List String → PortMode

pub record BuiltPort : Type 0 where
  pub address : String
  pub object_identifier : String × ℤ
  pub object_name : String
  pub mode : PortMode

unfoldable pub bbmd_or_normal : List String → PortMode
bbmd_or_normal [] = normal_mode
bbmd_or_normal (a ∷ table) = bbmd_mode (a ∷ table)

unfoldable pub port_mode : NetworkConfig → PortMode
port_mode network = elim network.foreign_bbmd [
  | none ↦ bbmd_or_normal network.bbmd_bdt
  | some b ↦
      if is_blank b then bbmd_or_normal network.bbmd_bdt else foreign_mode b network.foreign_ttl
]

-- `show` is `str` of a number
unfoldable pub build_network_port : (ℤ → String) → NetworkConfig → BuiltPort
build_network_port show network = record {
  address = network.bind_address <> ":" <> show network.port;
  object_identifier = ("network-port", ℤ.pos 1);
  object_name = "NetworkPort-1";
  mode = port_mode network;
}

-- `[device, (network-port), *objects]`
pub record ObjectList (F : Type 0) : Type 0 where
  pub device : BuiltDevice
  pub port : Option BuiltPort
  pub objects : List (BuiltObject F)

module _ {F : Type 0} (fl : FloatOps F) where
  unfoldable pub build_object_list :
      SimulatorConfig F → Bool → Result ConversionError (ObjectList F)
  build_object_list config with_network = do
    objects ← build_all_objects fl config.objects
    ok (record {
      device = build_device config.bbc;
      port = if with_network then some (build_network_port fl.show_int config.network) else none;
      objects = objects;
    })
