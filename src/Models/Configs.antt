-- ===== src/Models/Configs.antt =====
-- The dataclasses of src/bbc_sim/models.py.
use bacnet_sim_gateway.Common.{String, ℤ, Bool, Option, none, List, []}
use bacnet_sim_gateway.Models.Enums.{
  RuntimeMode, BindingDirection, DeviceMappingMode, BacnetObjectType,
}
use bacnet_sim_gateway.Models.Values.{Value, Fields}

pub record SbcoPoint (F : Type 0) : Type 0 where
  pub gateway_id : String
  pub device_id : String
  pub device_name : String
  pub device_type : String
  pub site : String
  pub building : String
  pub floor : String
  pub installation_area : String
  pub target_area : String
  pub panel : String
  pub point_type : String
  pub point_specification : String
  pub point_id : String
  pub point_name : String
  pub writable : Bool
  pub interval : Option ℤ
  pub unit : String
  pub max_pres_value : Option F
  pub min_pres_value : Option F
  pub labels : List String
  pub scale : F
  pub tags : List String
  pub supplier : String
  pub owner : String
  pub description : String
  pub local_id : String
  pub device_id_bacnet : String
  pub instance_no_bacnet : Option ℤ
  pub object_type_bacnet : String

pub record BbcConfig : Type 0 where
  pub bbc_id : String
  pub device_id : ℤ
  pub object_name : String
  pub vendor_name : String
  pub vendor_identifier : ℤ
  pub model_name : String

pub record NetworkConfig : Type 0 where
  pub type : String
  pub bind_address : String
  pub port : ℤ
  pub foreign_bbmd : Option String
  pub foreign_ttl : ℤ
  pub bbmd_bdt : List String

pub record UpdateConfig (F : Type 0) : Type 0 where
  pub interval : Option ℤ
  pub mode : Option String
  pub params : Fields F

pub record BindingMapping (F : Type 0) : Type 0 where
  pub type : String
  pub scale : F
  pub offset : F
  pub value_path : Option String
  pub enum_map : Fields F

pub record BindingSpec (F : Type 0) : Type 0 where
  pub protocol : String
  pub direction : BindingDirection
  pub address : Option String
  pub mapping : BindingMapping F

pub record BacnetObjectSpec (F : Type 0) : Type 0 where
  pub point_id : String
  pub object_type : BacnetObjectType
  pub object_instance : ℤ
  pub object_name : String
  pub present_value : Value F
  pub units : Option String
  pub min_pres_value : Option F
  pub max_pres_value : Option F
  pub state_text : List String
  pub active_text : Option String
  pub inactive_text : Option String
  pub scale : F
  pub writable : Bool
  pub description : String
  pub update : UpdateConfig F
  pub metadata : Fields F
  pub binding : Option (BindingSpec F)
  pub tags : List String

pub record SimulatorConfig (F : Type 0) : Type 0 where
  pub bbc : BbcConfig
  pub network : NetworkConfig
  pub objects : List (BacnetObjectSpec F)
  pub mode : RuntimeMode

pub record MultiDeviceConfig (F : Type 0) : Type 0 where
  pub devices : List (SimulatorConfig F)
  pub device_mapping : DeviceMappingMode

-- the defaults of the dataclass fields
abbrev pub default_network : NetworkConfig
default_network = record {
  type = "bacnet-ip";
  bind_address = "0.0.0.0";
  port = ℤ.pos 47808;
  foreign_bbmd = none;
  foreign_ttl = ℤ.pos 30;
  bbmd_bdt = [];
}

abbrev pub default_bbc : String → ℤ → String → BbcConfig
default_bbc id device name = record {
  bbc_id = id;
  device_id = device;
  object_name = name;
  vendor_name = "SBCO Simulator";
  vendor_identifier = ℤ.pos 999;
  model_name = "Virtual BBC";
}
