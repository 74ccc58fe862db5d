-- ===== src/Export/Defs.antt =====
-- src/bbc_sim/export/artifacts.py and the command of src/bbc_sim/export/cli.py. A CSV table is the
-- list of its rows, a JSON object with known keys a record without its constants (`@context`, and
-- `@type` of the device and of the Thing); their texts are outside.
use bacnet_sim_gateway.Common.{
  ℕ, nat_eq, String, string_eq, list_eq, ◌<>◌, ℤ, Bool, true, false, not, Option, none, some, List,
  [], ◌∷◌, ◌++◌, map, ltb, contains, ◌==◌, if◌then◌else◌, Result, ok, raise, ◌>>=◌,
}
use bacnet_sim_gateway.Common.Text.{codes}
use bacnet_sim_gateway.Common.Dict.{Dict, keys, lookup, insert}
use bacnet_sim_gateway.Models.{
  Value, Fields, FloatOps, get_field, str_value, BacnetObjectType, object_type_text, is_analog,
  is_multistate, BacnetObjectSpec, SimulatorConfig,
}
use bacnet_sim_gateway.Semantic.{equipment_class, point_class}
use bacnet_sim_gateway.Yaml.{YamlFile, FileError, load_config, is_true}

abbrev pub supported_services : List String
supported_services =
    "Who-Is / I-Am" ∷ "ReadProperty" ∷ "ReadPropertyMultiple" ∷ "WriteProperty"
    ∷ "WritePropertyMultiple" ∷ "SubscribeCOV"
    ∷ "ConfirmedCOVNotification / UnconfirmedCOVNotification" ∷ []

abbrev pub supported_bibbs : List String
supported_bibbs =
    "DS-RP-B" ∷ "DS-RPM-B" ∷ "DS-WP-B" ∷ "DS-WPM-B" ∷ "DS-COV-B" ∷ "DS-COVU-B" ∷ "DM-DDB-B" ∷ []

abbrev pub Table : Type 0 → Type 0
Table F = List (List (Value F))

module _ {F : Type 0} where
  abbrev pub texts : List String → List (Value F)
  texts [] = []
  texts (s ∷ l) = Value.text s ∷ texts l

  -- `x if x is not None else ""`
  unfoldable pub real_cell : Option F → Value F
  real_cell none = Value.text ""
  real_cell (some x) = Value.real x

  -- `o.units or ""`
  unfoldable pub units_cell : Option String → Value F
  units_cell none = Value.text ""
  units_cell (some s) = Value.text s

  unfoldable pub ede_row : ℤ → BacnetObjectSpec F → List (Value F)
  ede_row device_id o =
      Value.text o.point_id
      ∷ Value.int device_id
      ∷ Value.text o.object_name
      ∷ Value.text (object_type_text o.object_type)
      ∷ Value.int o.object_instance
      ∷ Value.text o.description
      ∷ o.present_value
      ∷ real_cell o.min_pres_value
      ∷ real_cell o.max_pres_value
      ∷ Value.text (if o.writable then "Y" else "N")
      ∷ []

  unfoldable pub ieiej_row : ℤ → BacnetObjectSpec F → List (Value F)
  ieiej_row device_id o =
      Value.int device_id
      ∷ Value.text o.object_name
      ∷ Value.text (object_type_text o.object_type)
      ∷ Value.int o.object_instance
      ∷ units_cell o.units
      ∷ Value.text (if o.writable then "可" else "不可")
      ∷ Value.text o.description
      ∷ []

  unfoldable pub to_ieiej : SimulatorConfig F → Table F
  to_ieiej config =
      texts ("デバイスID" ∷ "オブジェクト名" ∷ "オブジェクト種別" ∷ "インスタンス番号" ∷ "単位" ∷ "書込可否" ∷ "説明" ∷ [])
      ∷ map (ieiej_row config.bbc.device_id) config.objects

-- the order of texts by their characters
unfoldable pub codes_lt : List ℕ → List ℕ → Bool
codes_lt [] [] = false
codes_lt [] (y ∷ ys) = true
codes_lt (x ∷ xs) [] = false
codes_lt (x ∷ xs) (y ∷ ys) = let rest = codes_lt xs ys in if x == y then rest else ltb x y

-- an element in its place of a sorted set
unfoldable pub insert_type : String → List String → List String
insert_type s [] = s ∷ []
insert_type s (t ∷ l) =
    let rest = insert_type s l in
    if s == t then t ∷ l else if codes_lt (codes s) (codes t) then s ∷ t ∷ l else t ∷ rest

module _ {F : Type 0} where
  -- `sorted({o.object_type.value for o in config.objects})`
  unfoldable pub sorted_types : List (BacnetObjectSpec F) → List String
  sorted_types [] = []
  sorted_types (o ∷ objects) = insert_type (object_type_text o.object_type) (sorted_types objects)

abbrev bullets : List String → List String
bullets [] = []
bullets (s ∷ l) = ("- " <> s) ∷ bullets l

module _ {F : Type 0} (fl : FloatOps F) where
  unfoldable pub to_ede : SimulatorConfig F → Table F
  to_ede config =
      (Value.text (
          "# EDE export for "
          <> config.bbc.bbc_id
          <> " (device "
          <> fl.show_int config.bbc.device_id
          <> ")")
        ∷ [])
      ∷ texts (
          "keyname" ∷ "device instance" ∷ "object-name" ∷ "object-type" ∷ "object-instance"
          ∷ "description" ∷ "present-value-default" ∷ "min-present-value" ∷ "max-present-value"
          ∷ "settable" ∷ [])
      ∷ map (ede_row config.bbc.device_id) config.objects

  -- the lines of the summary
  unfoldable pub to_pics : SimulatorConfig F → List String
  to_pics config =
      ("# PICS — " <> config.bbc.bbc_id)
      ∷ ""
      ∷ ("- Vendor: "
          <> config.bbc.vendor_name
          <> " (id "
          <> fl.show_int config.bbc.vendor_identifier
          <> ")")
      ∷ ("- Model: " <> config.bbc.model_name)
      ∷ ("- Device instance: " <> fl.show_int config.bbc.device_id)
      ∷ ""
      ∷ "## Standardized Object Types Supported"
      ∷ (bullets (sorted_types config.objects)
          ++ (""
              ∷ "## BACnet Interoperability Building Blocks (BIBBs)"
              ∷ (bullets supported_bibbs
                  ++ (""
                      ∷ "## Services"
                      ∷ (bullets supported_services
                          ++ ("" ∷ "## Data Link Layer" ∷ "- BACnet/IP (Annex J), UDP 47808" ∷ ""
                              ∷ "> BACnet/SC and BTL certification are out of scope (future, MVP-3)."
                              ∷ []))))))

pub record DeviceNode : Type 0 where
  pub id : String
  pub label : String
  pub has_point : List String

pub record PointNode : Type 0 where
  pub id : String
  pub type : String
  pub label : String
  pub is_point_of : String
  pub object_type : String
  pub object_instance : ℤ
  pub tags : List String

pub record EquipmentNode : Type 0 where
  pub id : String
  pub type : String
  pub label : String

-- `@graph`: the device, the points, and the equipment by its IRI
pub record Graph : Type 0 where
  pub device : DeviceNode
  pub points : List PointNode
  pub equipment : Dict String EquipmentNode

-- `equipment.setdefault(iri, node)`
unfoldable pub set_default :
    String → EquipmentNode → Dict String EquipmentNode → Dict String EquipmentNode
set_default iri node d = elim (lookup iri d) [ none ↦ insert iri node d | some old ↦ d ]

pub record Property : Type 0 where
  pub title : String
  pub type : String
  pub read_only : Bool
  pub object_type : String
  pub object_instance : ℤ
  pub href : String

pub record Thing : Type 0 where
  pub title : String
  pub id : String
  pub properties : Dict String Property

unfoldable pub wot_type : BacnetObjectType → String
wot_type ot = if is_analog ot then "number" else if is_multistate ot then "integer" else "string"

module _ {F : Type 0} (fl : FloatOps F) where
  -- `str(d.get(k, default))`
  unfoldable pub text_of : String → String → Fields F → String
  text_of k default d = elim (get_field k d) [ none ↦ default | some v ↦ str_value fl v ]

  -- `str(d.get("device_id") or "equip")`
  unfoldable pub equip_key : Fields F → String
  equip_key d = elim (get_field "device_id" d) [
    | none ↦ "equip"
    | some v ↦ if is_true fl v then str_value fl v else "equip"
  ]

  unfoldable pub device_iri : SimulatorConfig F → String
  device_iri config = "bacnet://" <> fl.show_int config.bbc.device_id

  unfoldable pub point_iri : String → BacnetObjectSpec F → String
  point_iri device o = device <> "/" <> o.point_id

  unfoldable pub equip_iri : String → BacnetObjectSpec F → String
  equip_iri device o = device <> "/equip/" <> equip_key o.metadata

  unfoldable pub equipment_node : String → BacnetObjectSpec F → EquipmentNode
  equipment_node device o = record {
    id = equip_iri device o;
    type = "brick:" <> equipment_class (text_of "device_type" "" o.metadata);
    label = text_of "device_name" (equip_key o.metadata) o.metadata;
  }

  unfoldable pub point_node : String → BacnetObjectSpec F → PointNode
  point_node device o = record {
    id = point_iri device o;
    type = "brick:" <> point_class (text_of "point_type" "" o.metadata);
    label = o.object_name;
    is_point_of = equip_iri device o;
    object_type = object_type_text o.object_type;
    object_instance = o.object_instance;
    tags = o.tags;
  }

  -- the loop over the objects
  unfoldable pub add_equipment :
      String → List (BacnetObjectSpec F) → Dict String EquipmentNode → Dict String EquipmentNode
  add_equipment device [] equipment = equipment
  add_equipment device (o ∷ objects) equipment =
      add_equipment device objects
        (set_default (equip_iri device o) (equipment_node device o) equipment)

  unfoldable pub to_jsonld : SimulatorConfig F → Graph
  to_jsonld config = record {
    device = record {
      id = device_iri config;
      label = config.bbc.object_name;
      has_point = map (point_iri (device_iri config)) config.objects;
    };
    points = map (point_node (device_iri config)) config.objects;
    equipment = add_equipment (device_iri config) config.objects [];
  }

  unfoldable pub property_of : ℤ → BacnetObjectSpec F → Property
  property_of device_id o = record {
    title = o.object_name;
    type = wot_type o.object_type;
    read_only = not o.writable;
    object_type = object_type_text o.object_type;
    object_instance = o.object_instance;
    href =
        "bacnet://"
        <> fl.show_int device_id
        <> "/"
        <> object_type_text o.object_type
        <> ","
        <> fl.show_int o.object_instance
        <> "/present-value";
  }

  unfoldable pub add_properties :
      ℤ → List (BacnetObjectSpec F) → Dict String Property → Dict String Property
  add_properties device_id [] properties = properties
  add_properties device_id (o ∷ objects) properties =
      add_properties device_id objects (insert o.point_id (property_of device_id o) properties)

  unfoldable pub to_wot_td : SimulatorConfig F → Thing
  to_wot_td config = record {
    title = config.bbc.object_name;
    id = "urn:bbc-sim:" <> config.bbc.bbc_id;
    properties = add_properties config.bbc.device_id config.objects [];
  }

-- an artifact before it is written as text
pub data Artifact (F : Type 0) : Type 0 where
  csv : Table F → Artifact F
  lines : List String → Artifact F
  jsonld : Graph → Artifact F
  thing : Thing → Artifact F

pub data ExportError : Type 0 where
  unknown_format : String → ExportError
  file_error : FileError → ExportError

module _ {F : Type 0} (fl : FloatOps F) where
  -- `FORMATS`
  unfoldable pub formats : Dict String (SimulatorConfig F → Artifact F)
  formats =
      ("ede", λ c. csv (to_ede fl c))
      ∷ ("ieiej", λ c. csv (to_ieiej c))
      ∷ ("pics", λ c. lines (to_pics fl c))
      ∷ ("jsonld", λ c. jsonld (to_jsonld fl c))
      ∷ ("wot", λ c. thing (to_wot_td fl c))
      ∷ []

  unfoldable pub export : SimulatorConfig F → String → Result ExportError (Artifact F)
  export config fmt = elim (lookup fmt formats) [
    | none ↦ raise (unknown_format fmt)
    | some renderer ↦ ok (renderer config)
  ]

-- `export_cmd` exits, writes the artifact to the output file, or prints it
pub data ExportEnd (F : Type 0) : Type 0 where
  exit_with : ℕ → ExportEnd F
  writes : String → Artifact F → ExportEnd F
  prints : Artifact F → ExportEnd F

module _ {F : Type 0} where
  unfoldable pub emit_artifact : Option String → Artifact F → ExportEnd F
  emit_artifact none artifact = prints artifact
  emit_artifact (some path) artifact = writes path artifact

abbrev file_or_raise : {A : Type 0} → Result FileError A → Result ExportError A
file_or_raise (ok a) = ok a
file_or_raise (raise e) = raise (file_error e)

module _ {F : Type 0} (fl : FloatOps F) where
  unfoldable pub export_loaded :
      String
      → Result ExportError (SimulatorConfig F)
      → Option String
      → Result ExportError (ExportEnd F)
  export_loaded fmt loaded output = do
    config ← loaded
    artifact ← export fl config fmt
    ok (emit_artifact output artifact)

  unfoldable pub export_cmd : String → YamlFile F → Option String → Result ExportError (ExportEnd F)
  export_cmd fmt file output =
      if contains (keys (formats fl)) fmt
      then export_loaded fmt (file_or_raise (load_config fl file)) output
      else ok (exit_with 1)
