-- ===== src/Semantic/Defs.antt =====
-- The functions of src/bbc_sim/semantic/brick.py.
use Prim.Native.String.{compare}
use text.Mathlib.Text.{is_lt}
use bacnet_sim_gateway.Common.{
  String, string_eq, Bool, ◌||◌, Option, none, some, List, [], ◌∷◌, contains, is_some,
  if◌then◌else◌,
}
use bacnet_sim_gateway.Common.Text.{strip}
use bacnet_sim_gateway.Common.Dict.{Dict, lookup}

abbrev pub device_seed : Dict String (List String)
device_seed =
    ("AirHandlingUnit", "ahu" ∷ "equip" ∷ [])
    ∷ ("AHU", "ahu" ∷ "equip" ∷ [])
    ∷ ("VAV", "vav" ∷ "equip" ∷ [])
    ∷ ("Sensor", "equip" ∷ [])
    ∷ ("Meter", "meter" ∷ "equip" ∷ [])
    ∷ ("Chiller", "chiller" ∷ "equip" ∷ [])
    ∷ ("Boiler", "boiler" ∷ "equip" ∷ [])
    ∷ []

abbrev pub point_seed : Dict String (List String)
point_seed =
    ("Temperature", "sensor" ∷ "temp" ∷ "air" ∷ "zone" ∷ [])
    ∷ ("Humidity", "sensor" ∷ "humidity" ∷ "air" ∷ [])
    ∷ ("CO2 Concentration", "sensor" ∷ "co2" ∷ "air" ∷ [])
    ∷ ("Illuminance", "sensor" ∷ "illuminance" ∷ [])
    ∷ ("Motion", "sensor" ∷ "occupancy" ∷ [])
    ∷ ("Flow Rate", "sensor" ∷ "flow" ∷ [])
    ∷ ("HVAC Control", "cmd" ∷ "hvac" ∷ [])
    ∷ ("Setpoint", "sp" ∷ [])
    ∷ ("Power", "sensor" ∷ "power" ∷ "elec" ∷ [])
    ∷ ("Energy", "sensor" ∷ "energy" ∷ "elec" ∷ [])
    ∷ []

abbrev device_brick_class : Dict String String
device_brick_class =
    ("AirHandlingUnit", "AHU")
    ∷ ("AHU", "AHU")
    ∷ ("VAV", "VAV")
    ∷ ("Chiller", "Chiller")
    ∷ ("Boiler", "Boiler")
    ∷ ("Meter", "Meter")
    ∷ ("Sensor", "Equipment")
    ∷ []

abbrev point_brick_class : Dict String String
point_brick_class =
    ("Temperature", "Air_Temperature_Sensor")
    ∷ ("Humidity", "Humidity_Sensor")
    ∷ ("CO2 Concentration", "CO2_Sensor")
    ∷ ("Illuminance", "Illuminance_Sensor")
    ∷ ("Motion", "Occupancy_Sensor")
    ∷ ("Flow Rate", "Flow_Sensor")
    ∷ ("HVAC Control", "Command")
    ∷ ("Setpoint", "Setpoint")
    ∷ ("Power", "Electrical_Power_Sensor")
    ∷ ("Energy", "Energy_Sensor")
    ∷ []

-- `d.get(k, default)`
abbrev pub get_or {ℓ} : {V : Type ℓ} → Option V → V → V
get_or none d = d
get_or (some v) d = v

unfoldable pub equipment_class : String → String
equipment_class device_type = get_or (lookup (strip device_type) device_brick_class) "Equipment"

unfoldable pub point_class : String → String
point_class point_type = get_or (lookup (strip point_type) point_brick_class) "Point"

-- `tags.update(items)`: a set as a list without repetition
unfoldable pub update_set : List String → List String → List String
update_set tags [] = tags
update_set tags (t ∷ items) = update_set (if contains tags t then tags else t ∷ tags) items

-- `sorted`, by code points
unfoldable pub insert_sorted : String → List String → List String
insert_sorted t [] = t ∷ []
insert_sorted t (u ∷ tags) = if is_lt (compare u t) then u ∷ insert_sorted t tags else t ∷ u ∷ tags

unfoldable pub sorted : List String → List String
sorted [] = []
sorted (t ∷ tags) = insert_sorted t (sorted tags)

unfoldable pub derive_tags : String → String → List String
derive_tags device_type point_type =
    let tags = update_set ("point" ∷ []) (get_or (lookup (strip point_type) point_seed) []) in
    sorted (update_set tags (get_or (lookup (strip device_type) device_seed) []))

unfoldable pub has_mapping : String → String → Bool
has_mapping device_type point_type =
    is_some (lookup (strip point_type) point_seed)
    || is_some (lookup (strip device_type) device_seed)
