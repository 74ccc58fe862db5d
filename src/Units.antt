-- ===== src/Units.antt =====
-- src/bbc_sim/yaml_generator/units.py: SBCO units as BACnet engineering units.
use bacnet_sim_gateway.Common.{
  ℕ, String, Option, none, some, List, [], ◌∷◌, list_eq, nat_eq, is_empty, if◌then◌else◌,
}
use bacnet_sim_gateway.Common.Text.{codes, strip, lower}
use bacnet_sim_gateway.Common.Dict.{Dict, lookup}

abbrev pub unit_map : Dict (List ℕ) String
unit_map =
    (codes "℃", "degreesCelsius")
    ∷ (codes "degc", "degreesCelsius")
    ∷ (codes "celsius", "degreesCelsius")
    ∷ (codes "°c", "degreesCelsius")
    ∷ (codes "%", "percent")
    ∷ (codes "%rh", "percentRelativeHumidity")
    ∷ (codes "kw", "kilowatts")
    ∷ (codes "kwh", "kilowattHours")
    ∷ (codes "pa", "pascals")
    ∷ (codes "m3/h", "cubicMetersPerHour")
    ∷ (codes "ppm", "partsPerMillion")
    ∷ (codes "lux", "luxes")
    ∷ (codes "lx", "luxes")
    ∷ (codes "m/s", "metersPerSecond")
    ∷ (codes "bar", "bars")
    ∷ (codes "bars", "bars")
    ∷ (codes "mbar", "millibars")
    ∷ []

abbrev pub no_units : String
no_units = "noUnits"

-- The second part is the warning: `some unit` stands for the text "unknown unit ...; falling back".
unfoldable pub to_bacnet_units : String → String × Option String
to_bacnet_units unit =
    let key = lower (strip unit) in
    if is_empty key
    then (no_units, none)
    else elim (lookup key unit_map) [ none ↦ (no_units, some unit) | some mapped ↦ (mapped, none) ]
