-- ===== src/Southbound/Status.antt =====
-- `SouthboundManager.status` of src/bbc_sim/southbound/binding.py, and what it says of each point.
use bacnet_sim_gateway.Common.{
  String, string_eq, int_eq, pair_eq, Bool, true, Option, none, some, List, [], ◌∷◌, contains,
  if◌then◌else◌,
}
use bacnet_sim_gateway.Common.Dict.{lookup}
use bacnet_sim_gateway.Common.Text.{is_blank}
use bacnet_sim_gateway.Models.{
  FloatOps, direction_text, BindingSpec, BacnetObjectSpec, SimulatorConfig,
}
use bacnet_sim_gateway.Southbound.Address.{channels}
use bacnet_sim_gateway.Southbound.Binding.{TelemetryRecord, Manager}

pub record ProtocolStatus : Type 0 where
  pub protocol : String
  pub connected : Bool

pub record PointStatus (F : Type 0) : Type 0 where
  pub point_id : String
  pub protocol : String
  pub direction : String
  pub address : String
  pub last_update_ts : Option F
  pub quality : String

pub record SouthboundStatus (F : Type 0) : Type 0 where
  pub active : Bool
  pub protocols : List ProtocolStatus
  pub points : List (PointStatus F)

module _ {F : Type 0} where
  -- each protocol at its first object; `connected` is the `_started` of the transport
  unfoldable pub protocols_of : Bool → List String → List (BacnetObjectSpec F) → List ProtocolStatus
  protocols_of connected seen [] = []
  protocols_of connected seen (spec ∷ specs) = elim spec.binding [
    | none ↦ protocols_of connected seen specs
    | some b ↦
        if contains seen b.protocol
        then protocols_of connected seen specs
        else record { protocol = b.protocol; connected = connected }
          ∷ protocols_of connected (b.protocol ∷ seen) specs
  ]

  -- `rec.ts if rec else None`, and the quality
  unfoldable pub ts_of : Option (TelemetryRecord F) → Option F
  ts_of none = none
  ts_of (some r) = some r.ts

  unfoldable pub quality_or_unknown : Option (TelemetryRecord F) → String
  quality_or_unknown none = "unknown"
  quality_or_unknown (some r) = r.quality

module _ {F : Type 0} (fl : FloatOps F) where
  unfoldable pub address_or_channel : BacnetObjectSpec F → BindingSpec F → String
  address_or_channel spec b = elim b.address [
    | none ↦ (channels fl spec).0
    | some a ↦ if is_blank a then (channels fl spec).0 else a
  ]

  unfoldable pub point_status : Manager F → BacnetObjectSpec F → BindingSpec F → PointStatus F
  point_status m spec b =
      let rec = lookup spec.point_id m.last_telemetry in
      record {
        point_id = spec.point_id;
        protocol = b.protocol;
        direction = direction_text b.direction;
        address = address_or_channel spec b;
        last_update_ts = ts_of rec;
        quality = quality_or_unknown rec;
      }

  unfoldable pub point_statuses : Manager F → List (BacnetObjectSpec F) → List (PointStatus F)
  point_statuses m [] = []
  point_statuses m (spec ∷ specs) = elim spec.binding [
    | none ↦ point_statuses m specs
    | some b ↦ point_status m spec b ∷ point_statuses m specs
  ]

  unfoldable pub manager_status : Bool → SimulatorConfig F → Manager F → SouthboundStatus F
  manager_status connected config m = record {
    active = true;
    protocols = protocols_of connected [] config.objects;
    points = point_statuses m config.objects;
  }
