-- ===== src/Southbound/Binding.antt =====
-- `SouthboundManager` of src/bbc_sim/southbound/binding.py. The transport is what it has subscribed
-- and published; `loads` is `json.loads`, and `now` is `time.time()`.
use bacnet_sim_gateway.Common.{
  String, string_eq, int_eq, pair_eq, Bool, true, false, Option, none, some, List, [], ◌∷◌, ◌++◌,
  Result, ok, raise, if◌then◌else◌,
}
use bacnet_sim_gateway.Common.Dict.{Dict, keys, lookup, insert}
use bacnet_sim_gateway.Models.{
  Value, FloatOps, ConversionError, BindingDirection, telemetry, command, both, BindingSpec,
  BacnetObjectSpec, SimulatorConfig,
}
use bacnet_sim_gateway.Validate.{takes_commands}
use bacnet_sim_gateway.Runtime.App.{Oid, oid_key}
use bacnet_sim_gateway.Simulation.Fault.{LiveObject}
use bacnet_sim_gateway.Southbound.Address.{channels}
use bacnet_sim_gateway.Southbound.Transform.{telemetry_to_present_value, present_value_to_command}

pub record TelemetryRecord (F : Type 0) : Type 0 where
  pub ts : F
  pub value : Value F
  pub quality : String

-- the manager, and the transport's subscriptions and published messages
pub record Manager (F : Type 0) : Type 0 where
  pub command_channel : Dict Oid (BacnetObjectSpec F × String)
  pub last_telemetry : Dict String (TelemetryRecord F)
  pub subscriptions : List (String × BacnetObjectSpec F)
  pub published : List (String × Value F)

abbrev pub new_manager : {F : Type 0} → Manager F
new_manager = record {
  command_channel = [];
  last_telemetry = [];
  subscriptions = [];
  published = [];
}

unfoldable pub takes_telemetry : BindingDirection → Bool
takes_telemetry telemetry = true
takes_telemetry command = false
takes_telemetry both = true

module _ {F : Type 0} (fl : FloatOps F) where
  -- the body of the loop of `start` for a spec with a binding
  unfoldable pub bind : BacnetObjectSpec F → BindingSpec F → Manager F → Manager F
  bind spec b m = record m {
    subscriptions =
        if takes_telemetry b.direction
        then m.subscriptions ++ ((channels fl spec).0, spec) ∷ []
        else m.subscriptions;
    command_channel =
        if takes_commands b.direction
        then insert (oid_key spec) (spec, (channels fl spec).1) m.command_channel
        else m.command_channel;
  }

  unfoldable pub bind_spec : BacnetObjectSpec F → Option (BindingSpec F) → Manager F → Manager F
  bind_spec spec none m = m
  bind_spec spec (some b) m = bind spec b m

  unfoldable pub bind_all : List (BacnetObjectSpec F) → Manager F → Manager F
  bind_all [] m = m
  bind_all (spec ∷ specs) m = bind_all specs (bind_spec spec spec.binding m)

  -- the manager after `start`, and the objects that it gives to `set_command_oids`
  unfoldable pub start : SimulatorConfig F → Manager F × List Oid
  start config = let m = bind_all config.objects new_manager in (m, keys m.command_channel)

  -- `_on_command`: an exception of the conversion leaves it before anything is published
  unfoldable pub publish_command :
      String
      → Result ConversionError (Value F)
      → Manager F
      → Result ConversionError (Unit {0}) × Manager F
  publish_command channel (raise e) m = (raise e, m)
  publish_command channel (ok v) m =
      (ok tt, record m { published = m.published ++ (channel, v) ∷ [] })

  unfoldable pub on_command :
      Oid → Value F → Manager F → Result ConversionError (Unit {0}) × Manager F
  on_command key value m = elim (lookup key m.command_channel) [
    | none ↦ (ok tt, m)
    | some (spec, channel) ↦ publish_command channel (present_value_to_command fl spec value) m
  ]

  unfoldable pub mark : BacnetObjectSpec F → TelemetryRecord F → Manager F → Manager F
  mark spec r m = record m { last_telemetry = insert spec.point_id r m.last_telemetry }

-- the assignment to `presentValue`: the value that the object keeps, or the exception
abbrev pub Assign : Type 0 → Type 0 → Type 0
Assign F E = LiveObject F → Value F → Result E (Value F)

module _ {F E : Type 0} (fl : FloatOps F) (assign : Assign F E) where
  unfoldable pub store_object :
      Oid
      → LiveObject F
      → Result E (Value F)
      → Dict Oid (LiveObject F)
      → Result E (Dict Oid (LiveObject F))
  store_object oid o (ok v) objects = ok (insert oid (record o { present_value = v }) objects)
  store_object oid o (raise e) objects = raise e

  unfoldable pub write_object :
      Oid → Value F → Dict Oid (LiveObject F) → Result E (Dict Oid (LiveObject F))
  write_object oid v objects = elim (lookup oid objects) [
    | none ↦ ok objects
    | some o ↦ store_object oid o (assign o v) objects
  ]

  -- the record of a value, or of an exception of the assignment
  unfoldable pub mark_written :
      BacnetObjectSpec F
      → Value F
      → F
      → Manager F
      → Dict Oid (LiveObject F)
      → Result E (Dict Oid (LiveObject F))
      → Manager F × Dict Oid (LiveObject F)
  mark_written spec v now m objects (ok after) =
      (mark fl spec (record { ts = now; value = v; quality = "good" }) m, after)
  mark_written spec v now m objects (raise e) =
      (mark fl spec (record { ts = now; value = Value.null; quality = "bad" }) m, objects)

  -- the telemetry handler of a spec, by the outcome of the conversion
  unfoldable pub handle_value :
      BacnetObjectSpec F
      → Result ConversionError (Value F)
      → F
      → Manager F
      → Dict Oid (LiveObject F)
      → Manager F × Dict Oid (LiveObject F)
  handle_value spec (ok v) now m objects =
      mark_written spec v now m objects (write_object (oid_key spec) v objects)
  handle_value spec (raise e) now m objects =
      (mark fl spec (record { ts = now; value = Value.null; quality = "bad" }) m, objects)

  unfoldable pub handler :
      (String → Option (Value F))
      → BacnetObjectSpec F
      → Option String
      → F
      → Manager F
      → Dict Oid (LiveObject F)
      → Manager F × Dict Oid (LiveObject F)
  handler loads spec payload now m objects =
      handle_value spec (telemetry_to_present_value fl loads spec payload) now m objects
