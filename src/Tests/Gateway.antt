-- ===== src/Tests/Gateway.antt =====
-- The properties of the gateway and of the application at concrete inputs.
use bacnet_sim_gateway.Common.{
  ℕ, nat_eq, String, string_eq, ℤ, int_eq, pair_eq, true, false, none, some, List, [], ◌∷◌, ◌≡◌,
  ◌↔◌, refl, inr, ok, raise,
}
use bacnet_sim_gateway.Common.Dict.{lookup, insert, from_items}
use bacnet_sim_gateway.Models.{
  BacnetObjectType, object_type_eq, analog_value, analog_input, is_multistate, is_binary,
  float_value, object_type_beq, Value,
}
use bacnet_sim_gateway.Validate.{
  validate_config, validate_objects, object_errors, has_command_binding,
}
use bacnet_sim_gateway.Generator.{mark_used}
use bacnet_sim_gateway.Bows.Registry.{
  init_registry, point_items, bacnet_items, resolve_point_id, resolve_bacnet,
  resolve_point_id-resolve_bacnet, PointRegistry,
}
use bacnet_sim_gateway.Bows.Downlink.{
  ControlResult, written, conversion_error, execute, coerce_present_value, is_read_only, pump,
}
use bacnet_sim_gateway.Bows.Downlink.Execution.{
  execute_success, execute_rejected, execute_conversion_error, call_of,
}
use bacnet_sim_gateway.Bows.Downlink.Stream.{Answers, pump-Answers}
use bacnet_sim_gateway.Bows.Uplink.{
  add_frame, frame_of, encode_value, Reading, TelemetryFrame, encode_telemetry_frames,
}
use bacnet_sim_gateway.Bows.Uplink.Frames.{FramesFor, encode_telemetry_frames-FramesFor}
use bacnet_sim_gateway.Tests.Samples.{ops, config, set_command, network, read_of}

abbrev registry : PointRegistry
registry = init_registry config.objects

pub config_valid : validate_config config ≡ []
unfolding validate_config validate_objects object_errors is_multistate has_command_binding mark_used
    object_type_beq
config_valid = refl

resolve_point_id-resolve_bacnet_example :
    (resolve_point_id registry "set" ≡ some (analog_value, ℤ.pos 1))
    ↔ (resolve_bacnet registry analog_value (ℤ.pos 1) ≡ some "set")
resolve_point_id-resolve_bacnet_example =
    resolve_point_id-resolve_bacnet config "set" analog_value (ℤ.pos 1) config_valid

execute_success_example :
    ((r : ControlResult) × ((execute ops network registry (set_command "set" 7) 0).0 ≡ ok r)
      × (r.success ≡ true))
    ↔ ((ot : BacnetObjectType) × (n : ℤ) × (value : Value ℕ) × (resolve_point_id registry "set"
          ≡ some (ot, n))
        × (is_read_only ot ≡ false)
        × (coerce_present_value ops ot 7 ≡ ok value)
        × ((network (call_of ops network (set_command "set" 7) 0 ot n value) 0).0 ≡ written))
execute_success_example = execute_success ops network (set_command "set" 7) 0 registry

execute_rejected_example :
    (r : ControlResult) × (execute ops network registry (set_command "in" 7) 0 ≡ (ok r, 0))
    × (r.success ≡ false)
    × (r.control_id ≡ "c1")
unfolding resolve_point_id init_registry is_read_only lookup from_items point_items insert
execute_rejected_example =
    execute_rejected ops network (set_command "in" 7) 0 registry
      (inr (analog_input, ℤ.pos 1, refl, refl))

execute_conversion_error_example :
    ((execute ops network registry (set_command "mode" 99) 0).0 ≡ raise conversion_error) ↔ (
      (ot : BacnetObjectType) × (n : ℤ) × (resolve_point_id registry "mode" ≡ some (ot, n))
      × (is_read_only ot ≡ false)
      × (is_multistate ot ≡ true)
      × (ops.round 99 ≡ none))
execute_conversion_error_example =
    execute_conversion_error ops network (set_command "mode" 99) 0 registry

pump-Answers_example :
    Answers
      (set_command "set" 7 ∷ set_command "in" 7 ∷ [])
      (pump ops network registry (set_command "set" 7 ∷ set_command "in" 7 ∷ []) 0)
pump-Answers_example =
    pump-Answers ops network registry (set_command "set" 7 ∷ set_command "in" 7 ∷ []) 0

abbrev readings : List (Reading ℕ String)
readings = read_of analog_value (ℤ.pos 1) 7 ∷ read_of analog_value (ℤ.pos 2) 8 ∷ []

abbrev frames : List (TelemetryFrame ℕ)
frames =
    record { gateway_id = "gw"; point_id = "set"; value = Value.real 7; timestamp = "now" } ∷ []

encode_telemetry_frames-FramesFor_example : FramesFor registry readings frames
unfolding encode_telemetry_frames add_frame resolve_bacnet lookup init_registry from_items
    bacnet_items insert frame_of encode_value is_binary is_multistate float_value object_type_beq
encode_telemetry_frames-FramesFor_example =
    encode_telemetry_frames-FramesFor ops (λ t. t) "gw" "now" config config_valid readings frames
      refl
