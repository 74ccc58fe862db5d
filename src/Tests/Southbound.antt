-- ===== src/Tests/Southbound.antt =====
-- The properties of the southbound bindings at concrete inputs.
use bacnet_sim_gateway.Common.{
  ℕ, nat_eq, String, string_eq, ℤ, int_eq, pair_eq, true, Option, none, some, [], ◌∷◌, ok, ◌>>=◌,
  contains, ◌≡◌, refl, if◌then◌else◌, ◌==◌,
}
use bacnet_sim_gateway.Common.Dict.{insert}
use bacnet_sim_gateway.Models.{
  Value, Fields, BacnetObjectSpec, SimulatorConfig, BindingDirection, BacnetObjectType,
  analog_value, binary_value, is_truthy, is_multistate, is_binary, object_type_beq,
}
use bacnet_sim_gateway.Generator.{mark_used}
use bacnet_sim_gateway.Validate.{
  validate_config, validate_objects, object_errors, has_command_binding, takes_commands,
}
use bacnet_sim_gateway.Runtime.App.{Oid, oid_key, dash_text, compute_writable_oids}
use bacnet_sim_gateway.Southbound.{
  start, bind_all, bind_spec, bind, command_value, present_value_of_raw, is_boolean,
}
use bacnet_sim_gateway.Southbound.Commands.{start-compute_writable_oids}
use bacnet_sim_gateway.Southbound.Telemetry.{command_value-present_value_of_raw}
use bacnet_sim_gateway.Tests.Samples.{ops, spec, config}

abbrev pub bound : BacnetObjectType → BacnetObjectSpec ℕ
bound object_type = record (spec "set" object_type (ℤ.pos 1) [] true) {
  binding = some (record {
    protocol = "mqtt";
    direction = BindingDirection.both;
    address = some "field/set";
    mapping = record {
      type = "real";
      scale = 1;
      offset = 0;
      value_path = none;
      enum_map = Fields.end;
    };
  });
}

abbrev pub bound_config : SimulatorConfig ℕ
bound_config = record config { objects = bound analog_value ∷ [] }

bound_config_valid : validate_config bound_config ≡ []
unfolding validate_config validate_objects object_errors is_multistate has_command_binding
    takes_commands mark_used object_type_beq
bound_config_valid = refl

abbrev pub setpoint : Oid
setpoint = ("analog-value", ℤ.pos 1)

start-compute_writable_oids_example : contains (compute_writable_oids bound_config) setpoint ≡ true
unfolding start bind_all bind_spec bind takes_commands oid_key dash_text insert
start-compute_writable_oids_example =
    start-compute_writable_oids ops bound_config setpoint bound_config_valid refl

abbrev pub loads : String → Option (Value ℕ)
loads text = if text == "7" then some (Value.real 7) else none

command_value-present_value_of_raw_example :
    (command_value ops (bound binary_value) (Value.text "active")
      >>= present_value_of_raw ops (bound binary_value))
    ≡ ok (Value.text (if is_truthy ops (Value.text "active") then "active" else "inactive"))
unfolding is_boolean is_binary
command_value-present_value_of_raw_example =
    command_value-present_value_of_raw ops (bound binary_value) (Value.text "active") refl
