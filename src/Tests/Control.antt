-- ===== src/Tests/Control.antt =====
-- The properties of the control plane, of the transport and of the runtime at concrete inputs.
use bacnet_sim_gateway.Common.{
  ℕ, nat_eq, String, string_eq, ℤ, int_eq, pair_eq, true, false, none, some, List, [], ◌∷◌, Result,
  ok, raise, ◌≡◌, refl, ◌==◌, if◌then◌else◌,
}
use bacnet_sim_gateway.Common.Dict.{Dict, lookup, insert, from_items}
use bacnet_sim_gateway.Models.{Value, BacnetObjectSpec, RuntimeMode, analog_value}
use bacnet_sim_gateway.Runtime.App.{
  Oid, oid_key, dash_text, compute_writable_oids, writable_oids_of,
}
use bacnet_sim_gateway.Simulation.Fault.{LiveObject}
use bacnet_sim_gateway.Simulation.Engine.{tick}
use bacnet_sim_gateway.Southbound.{Assign, new_manager}
use bacnet_sim_gateway.Southbound.Transport.{feed, new_transport}
use bacnet_sim_gateway.Southbound.Transport.Delivery.{
  start_on, listeners, receive_all, feed-start_on,
}
use bacnet_sim_gateway.Rest.Reload.{spec_map, spec_items}
use bacnet_sim_gateway.Rest.Api.{ApiState, AssignError, scenario}
use bacnet_sim_gateway.Rest.Api.Writes.{serve_writes, serve_writes-compute_writable_oids}
use bacnet_sim_gateway.Rest.Api.Freeze.{scenario-tick}
use bacnet_sim_gateway.Runtime.Lifecycle.{Outside, RuntimeState, start_runtime, run_forever}
use bacnet_sim_gateway.Runtime.Lifecycle.Clean.{RunEnds, run_forever-RunEnds}
use bacnet_sim_gateway.Tests.Simulation.{draws, live}
use bacnet_sim_gateway.Tests.Southbound.{bound_config, loads, setpoint}
use bacnet_sim_gateway.Tests.Samples.{ops, spec, config}

-- the setpoint, and what telemetry makes of it
abbrev objects : Dict Oid (LiveObject ℕ)
objects = (setpoint, live setpoint) ∷ []

-- an assignment that stores what it is given, but for one value
abbrev refuse : Assign ℕ String
refuse o (Value.real x) = if x == 8 then raise "refused" else ok (Value.real x)
refuse o v = ok v

feed-start_on_example :
    let after =
      feed "field/set/telemetry"
        (some "7")
        (start_on ops refuse loads 5 bound_config new_transport)
        (new_manager, objects) in
    (after.0 ≡ ok tt)
    × (lookup setpoint after.1.1
        ≡ receive_all ops refuse loads 5 setpoint
            (some "7")
            (listeners ops refuse loads 5 "field/set/telemetry" bound_config.objects)
            (lookup setpoint objects))
feed-start_on_example =
    feed-start_on ops refuse loads 5 bound_config "field/set/telemetry" (some "7")
      (new_manager, objects) setpoint

-- an assignment that stores what it is given
abbrev assign : LiveObject ℕ → Value ℕ → Result AssignError (Value ℕ)
assign o v = ok v

abbrev api : ApiState ℕ
api = record { config = config; objects = objects; faults = [] }

abbrev writes : List (String × Value ℕ)
writes = ("in", Value.real 5) ∷ ("set", Value.real 6) ∷ []

abbrev sensor : Oid
sensor = ("analog-input", ℤ.pos 1)

serve_writes-compute_writable_oids_example :
    (lookup sensor (serve_writes ops assign writes api).objects ≡ lookup sensor objects)
    × ((serve_writes ops assign writes api).config ≡ config)
    × ((serve_writes ops assign writes api).faults ≡ [])
unfolding compute_writable_oids writable_oids_of oid_key dash_text
serve_writes-compute_writable_oids_example =
    serve_writes-compute_writable_oids ops assign writes api sensor refl

abbrev set_spec : BacnetObjectSpec ℕ
set_spec = spec "set" analog_value (ℤ.pos 1) [] true

scenario-tick_example :
    let after = (scenario ops assign "set" (some "freeze") none api).1 in
    lookup (oid_key set_spec) (tick ops refuse draws 3 after.faults [] after.objects).objects
    ≡ some (live setpoint)
unfolding spec_map spec_items from_items lookup insert oid_key dash_text
scenario-tick_example =
    scenario-tick ops refuse draws assign "set" set_spec (live setpoint) none api refl refl refl 3
      []

-- transports that start and stop
abbrev outside : Outside
outside = record {
  urlparse = λ uri. record { scheme = "mqtt"; hostname = some "broker"; port = none };
  start_transport = λ t. ok tt;
  stop_transport = λ t. ok tt;
}

abbrev made : RuntimeState ℕ ℕ
made = record {
  config = record bound_config { mode = RuntimeMode.gateway };
  options = record { transport_uri = some "mqtt://broker"; rest_port = none };
  engine = none;
  engine_running = false;
  manager = none;
  transport_started = false;
  rest_running = false;
  app_open = true;
  log_handler = true;
}

run_forever-RunEnds_example :
    RunEnds ops draws outside made
      (start_runtime ops draws outside made)
      (run_forever ops draws outside made)
run_forever-RunEnds_example =
    run_forever-RunEnds ops draws outside made
      (record { no_manager = refl; no_engine = refl; no_transport = refl; no_rest = refl })
      (λ spec. refl)
