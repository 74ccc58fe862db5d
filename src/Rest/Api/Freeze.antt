-- ===== src/Rest/Api/Freeze.antt =====
-- A freeze that is injected through the control plane holds in the simulation.
use mathlib.Core.Path.{subst}
use bacnet_sim_gateway.Common.{
  String, string_eq, int_eq, pair_eq, true, Option, some, List, Result, ◌≡◌, refl, ◌∙◌,
}
use bacnet_sim_gateway.Common.Dict.{lookup, insert, lookup-insert_self}
use bacnet_sim_gateway.Models.{Value, FloatOps, BacnetObjectSpec}
use bacnet_sim_gateway.Runtime.App.{Oid, oid_key}
use bacnet_sim_gateway.Simulation.Fault.{
  FaultType, LiveObject, States, is_suppressed, next_state, fault_state, apply, apply_to_object,
}
use bacnet_sim_gateway.Simulation.Generators.{Randomness}
use bacnet_sim_gateway.Simulation.Engine.{Driven, tick}
use bacnet_sim_gateway.Simulation.Engine.Frozen.{tick-is_suppressed}
use bacnet_sim_gateway.Rest.Reload.{spec_map}
use bacnet_sim_gateway.Rest.Api.Defs.{
  AssignError, ApiState, scenario, run_scenario, run_fault, fault_of_text, apply_fault, store_fault,
}

module _ {F E R : Type 0} (fl : FloatOps F)
    (engine_assign : LiveObject F → Value F → Result E (Value F)) (rand : Randomness F R)
    (assign : LiveObject F → Value F → Result AssignError (Value F)) where
  -- the state and the objects after the request
  after_freeze :
      (point_id : String) (spec : BacnetObjectSpec F) (o : LiveObject F) (value : Option (Value F))
      (s : ApiState F)
      → lookup point_id (spec_map s.config.objects) ≡ some spec
      → lookup (oid_key spec) s.objects ≡ some o
      → (scenario fl assign point_id (some "freeze") value s).1 ≡ record s {
        objects = insert (oid_key spec) o s.objects;
        faults =
            insert o.object_identifier
              (next_state FaultType.freeze (fault_state o.object_identifier s.faults))
              s.faults;
      }
  unfolding scenario run_scenario run_fault fault_of_text apply_fault store_fault apply
      apply_to_object
  after_freeze point_id spec o value s known there = rw (known, scenario, there, run_scenario) refl

  is_suppressed-freeze :
      (key : Oid) (states : States)
      → is_suppressed key (insert key (next_state FaultType.freeze (fault_state key states)) states)
        ≡ true
  unfolding is_suppressed next_state
  is_suppressed-freeze key states = rw (lookup-insert_self key _ states, is_suppressed) refl

  -- After a request to freeze a point of the config whose object is there, with its own identifier, the
  -- object is through any tick of the engine as it was before the request.
  pub scenario-tick :
      (point_id : String) (spec : BacnetObjectSpec F) (o : LiveObject F) (value : Option (Value F))
      (s : ApiState F)
      → lookup point_id (spec_map s.config.objects) ≡ some spec
      → lookup (oid_key spec) s.objects ≡ some o
      → o.object_identifier ≡ oid_key spec
      → (t : F) (generators : List (Driven F R))
      → let after = (scenario fl assign point_id (some "freeze") value s).1 in
        lookup
          (oid_key spec)
          (tick fl engine_assign rand t after.faults generators after.objects).objects
        ≡ some o
  scenario-tick point_id spec o value s known there own t generators =
      let states : States =
        insert o.object_identifier
          (next_state FaultType.freeze (fault_state o.object_identifier s.faults)) s.faults in
      let frozen : is_suppressed (oid_key spec) states ≡ true =
        subst (λ key. is_suppressed key states ≡ true) own
          (is_suppressed-freeze o.object_identifier s.faults) in
      rw (after_freeze point_id spec o value s known there) (
        tick-is_suppressed fl engine_assign rand (oid_key spec) t states frozen generators
          (insert (oid_key spec) o s.objects)
        ∙ lookup-insert_self (oid_key spec) o s.objects)
