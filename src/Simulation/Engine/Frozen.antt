-- ===== src/Simulation/Engine/Frozen.antt =====
-- A tick leaves suppressed objects alone.
use bacnet_sim_gateway.Common.{
  string_eq, int_eq, pair_eq, Bool, true, false, Option, none, some, List, [], ◌∷◌, Result, ok,
  raise, ◌==◌, ◌≡◌, refl, sym, ◌∙◌, arith,
}
use bacnet_sim_gateway.Common.Dict.{lookup, lookup-insert}
use bacnet_sim_gateway.Models.{Value, FloatOps, ConversionError}
use bacnet_sim_gateway.Runtime.App.{Oid, oid_key}
use bacnet_sim_gateway.Simulation.Fault.{LiveObject, States, is_suppressed}
use bacnet_sim_gateway.Simulation.Generators.{Randomness}
use bacnet_sim_gateway.Simulation.Engine.Defs.{
  Objects, Driven, Ticked, store_assigned, store_value, skip, tick_one, tick,
}

module _ {F E R : Type 0} (fl : FloatOps F) (assign : LiveObject F → Value F → Result E (Value F))
    (rand : Randomness F R) (key : Oid) where
  -- a rest of the loop that keeps the object
  abbrev KeepsObject : (Objects F → Ticked F R E) → Type 0
  KeepsObject rest = (objects : Objects F) → lookup key (rest objects).objects ≡ lookup key objects

  store_assigned_other :
      (d : Driven F R) (obj : LiveObject F) (v : Result E (Value F)) (objects : Objects F)
      (later : List (Driven F R)) (rest : Objects F → Ticked F R E)
      → (key == oid_key d.0) ≡ false
      → KeepsObject rest
      → lookup key (store_assigned fl assign rand d obj v objects later rest).objects
        ≡ lookup key objects
  unfolding store_assigned
  store_assigned_other d obj (raise e) objects later rest other keeps = refl
  store_assigned_other d obj (ok v) objects later rest other keeps =
      let written = lookup-insert key (oid_key d.0) (record obj { present_value = v }) objects in
      keeps _ ∙ (rw (written, other))

  store_value_other :
      (d : Driven F R) (obj : LiveObject F) (v : Result ConversionError (Value F))
      (objects : Objects F) (later : List (Driven F R)) (rest : Objects F → Ticked F R E)
      → (key == oid_key d.0) ≡ false
      → KeepsObject rest
      → lookup key (store_value fl assign rand d obj v objects later rest).objects
        ≡ lookup key objects
  unfolding store_value
  store_value_other d obj (raise e) objects later rest other keeps = refl
  store_value_other d obj (ok v) objects later rest other keeps =
      store_assigned_other d obj (assign obj v) objects later rest other keeps

  tick_one_keeps :
      (t : F) (d : Driven F R) (o : Option (LiveObject F)) (suppressed : Bool) (objects : Objects F)
      (later : List (Driven F R)) (rest : Objects F → Ticked F R E)
      → ((key == oid_key d.0) ≡ true → suppressed ≡ true)
      → KeepsObject rest
      → lookup key (tick_one fl assign rand t d o suppressed objects later rest).objects
        ≡ lookup key objects
  unfolding tick_one skip
  tick_one_keeps t d none suppressed objects later rest frozen keeps = keeps objects
  tick_one_keeps t d (some obj) true objects later rest frozen keeps = keeps objects
  tick_one_keeps t d (some obj) false objects later rest frozen keeps =
      store_value_other _ obj _ objects later rest (ground arith) keeps

  -- Whatever the generators are, and however the tick ends, an object with a freeze or a lost
  -- communication is after the tick as it was before it.
  pub tick-is_suppressed :
      (t : F) (states : States)
      → is_suppressed key states ≡ true
      → (generators : List (Driven F R)) (objects : Objects F)
      → lookup key (tick fl assign rand t states generators objects).objects ≡ lookup key objects
  unfolding tick
  tick-is_suppressed t states frozen [] objects = refl
  tick-is_suppressed t states frozen (d ∷ later) objects =
      tick_one_keeps t d (lookup (oid_key d.0) objects) (is_suppressed (oid_key d.0) states) objects
        later (λ after. tick fl assign rand t states later after)
        (λ same. rw (sym ((pair_eq.decides key (oid_key d.0)).0 same)) frozen)
        (tick-is_suppressed t states frozen later)
