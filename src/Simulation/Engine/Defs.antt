-- ===== src/Simulation/Engine/Defs.antt =====
-- `SimulationEngine`, without its asyncio task. The objects of the application are a dict by object
-- key; an exception of a conversion, or of the assignment to `presentValue`, leaves `tick` with what was
-- written before it.
use bacnet_sim_gateway.Common.{
  string_eq, int_eq, pair_eq, Bool, true, false, not, Option, none, some, List, [], ◌∷◌, Result, ok,
  raise, ◌>>=◌, is_empty, if◌then◌else◌,
}
use bacnet_sim_gateway.Common.Dict.{Dict, lookup, insert}
use bacnet_sim_gateway.Models.{
  Value, FloatOps, ConversionError, int_value, float_value, is_truthy, is_binary, is_multistate,
  BacnetObjectSpec, SimulatorConfig,
}
use bacnet_sim_gateway.Runtime.App.{Oid, oid_key}
use bacnet_sim_gateway.Simulation.Fault.{LiveObject, States, is_suppressed}
use bacnet_sim_gateway.Simulation.Generators.{
  Randomness, Generator, GeneratorError, make_generator, next,
}

abbrev pub Objects : Type 0 → Type 0
Objects F = Dict Oid (LiveObject F)

abbrev pub Driven : Type 0 → Type 0 → Type 0
Driven F R = BacnetObjectSpec F × Generator F R

-- an exception that leaves `tick`
pub data TickError (E : Type 0) : Type 0 where
  not_coerced : ConversionError → TickError E
  not_assigned : E → TickError E

-- the generators, the objects and how the tick ended
pub record Ticked (F R E : Type 0) : Type 0 where
  pub generators : List (Driven F R)
  pub objects : Objects F
  pub outcome : Result (TickError E) (Unit {0})

module _ {F : Type 0} (fl : FloatOps F) where
  unfoldable pub coerce : BacnetObjectSpec F → Value F → Result ConversionError (Value F)
  coerce spec value =
      if is_binary spec.object_type
      then ok (Value.text (if is_truthy fl value then "active" else "inactive"))
      else if is_multistate spec.object_type
      then (do i ← int_value fl value; ok (Value.int i))
      else (do x ← float_value fl value; ok (Value.real x))

  module _ {R : Type 0} (rand : Randomness F R) where
    -- the loop of `__init__` and of `rebuild`, with the generators that it appended before an
    -- exception
    unfoldable pub add_generator :
        BacnetObjectSpec F
        → Result GeneratorError (Option (Generator F R))
        → Result GeneratorError (Unit {0}) × List (Driven F R)
        → Result GeneratorError (Unit {0}) × List (Driven F R)
    add_generator spec (raise e) rest = (raise e, [])
    add_generator spec (ok none) rest = rest
    add_generator spec (ok (some g)) (outcome, generators) = (outcome, (spec, g) ∷ generators)

    unfoldable pub build_generators :
        List (BacnetObjectSpec F) → Result GeneratorError (Unit {0}) × List (Driven F R)
    build_generators [] = (ok tt, [])
    build_generators (spec ∷ specs) =
        add_generator spec (make_generator fl rand spec) (build_generators specs)

    unfoldable pub rebuild :
        SimulatorConfig F → Result GeneratorError (Unit {0}) × List (Driven F R)
    rebuild config = build_generators config.objects

    unfoldable pub has_generators : List (Driven F R) → Bool
    has_generators generators = not (is_empty generators)

module _ {F E R : Type 0} (fl : FloatOps F) (assign : LiveObject F → Value F → Result E (Value F))
    (rand : Randomness F R) where
  -- the write of one generator's value, and the rest of the loop if the object takes it
  unfoldable pub store_assigned :
      Driven F R
      → LiveObject F
      → Result E (Value F)
      → Objects F
      → List (Driven F R)
      → (Objects F → Ticked F R E)
      → Ticked F R E
  store_assigned d obj (raise e) objects later rest = record {
    generators = d ∷ later;
    objects = objects;
    outcome = raise (not_assigned e);
  }
  store_assigned d obj (ok v) objects later rest =
      let after = rest (insert (oid_key d.0) (record obj { present_value = v }) objects) in
      record after { generators = d ∷ after.generators }

  unfoldable pub store_value :
      Driven F R
      → LiveObject F
      → Result ConversionError (Value F)
      → Objects F
      → List (Driven F R)
      → (Objects F → Ticked F R E)
      → Ticked F R E
  store_value d obj (raise e) objects later rest = record {
    generators = d ∷ later;
    objects = objects;
    outcome = raise (not_coerced e);
  }
  store_value d obj (ok v) objects later rest =
      store_assigned d obj (assign obj v) objects later rest

  unfoldable pub skip : Driven F R → Ticked F R E → Ticked F R E
  skip d after = record after { generators = d ∷ after.generators }

  -- an object that is missing or suppressed keeps its value, and its generator does not advance
  unfoldable pub tick_one :
      F
      → Driven F R
      → Option (LiveObject F)
      → Bool
      → Objects F
      → List (Driven F R)
      → (Objects F → Ticked F R E)
      → Ticked F R E
  tick_one t d none suppressed objects later rest = skip d (rest objects)
  tick_one t d (some obj) true objects later rest = skip d (rest objects)
  tick_one t d (some obj) false objects later rest =
      let step = next fl rand t d.1 in
      store_value (d.0, step.1) obj (coerce fl d.0 step.0) objects later rest

  unfoldable pub tick : F → States → List (Driven F R) → Objects F → Ticked F R E
  tick t states [] objects = record { generators = []; objects = objects; outcome = ok tt }
  tick t states (d ∷ later) objects =
      tick_one t d (lookup (oid_key d.0) objects) (is_suppressed (oid_key d.0) states) objects later
        (λ after. tick t states later after)
