-- ===== src/Simulation/Generators/Defs.antt =====
-- The generators and `make_generator`. Python's random and math are the record `Randomness`: `seeded`
-- is `random.Random(text)`, `uniform` its draw with the state after it, and `wave t period` is
-- `math.sin(2 * math.pi * t / period)`.
use bacnet_sim_gateway.Common.{
  ℕ, ◌+◌, ◌%◌, String, string_eq, ℤ, Option, none, some, List, [], ◌∷◌, ◌==◌, Result, ok, raise,
  or_raise, ◌>>=◌, length, get_elem?, is_empty, if◌then◌else◌,
}
use bacnet_sim_gateway.Common.Text.{is_blank}
use bacnet_sim_gateway.Semantic.{get_or}
use bacnet_sim_gateway.Models.{
  Value, Items, Fields, get_field, FloatOps, float_value, BacnetObjectSpec,
}

pub record Randomness (F R : Type 0) : Type 0 where
  pub seeded : String → R
  pub uniform : F → F → R → F × R
  pub wave : F → F → F

-- the ValueErrors of the constructors, and other exceptions
pub data GeneratorError : Type 0 where
  bad_period : String → GeneratorError
  empty_sequence : String → GeneratorError
  no_setpoints : String → GeneratorError
  unknown_mode : String → GeneratorError
  bad_parameter : GeneratorError

-- the state of a generator; the list of a replay and of a scenario is not empty
pub data Generator (F R : Type 0) : Type 0 where
  random_walk : F → F → F → R → F → Generator F R
  sinusoidal : F → F → F → Generator F R
  replay : List (Value F) → ℕ → Generator F R
  scenario : List (F × Value F) → Generator F R

-- the items of a Python list
unfoldable pub items_list : {F : Type 0} → Items F → List (Value F)
items_list Items.nil = []
items_list (Items.cons v items) = v ∷ items_list items

unfoldable pub key_list : {F : Type 0} → Fields F → List (Value F)
key_list Fields.end = []
key_list (Fields.field k v d) = Value.text k ∷ key_list d

unfoldable pub char_list : {F : Type 0} → String → List (Value F)
char_list String.[] = []
char_list (String.◌∷◌ c s) = Value.text (String.◌∷◌ c String.[]) ∷ char_list s

-- what Python iterates over; `none` is a TypeError
unfoldable pub iterate : {F : Type 0} → Value F → Option (List (Value F))
iterate (Value.arr items) = some (items_list items)
iterate (Value.text s) = some (char_list s)
iterate (Value.obj d) = some (key_list d)
iterate _ = none

module _ {F : Type 0} (fl : FloatOps F) where
  -- the bounds, 0 and 100 by default
  unfoldable pub bounds : BacnetObjectSpec F → F × F
  bounds spec = (
    get_or spec.min_pres_value (fl.of_int (ℤ.pos 0)),
    get_or spec.max_pres_value (fl.of_int (ℤ.pos 100)),
  )

  -- Python's `min(a, b)` and `max(a, b)` keep the first of equal values
  unfoldable pub min_float : F → F → F
  min_float a b = if fl.lt b a then b else a

  unfoldable pub max_float : F → F → F
  max_float a b = if fl.lt a b then b else a

  unfoldable pub clamp : F → F → F → F
  clamp value lo hi = max_float lo (min_float value hi)

  unfoldable pub float_param : String → F → Fields F → Result GeneratorError F
  float_param k default params = elim (get_field k params) [
    | none ↦ ok default
    | some v ↦ elim (float_value fl v) [ ok x ↦ ok x | raise e ↦ raise bad_parameter ]
  ]

  -- `float(start)` of a number, or the middle of the bounds; True and False are numbers
  unfoldable pub start_value : Value F → F → F → Result GeneratorError F
  start_value (Value.int i) lo hi = or_raise (fl.float_of_int i) bad_parameter
  start_value (Value.real x) lo hi = ok x
  start_value (Value.bool b) lo hi = ok (fl.of_int (if b then ℤ.pos 1 else ℤ.pos 0))
  start_value _ lo hi = ok (fl.div (fl.add lo hi) (fl.of_int (ℤ.pos 2)))

  -- `(float(tp), v)` of a pair
  unfoldable pub setpoint_of_items : Option (List (Value F)) → Result GeneratorError (F × Value F)
  setpoint_of_items (some (tp ∷ v ∷ [])) = elim (float_value fl tp) [
    | ok x ↦ ok (x, v)
    | raise e ↦ raise bad_parameter
  ]
  setpoint_of_items _ = raise bad_parameter

  unfoldable pub setpoints_of : List (Value F) → Result GeneratorError (List (F × Value F))
  setpoints_of [] = ok []
  setpoints_of (p ∷ pts) = do
    s ← setpoint_of_items (iterate p)
    rest ← setpoints_of pts
    ok (s ∷ rest)

  -- `sorted` by time: stable
  unfoldable pub insert_setpoint : F × Value F → List (F × Value F) → List (F × Value F)
  insert_setpoint s [] = s ∷ []
  insert_setpoint s (r ∷ points) =
      let rest = insert_setpoint s points in if fl.lt r.0 s.0 then r ∷ rest else s ∷ r ∷ points

  unfoldable pub sort_setpoints : List (F × Value F) → List (F × Value F)
  sort_setpoints [] = []
  sort_setpoints (s ∷ points) = insert_setpoint s (sort_setpoints points)

  -- the loop of `Scenario.next`, which breaks at the first setpoint after `t`
  unfoldable pub current_setpoint : F → Value F → List (F × Value F) → Value F
  current_setpoint t current [] = current
  current_setpoint t current ((tp, value) ∷ points) =
      let rest = current_setpoint t value points in if fl.le tp t then rest else current

  module _ {R : Type 0} (rand : Randomness F R) where
    unfoldable pub init_random_walk : BacnetObjectSpec F → Result GeneratorError (Generator F R)
    init_random_walk spec = do
      step ← float_param "step" (fl.of_int (ℤ.pos 1)) spec.update.params
      start ← start_value spec.present_value (bounds spec).0 (bounds spec).1
      ok (random_walk (bounds spec).0 (bounds spec).1 step (rand.seeded spec.point_id) start)

    unfoldable pub init_sinusoidal : BacnetObjectSpec F → Result GeneratorError (Generator F R)
    init_sinusoidal spec = do
      period ← float_param "period" (fl.of_int (ℤ.pos 60)) spec.update.params
      (if fl.le period (fl.of_int (ℤ.pos 0))
          then raise (bad_period spec.point_id)
          else ok (sinusoidal (bounds spec).0 (bounds spec).1 period))

    unfoldable pub init_replay : BacnetObjectSpec F → Result GeneratorError (Generator F R)
    init_replay spec =
        elim (iterate (get_or (get_field "sequence" spec.update.params) (Value.arr Items.nil))) [
          | none ↦ raise bad_parameter
          | some seq ↦
              if is_empty seq then raise (empty_sequence spec.point_id) else ok (replay seq 0)
        ]

    unfoldable pub init_scenario : BacnetObjectSpec F → Result GeneratorError (Generator F R)
    init_scenario spec =
        elim (iterate (get_or (get_field "setpoints" spec.update.params) (Value.arr Items.nil))) [
          | none ↦ raise bad_parameter
          | some pts ↦ (do
            points ← setpoints_of pts
            (if is_empty points
                then raise (no_setpoints spec.point_id)
                else ok (scenario (sort_setpoints points))))
        ]

    unfoldable pub build_generator :
        String → BacnetObjectSpec F → Result GeneratorError (Generator F R)
    build_generator mode spec =
        if mode == "random_walk"
        then init_random_walk spec
        else if mode == "sinusoidal"
        then init_sinusoidal spec
        else if mode == "replay"
        then init_replay spec
        else if mode == "scenario"
        then init_scenario spec
        else raise (unknown_mode mode)

    unfoldable pub make_generator :
        BacnetObjectSpec F → Result GeneratorError (Option (Generator F R))
    make_generator spec = elim spec.update.mode [
      | none ↦ ok none
      | some mode ↦
          if is_blank mode then ok none else (do g ← build_generator mode spec; ok (some g))
    ]

    -- `next(t)`, with the generator after it
    unfoldable pub next : F → Generator F R → Value F × Generator F R
    next t (random_walk lo hi step rng value) =
        let drawn = rand.uniform (fl.sub (fl.of_int (ℤ.pos 0)) step) step rng in
        let moved = clamp (fl.add value drawn.0) lo hi in
        (Value.real (fl.round4 moved), random_walk lo hi step drawn.1 moved)
    next t (sinusoidal lo hi period) =
        let two = fl.of_int (ℤ.pos 2) in
        let mid = fl.div (fl.add lo hi) two in
        let amp = fl.div (fl.sub hi lo) two in
        (
          Value.real (fl.round4 (fl.add mid (fl.mul amp (rand.wave t period)))),
          sinusoidal lo hi period,
        )
    next t (replay seq i) = (get_or (get_elem? seq (i % length seq)) Value.null, replay seq (i + 1))
    next t (scenario []) = (Value.null, scenario [])
    next t (scenario ((tp, v) ∷ points)) =
        (current_setpoint t v ((tp, v) ∷ points), scenario ((tp, v) ∷ points))

    -- the values at the times of several ticks, and the generator after them
    unfoldable pub run : List F → Generator F R → List (Value F) × Generator F R
    run [] g = ([], g)
    run (t ∷ times) g =
        let step = next t g in let rest = run times step.1 in (step.0 ∷ rest.0, rest.1)
