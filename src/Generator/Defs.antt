-- ===== src/Generator/Defs.antt =====
-- `_assign_instances` of src/bbc_sim/yaml_generator/generator.py: an object instance for each point.
-- The set of used numbers of each type is a list; the search for a free one takes fuel, and the
-- caller gives one more round than there are used numbers.
use bacnet_sim_gateway.Common.{
  ℕ, zero, suc, ◌+◌, String, string_eq, ℤ, int_eq, true, false, Option, none, some, List, [], ◌∷◌,
  ◌++◌, ◌==◌, contains, length, if◌then◌else◌,
}
use bacnet_sim_gateway.Common.Dict.{Dict, lookup, insert}
use bacnet_sim_gateway.Models.{BacnetObjectType, object_type_eq, SbcoPoint}
use bacnet_sim_gateway.Mapping.{Warning, instance_in_use}

abbrev pub Used : Type 0
Used = BacnetObjectType → List ℤ

-- `used[ot].add(n)`
unfoldable pub mark_used : BacnetObjectType → ℤ → Used → Used
mark_used ot n used t = if t == ot then n ∷ used t else used t

-- `used`, `result` and `warnings` of the loops
pub record Assignment : Type 0 where
  pub used : Used
  pub result : Dict String ℤ
  pub warnings : List Warning

abbrev pub no_assignment : Assignment
no_assignment = record { used = λ t. []; result = []; warnings = [] }

-- `used[ot].add(n); result[point_id] = n`
unfoldable pub record_instance : String → BacnetObjectType → ℤ → Assignment → Assignment
record_instance id ot n st = record st {
  used = mark_used ot n st.used;
  result = insert id n st.result;
}

-- `while n in used[ot]: n += 1`
unfoldable pub next_free : ℕ → ℕ → List ℤ → ℕ
next_free zero n used = n
next_free (suc fuel) n used = elim (contains used (ℤ.pos n)) [
  | true ↦ next_free fuel (suc n) used
  | false ↦ n
]

abbrev pub Pairs : Type 0 → Type 0
Pairs F = List (SbcoPoint F × BacnetObjectType)

-- the body of the first pass, with the explicit number taken apart
unfoldable pub try_explicit : String → BacnetObjectType → Option ℤ → Assignment → Assignment
try_explicit id ot none st = st
try_explicit id ot (some inst) st =
    if contains (st.used ot) inst
    then record st { warnings = st.warnings ++ instance_in_use id ot inst ∷ [] }
    else record_instance id ot inst st

abbrev pub Counters : Type 0
Counters = BacnetObjectType → ℕ

-- `counters[ot] = n`
unfoldable pub set_counter : BacnetObjectType → ℕ → Counters → Counters
set_counter ot n counters t = if t == ot then n else counters t

-- the number that the second pass gives to a point of type `ot`
unfoldable pub free_instance : BacnetObjectType → Assignment → Counters → ℕ
free_instance ot st counters = next_free (suc (length (st.used ot))) (counters ot) (st.used ot)

module _ {F : Type 0} where
  unfoldable pub explicit_pass : Pairs F → Assignment → Assignment
  explicit_pass [] st = st
  explicit_pass ((point, ot) ∷ pairs) st =
      explicit_pass pairs (try_explicit point.point_id ot point.instance_no_bacnet st)

  unfoldable pub auto_pass : Pairs F → Assignment → Counters → Assignment
  auto_pass [] st counters = st
  auto_pass ((point, ot) ∷ pairs) st counters = elim (lookup point.point_id st.result) [
    | some n ↦ auto_pass pairs st counters
    | none ↦
        auto_pass pairs
          (record_instance point.point_id ot (ℤ.pos (free_instance ot st counters)) st)
          (set_counter ot (free_instance ot st counters + 1) counters)
  ]

  unfoldable pub assign_instances : Pairs F → Assignment
  assign_instances pairs = auto_pass pairs (explicit_pass pairs no_assignment) (λ t. 1)
