-- ===== src/Generator/Assignment.antt =====
-- The instances that `assign_instances` gives: one for each point, and never one twice in a type.
use bacnet_sim_gateway.Common.{
  String, string_eq, ℤ, int_eq, ◌≡◌, true, false, inl, inr, Bool-cases, Option-cases, Option, none,
  some, List, [], ◌∷◌, arith, ◌==◌, contains, All, beq_refl, IsNodup, ◌||◌, ◌&&◌,
}
use bacnet_sim_gateway.Common.Dict.{Dict, lookup, insert, lookup-insert}
use bacnet_sim_gateway.Models.{BacnetObjectType, object_type_eq, SbcoPoint}
use bacnet_sim_gateway.Generator.Defs.{
  Pairs, Used, Assignment, no_assignment, mark_used, record_instance, try_explicit, explicit_pass,
  Counters, free_instance, auto_pass, assign_instances,
}
use bacnet_sim_gateway.Generator.Search.{next_free-IsLeastFree}

-- the type that each point id has; the ids of a valid point list are distinct
abbrev pub type_of : {F : Type 0} → Pairs F → Dict String BacnetObjectType
type_of [] = []
type_of ((p, ot) ∷ pairs) = (p.point_id, ot) ∷ type_of pairs

pub contains-mark_used :
    (s t : BacnetObjectType) (m n : ℤ) (used : Used)
    → contains (mark_used t n used s) m ≡ ((s == t && m == n) || contains (used s) m)
unfolding mark_used
contains-mark_used s t m n used = ground arith

-- Numbers recorded for points of a type are used in it, and belong to one point.
pub record IsSound (types : Dict String BacnetObjectType) (st : Assignment) : Type 0 where
  pub recorded :
      (q : String) (ot : BacnetObjectType) (n : ℤ)
      → lookup q types ≡ some ot
      → lookup q st.result ≡ some n
      → contains (st.used ot) n ≡ true
  pub distinct :
      (q r : String) (ot : BacnetObjectType) (n : ℤ)
      → lookup q types ≡ some ot
      → lookup r types ≡ some ot
      → lookup q st.result ≡ some n
      → lookup r st.result ≡ some n
      → q ≡ r

module _ (types : Dict String BacnetObjectType) where
  no_assignment-IsSound : IsSound types no_assignment
  unfolding lookup
  no_assignment-IsSound = record { recorded = λ q ot n t r. cc; distinct = λ q r ot n t u v w. cc }

  module _ (id : String) (ot : BacnetObjectType) (n : ℤ) (st : Assignment)
      (known : lookup id types ≡ some ot) (fresh : contains (st.used ot) n ≡ false)
      (sound : IsSound types st) where
    recorded_step :
        (q : String) (t : BacnetObjectType) (m : ℤ)
        → lookup q types ≡ some t
        → lookup q (insert id n st.result) ≡ some m
        → contains (mark_used ot n st.used t) m ≡ true
    recorded_step q t m typed found = ground (
      arith,
      lookup-insert q id n st.result,
      contains-mark_used t ot m n st.used,
      sound.recorded q t m typed,
      string_eq.decides q id,
      object_type_eq.decides t ot,
      int_eq.decides m n,
    )

    distinct_step :
        (q r : String) (t : BacnetObjectType) (m : ℤ)
        → lookup q types ≡ some t
        → lookup r types ≡ some t
        → lookup q (insert id n st.result) ≡ some m
        → lookup r (insert id n st.result) ≡ some m
        → q ≡ r
    distinct_step q r t m tq tr fq fr = ground (
      arith,
      lookup-insert q id n st.result,
      lookup-insert r id n st.result,
      sound.distinct q r t m tq tr,
      sound.recorded q t m tq,
      sound.recorded r t m tr,
      string_eq.decides q id,
      string_eq.decides r id,
    )

    record_instance-IsSound : IsSound types (record_instance id ot n st)
    unfolding record_instance
    record_instance-IsSound = record { recorded = recorded_step; distinct = distinct_step }

abbrev pub ids : {F : Type 0} → Pairs F → List String
ids [] = []
ids ((p, ot) ∷ pairs) = p.point_id ∷ ids pairs

-- the type of each point is the one that its id has in `types`
abbrev pub Known :
    {F : Type 0} → Dict String BacnetObjectType → SbcoPoint F × BacnetObjectType → Type 0
Known types (p, ot) = lookup p.point_id types ≡ some ot

module _ {F : Type 0} where
  Known-cons :
      (id : String) (ot : BacnetObjectType) (types : Dict String BacnetObjectType) (pairs : Pairs F)
      → contains (ids pairs) id ≡ false
      → All (Known types) pairs
      → All (Known ((id, ot) ∷ types)) pairs
  unfolding lookup
  Known-cons id ot types [] h all = tt
  Known-cons id ot types ((p, t) ∷ pairs) h all = (
    ground (arith, string_eq.decides id p.point_id, string_eq.decides p.point_id id),
    Known-cons id ot types pairs (ground arith) all.1,
  )

  pub Known_of_Nodup : (pairs : Pairs F) → IsNodup (ids pairs) → All (Known (type_of pairs)) pairs
  unfolding lookup
  Known_of_Nodup [] h = tt
  Known_of_Nodup ((p, t) ∷ pairs) h =
      (rw beq_refl, Known-cons p.point_id t (type_of pairs) pairs h.0 (Known_of_Nodup pairs h.1))

module _ (types : Dict String BacnetObjectType) where
  try_explicit-IsSound :
      (id : String) (ot : BacnetObjectType) (inst : Option ℤ) (st : Assignment)
      → lookup id types ≡ some ot
      → IsSound types st
      → IsSound types (try_explicit id ot inst st)
  unfolding try_explicit
  try_explicit-IsSound id ot none st known sound = sound
  try_explicit-IsSound id ot (some n) st known sound = elim (Bool-cases (contains (st.used ot) n)) [
    | inl taken ↦ rw taken (record { recorded = sound.recorded; distinct = sound.distinct })
    | inr fresh ↦ rw fresh (record_instance-IsSound types id ot n st known fresh sound)
  ]

  module _ {F : Type 0} where
    explicit_pass-IsSound :
        (pairs : Pairs F) (st : Assignment)
        → All (Known types) pairs
        → IsSound types st
        → IsSound types (explicit_pass pairs st)
    unfolding explicit_pass
    explicit_pass-IsSound [] st known sound = sound
    explicit_pass-IsSound ((p, ot) ∷ pairs) st known sound =
        explicit_pass-IsSound pairs _ known.1
          (try_explicit-IsSound p.point_id ot p.instance_no_bacnet st known.0 sound)

    auto_pass-IsSound :
        (pairs : Pairs F) (st : Assignment) (counters : Counters)
        → All (Known types) pairs
        → IsSound types st
        → IsSound types (auto_pass pairs st counters)
    unfolding auto_pass free_instance
    auto_pass-IsSound [] st counters known sound = sound
    auto_pass-IsSound ((p, ot) ∷ pairs) st counters known sound =
        elim (Option-cases (lookup p.point_id st.result)) [
          | inl absent ↦
              rw (absent, auto_pass)
                (auto_pass-IsSound pairs _ _ known.1 (
                  record_instance-IsSound types p.point_id ot _ st known.0
                    (next_free-IsLeastFree (counters ot) (st.used ot)).free sound))
          | inr (n, there) ↦
              rw (there, auto_pass) (auto_pass-IsSound pairs st counters known.1 sound)
        ]

    pub assign_instances-IsSound :
        (pairs : Pairs F) → All (Known types) pairs → IsSound types (assign_instances pairs)
    unfolding assign_instances
    assign_instances-IsSound pairs known =
        auto_pass-IsSound pairs _ _ known
          (explicit_pass-IsSound pairs _ known (no_assignment-IsSound types))
