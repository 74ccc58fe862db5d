-- ===== src/Generator/Objects.antt =====
-- The objects that are built: ids and types of their points, and object identifiers of their own.
use bacnet_sim_gateway.Common.{
  String, string_eq, ℤ, int_eq, pair_eq, true, false, Option, some, List, [], ◌∷◌, contains,
  is_empty, ◌≡◌, refl, sym, ap, ◌∙◌, arith, All, IsNodup,
}
use bacnet_sim_gateway.Common.Dict.{Dict, lookup}
use bacnet_sim_gateway.Models.{
  BacnetObjectType, object_type_eq, is_multistate, SbcoPoint, FloatOps, BacnetObjectSpec,
}
use bacnet_sim_gateway.Validate.{has_command_binding}
use bacnet_sim_gateway.Validate.Exact.{point_ids, object_ids, IsWellFormed}
use bacnet_sim_gateway.Generator.Defs.{Pairs, Assignment}
use bacnet_sim_gateway.Generator.Build.{object_spec, build_objects}
use bacnet_sim_gateway.Generator.Assignment.{ids, IsSound, Known}
use bacnet_sim_gateway.Generator.Totals.{Numbered}

-- the objects of the pairs, with the numbers of `instances`
abbrev pub Built : {F : Type 0} → Dict String ℤ → Pairs F → List (BacnetObjectSpec F) → Type 0
Built instances [] [] = Unit
Built instances [] (o ∷ objects) = ⊥
Built instances (pr ∷ pairs) [] = ⊥
Built instances ((p, ot) ∷ pairs) (o ∷ objects) =
    (o.point_id ≡ p.point_id)
    × (o.object_type ≡ ot)
    × (lookup p.point_id instances ≡ some o.object_instance)
    × IsWellFormed o
    × Built instances pairs objects

-- the labels that the type of the pair needs
abbrev pub Labelled : {F : Type 0} → SbcoPoint F × BacnetObjectType → Type 0
Labelled (p, ot) = is_multistate ot ≡ true → is_empty p.labels ≡ false

module _ {F : Type 0} (fl : FloatOps F) (update_mode : Option String) where
  module _ (names : List String) (p : SbcoPoint F) (ot : BacnetObjectType) (n : ℤ) where
    object_spec_keeps :
        ((object_spec fl update_mode names p ot n).point_id ≡ p.point_id)
        × ((object_spec fl update_mode names p ot n).object_type ≡ ot)
        × ((object_spec fl update_mode names p ot n).object_instance ≡ n)
    unfolding object_spec
    object_spec_keeps = (refl, refl, refl)

    object_spec-IsWellFormed :
        Labelled (p, ot) → IsWellFormed (object_spec fl update_mode names p ot n)
    unfolding object_spec has_command_binding
    object_spec-IsWellFormed labelled = (λ m. rw m (labelled m), λ c. ground arith)

    build_objects_step :
        (instances : Dict String ℤ) (pairs : Pairs F) (objects : List (BacnetObjectSpec F))
        → lookup p.point_id instances ≡ some n
        → build_objects fl update_mode names instances pairs ≡ some objects
        → build_objects fl update_mode names instances ((p, ot) ∷ pairs)
          ≡ some (object_spec fl update_mode names p ot n ∷ objects)
    unfolding build_objects
    build_objects_step instances pairs objects found built = ground arith

  pub build_objects-Built :
      (names : List String) (instances : Dict String ℤ) (pairs : Pairs F)
      → All (Numbered instances) pairs
      → All Labelled pairs
      → (objects : List (BacnetObjectSpec F)) × (build_objects fl update_mode names instances pairs
          ≡ some objects)
        × Built instances pairs objects
  build_objects-Built names instances [] numbered labelled = ([], unfold build_objects in refl, tt)
  build_objects-Built names instances ((p, ot) ∷ pairs) numbered labelled =
      let (n, found) = numbered.0 in
      let (objects, built, rel) = build_objects-Built names instances pairs numbered.1 labelled.1 in
      let (same_id, same_type, same_instance) = object_spec_keeps names p ot n in
      (
        object_spec fl update_mode names p ot n ∷ objects,
        build_objects_step names p ot n instances pairs objects found built,
        (
          same_id,
          same_type,
          found ∙ ap some (sym same_instance),
          object_spec-IsWellFormed names p ot n labelled.0,
          rel,
        ),
      )

-- the objects have the ids of their pairs, and object identifiers of their own
module _ {F : Type 0} (types : Dict String BacnetObjectType) (st : Assignment)
    (sound : IsSound types st) where
  Built-point_id :
      (id : String) (pairs : Pairs F) (objects : List (BacnetObjectSpec F))
      → Built st.result pairs objects
      → contains (ids pairs) id ≡ false
      → contains (point_ids objects) id ≡ false
  Built-point_id id [] [] rel h = refl
  Built-point_id id [] (o ∷ objects) rel h = absurd rel
  Built-point_id id (pr ∷ pairs) [] rel h = absurd rel
  Built-point_id id ((p, ot) ∷ pairs) (o ∷ objects) (same, _, _, _, rel) h =
      rw same (ground (arith, Built-point_id id pairs objects rel))

  Built-object_id :
      (id : String) (ot : BacnetObjectType) (n : ℤ) (pairs : Pairs F)
      (objects : List (BacnetObjectSpec F))
      → lookup id types ≡ some ot
      → lookup id st.result ≡ some n
      → contains (ids pairs) id ≡ false
      → All (Known types) pairs
      → Built st.result pairs objects
      → contains (object_ids objects) (ot, n) ≡ false
  Built-object_id id ot n [] [] known found fresh all rel = refl
  Built-object_id id ot n [] (o ∷ objects) known found fresh all rel = absurd rel
  Built-object_id id ot n (pr ∷ pairs) [] known found fresh all rel = absurd rel
  Built-object_id id ot n ((p, t) ∷ pairs) (o ∷ objects) known found fresh all
        (_, same_type, numbered, _, rel) =
      ground (
        arith,
        Built-object_id id ot n pairs objects known found,
        sound.distinct id p.point_id ot n known,
        string_eq.decides id p.point_id,
        object_type_eq.decides ot o.object_type,
        int_eq.decides n o.object_instance,
        all.0,
      )

  pub Built-IsValid :
      (pairs : Pairs F) (objects : List (BacnetObjectSpec F))
      → Built st.result pairs objects
      → All (Known types) pairs
      → IsNodup (ids pairs)
      → IsNodup (point_ids objects) × IsNodup (object_ids objects) × All IsWellFormed objects
  Built-IsValid [] [] rel known distinct = (tt, tt, tt)
  Built-IsValid [] (o ∷ objects) rel known distinct = absurd rel
  Built-IsValid (pr ∷ pairs) [] rel known distinct = absurd rel
  Built-IsValid ((p, t) ∷ pairs) (o ∷ objects) (same_id, same_type, numbered, good, rel) known
        distinct =
      let (points, slots, rest) = Built-IsValid pairs objects rel known.1 distinct.1 in
      (
        (rw same_id (Built-point_id p.point_id pairs objects rel distinct.0), points),
        (
          rw same_type (
              Built-object_id p.point_id t o.object_instance pairs objects known.0 numbered
                distinct.0 known.1 rel),
          slots,
        ),
        (good, rest),
      )
