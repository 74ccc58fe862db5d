-- ===== src/Generator/Valid.antt =====
-- The config that is generated from a valid point list has no validation errors.
use bacnet_sim_gateway.Common.{
  String, string_eq, ℤ, int_eq, pair_eq, is_nonpositive, true, false, Option, some, List, [], ◌∷◌,
  ◌++◌, is_empty, length, leb, ◌≡◌, refl, ap, arith, All, IsNodup, inl, inr,
}
use bacnet_sim_gateway.Models.{
  BacnetObjectType, object_type_eq, is_multistate, SbcoPoint, FloatOps, RuntimeMode, default_bbc,
  default_network, SimulatorConfig,
}
use bacnet_sim_gateway.PointList.Issues.{row_ids, check_points-HasDistinctIds}
use bacnet_sim_gateway.PointList.{check_points}
use bacnet_sim_gateway.Mapping.{Warning, normalize_object_type, resolve_object_type}
use bacnet_sim_gateway.Mapping.Inference.{resolve_object_type-is_multistate}
use bacnet_sim_gateway.Common.Text.{strip}
use bacnet_sim_gateway.Validate.{validate_config}
use bacnet_sim_gateway.Validate.Exact.{validate_config-IsValidModel}
use bacnet_sim_gateway.Generator.Defs.{assign_instances}
use bacnet_sim_gateway.Generator.Build.{
  resolve_all, all_object_warnings, point_names, generate_config,
}
use bacnet_sim_gateway.Generator.Assignment.{type_of, ids, Known_of_Nodup, assign_instances-IsSound}
use bacnet_sim_gateway.Generator.Objects.{Labelled, build_objects-Built, Built-IsValid}
use bacnet_sim_gateway.Generator.Totals.{assign_instances_total}

-- An explicit multi-state type comes with labels.
abbrev pub IsLabelled : {F : Type 0} → SbcoPoint F → Type 0
IsLabelled p =
    (t : BacnetObjectType)
    → normalize_object_type (strip p.object_type_bacnet) ≡ some t
    → is_multistate t ≡ true
    → is_empty p.labels ≡ false

module _ {F : Type 0} where
  resolve_all-ids : (points : List (SbcoPoint F)) → ids (resolve_all points).0 ≡ row_ids points
  unfolding resolve_all
  resolve_all-ids [] = refl
  resolve_all-ids (p ∷ points) = ap (◌∷◌ p.point_id) (resolve_all-ids points)

  label_of_resolve :
      (p : SbcoPoint F)
      → IsLabelled p
      → is_multistate (resolve_object_type p).0 ≡ true
      → is_empty p.labels ≡ false
  label_of_resolve p labelled m = elim (resolve_object_type-is_multistate p m) [
    | inl explicit ↦ labelled (resolve_object_type p).0 explicit m
    | inr three ↦ some_labels p.labels three
  ]
    where
      some_labels : (l : List String) → leb 3 (length l) ≡ true → is_empty l ≡ false
      some_labels [] h = ground arith
      some_labels (x ∷ l) h = refl

  resolve_all-Labelled :
      (points : List (SbcoPoint F)) → All IsLabelled points → All Labelled (resolve_all points).0
  unfolding resolve_all
  resolve_all-Labelled [] h = tt
  resolve_all-Labelled (p ∷ points) h = (label_of_resolve p h.0, resolve_all-Labelled points h.1)

module _ {F : Type 0} (fl : FloatOps F) (update_mode : Option String) where
  -- A point list that validates, with labels for every explicit multi-state point, and a positive
  -- device id: the generation returns a config, and the config has no validation errors.
  pub generate_config-valid :
      (points : List (SbcoPoint F)) (bbc_id : String) (device_id : ℤ) (object_name : String)
      → check_points [] points ≡ []
      → All IsLabelled points
      → is_nonpositive device_id ≡ false
      → (config : SimulatorConfig F) × (warnings : List Warning) × (generate_config fl points bbc_id
            device_id object_name update_mode
          ≡ some (config, warnings))
        × (validate_config config ≡ [])
  unfolding generate_config
  generate_config-valid points bbc_id device_id object_name checked labelled positive =
      let pairs = (resolve_all points).0 in
      let distinct : IsNodup (ids pairs) =
        rw (resolve_all-ids points) ((check_points-HasDistinctIds points).0 checked).1 in
      let known = Known_of_Nodup pairs distinct in
      let assigned = assign_instances pairs in
      let sound = assign_instances-IsSound (type_of pairs) pairs known in
      let (objects, built, rel) =
        build_objects-Built fl update_mode (point_names pairs) assigned.result pairs
          (assign_instances_total pairs) (resolve_all-Labelled points labelled) in
      let (ids_ok, slots_ok, good) =
        Built-IsValid (type_of pairs) assigned sound pairs objects rel known distinct in
      let config : SimulatorConfig F = record {
        bbc = default_bbc bbc_id device_id object_name;
        network = default_network;
        objects = objects;
        mode = RuntimeMode.simulator;
      } in
      (
        config,
        (resolve_all points).1 ++ (assigned.warnings ++ all_object_warnings pairs),
        rw (built, generate_config),
        (validate_config-IsValidModel config).1 (record {
          positive = positive;
          distinct_points = ids_ok;
          distinct_objects = slots_ok;
          well_formed = good;
        }),
      )
