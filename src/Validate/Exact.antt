-- ===== src/Validate/Exact.antt =====
-- A config has no errors exactly when it is a valid model of a device.
use bacnet_sim_gateway.Common.{
  String, string_eq, ℤ, int_eq, pair_eq, is_nonpositive, Bool, true, false, List, [], ◌∷◌, ◌++◌,
  contains, is_empty, if◌then◌else◌, ◌≡◌, ◌↔◌, refl, arith, All, IsNodup,
}
use bacnet_sim_gateway.Models.{
  BacnetObjectType, object_type_eq, is_multistate, BacnetObjectSpec, SimulatorConfig,
}
use bacnet_sim_gateway.Generator.{Used, mark_used}
use bacnet_sim_gateway.Generator.Assignment.{contains-mark_used}
use bacnet_sim_gateway.Validate.Defs.{
  ConfigError, has_command_binding, object_errors, validate_objects, validate_config,
}

abbrev pub point_ids : {F : Type 0} → List (BacnetObjectSpec F) → List String
point_ids [] = []
point_ids (o ∷ objects) = o.point_id ∷ point_ids objects

-- the BACnet object identifiers
abbrev pub object_ids : {F : Type 0} → List (BacnetObjectSpec F) → List (BacnetObjectType × ℤ)
object_ids [] = []
object_ids (o ∷ objects) = (o.object_type, o.object_instance) ∷ object_ids objects

-- A multi-state object has its states, and an object that takes commands accepts writes.
abbrev pub IsWellFormed : {F : Type 0} → BacnetObjectSpec F → Type 0
IsWellFormed o =
    (is_multistate o.object_type ≡ true → is_empty o.state_text ≡ false)
    × (has_command_binding o.binding ≡ true → o.writable ≡ true)

pub record IsValidModel {F : Type 0} (config : SimulatorConfig F) : Type 0 where
  pub positive : is_nonpositive config.bbc.device_id ≡ false
  pub distinct_points : IsNodup (point_ids config.objects)
  pub distinct_objects : IsNodup (object_ids config.objects)
  pub well_formed : All IsWellFormed config.objects

-- no object of the list has a point id, or an object id, that was seen before
abbrev FreshPoints : {F : Type 0} → List String → List (BacnetObjectSpec F) → Type 0
FreshPoints seen = All (λ o. contains seen o.point_id ≡ false)

abbrev FreshObjects : {F : Type 0} → Used → List (BacnetObjectSpec F) → Type 0
FreshObjects seen = All (λ o. contains (seen o.object_type) o.object_instance ≡ false)

FreshPoints-cons :
    {F : Type 0} (id : String) (seen : List String) (objects : List (BacnetObjectSpec F))
    → FreshPoints (id ∷ seen) objects
      ↔ (FreshPoints seen objects × (contains (point_ids objects) id ≡ false))
FreshPoints-cons id seen [] = (λ h. (tt, refl), λ h. tt)
FreshPoints-cons id seen (o ∷ objects) =
    let ih = FreshPoints-cons id seen objects in
    let e = string_eq.decides id o.point_id in
    let e' = string_eq.decides o.point_id id in
    (
      λ h. let r = ih.0 h.1 in ((ground arith, r.0), ground (arith, r.1)),
      λ h. (ground arith, ih.1 (h.0.1, ground arith)),
    )

FreshObjects-mark :
    {F : Type 0} (t : BacnetObjectType) (n : ℤ) (seen : Used) (objects : List (BacnetObjectSpec F))
    → FreshObjects (mark_used t n seen) objects
      ↔ (FreshObjects seen objects × (contains (object_ids objects) (t, n) ≡ false))
FreshObjects-mark t n seen [] = (λ h. (tt, refl), λ h. tt)
FreshObjects-mark t n seen (o ∷ objects) =
    let ih = FreshObjects-mark t n seen objects in
    let e = object_type_eq.decides t o.object_type in
    let e' = object_type_eq.decides o.object_type t in
    let f = int_eq.decides n o.object_instance in
    let f' = int_eq.decides o.object_instance n in
    let m = contains-mark_used o.object_type t o.object_instance n seen in
    (
      λ h. let r = ih.0 h.1 in ((ground arith, r.0), ground (arith, r.1)),
      λ h. (ground arith, ih.1 (h.0.1, ground arith)),
    )

object_errors-IsWellFormed :
    {F : Type 0} (o : BacnetObjectSpec F) → (object_errors o ≡ []) ↔ IsWellFormed o
unfolding object_errors
object_errors-IsWellFormed o =
    (λ h. (λ m. ground arith, λ b. ground arith), λ w. ground (arith, w.0, w.1))

-- what the loop accepts, after the sets that it has seen
record IsClear {F : Type 0} (seen : Used) (seen_ids : List String)
    (objects : List (BacnetObjectSpec F)) : Type 0 where
  new_points : FreshPoints seen_ids objects
  new_objects : FreshObjects seen objects
  distinct_points : IsNodup (point_ids objects)
  distinct_objects : IsNodup (object_ids objects)
  well_formed : All IsWellFormed objects

-- a test that reports nothing has failed
not_reported : (b : Bool) (e : ConfigError) → (if b then e ∷ [] else []) ≡ [] → b ≡ false
not_reported true e h = ground arith
not_reported false e h = refl

append-eq-nil {ℓ} : {A : Type ℓ} (xs ys : List A) → xs ++ ys ≡ [] → (xs ≡ []) × (ys ≡ [])
append-eq-nil [] ys h = (refl, h)
append-eq-nil (x ∷ xs) ys h = ground arith

All-fresh : {A : Type 0} (P : A → Type 0) (xs : List A) → ((x : A) → P x) → All P xs
All-fresh P [] h = tt
All-fresh P (x ∷ xs) h = (h x, All-fresh P xs h)

module _ {F : Type 0} where
  IsClear-none :
      (seen : Used) (seen_ids : List String) (objects : List (BacnetObjectSpec F))
      → validate_objects seen seen_ids objects ≡ []
      → IsClear seen seen_ids objects
  unfolding validate_objects
  IsClear-none seen seen_ids [] h = record {
    new_points = tt;
    new_objects = tt;
    distinct_points = tt;
    distinct_objects = tt;
    well_formed = tt;
  }
  IsClear-none seen seen_ids (o ∷ objects) h =
      let (a, h1) = append-eq-nil _ _ h in
      let (b, h2) = append-eq-nil _ _ h1 in
      let (c, h3) = append-eq-nil _ _ h2 in
      let old_id = not_reported (contains seen_ids o.point_id) _ a in
      let old_object = not_reported (contains (seen o.object_type) o.object_instance) _ b in
      let r =
        IsClear-none (mark_used o.object_type o.object_instance seen) (o.point_id ∷ seen_ids)
          objects h3 in
      let p = (FreshPoints-cons o.point_id seen_ids objects).0 r.new_points in
      let q = (FreshObjects-mark o.object_type o.object_instance seen objects).0 r.new_objects in
      record {
        new_points = (old_id, p.0);
        new_objects = (old_object, q.0);
        distinct_points = (p.1, r.distinct_points);
        distinct_objects = (q.1, r.distinct_objects);
        well_formed = ((object_errors-IsWellFormed o).0 c, r.well_formed);
      }

  none_of_IsClear :
      (seen : Used) (seen_ids : List String) (objects : List (BacnetObjectSpec F))
      → IsClear seen seen_ids objects
      → validate_objects seen seen_ids objects ≡ []
  unfolding validate_objects
  none_of_IsClear seen seen_ids [] r = refl
  none_of_IsClear seen seen_ids (o ∷ objects) r =
      let rest =
        none_of_IsClear (mark_used o.object_type o.object_instance seen) (o.point_id ∷ seen_ids)
          objects
          (record {
            new_points =
                (FreshPoints-cons o.point_id seen_ids objects).1
                  (r.new_points.1, r.distinct_points.0);
            new_objects =
                (FreshObjects-mark o.object_type o.object_instance seen objects).1
                  (r.new_objects.1, r.distinct_objects.0);
            distinct_points = r.distinct_points.1;
            distinct_objects = r.distinct_objects.1;
            well_formed = r.well_formed.1;
          }) in
      let local = (object_errors-IsWellFormed o).1 r.well_formed.0 in
      rw (r.new_points.0, r.new_objects.0, local, rest)

  -- A config has no validation errors exactly when its device id is positive, its point ids and its
  -- object identifiers are distinct, each multi-state object has state texts and each object with a
  -- command binding is writable.
  pub validate_config-IsValidModel :
      (config : SimulatorConfig F) → (validate_config config ≡ []) ↔ IsValidModel config
  unfolding validate_config
  validate_config-IsValidModel config = (
    λ h.
        let (a, b) = append-eq-nil _ _ h in
        let r = IsClear-none _ _ config.objects b in
        record {
          positive = not_reported (is_nonpositive config.bbc.device_id) _ a;
          distinct_points = r.distinct_points;
          distinct_objects = r.distinct_objects;
          well_formed = r.well_formed;
        },
    λ v. rw (v.positive) (
        none_of_IsClear _ _ config.objects (record {
          new_points = All-fresh _ config.objects (λ o. refl);
          new_objects = All-fresh _ config.objects (λ o. refl);
          distinct_points = v.distinct_points;
          distinct_objects = v.distinct_objects;
          well_formed = v.well_formed;
        })),
  )
