-- ===== src/Export/Things.antt =====
-- The Thing Description says of each object whether the device accepts writes of it.
use bacnet_sim_gateway.Common.{
  Eq, beq_refl, String, string_eq, ℤ, int_eq, pair_eq, true, false, not, some, List, [], ◌∷◌,
  contains, ◌==◌, ◌≡◌, refl, ap, sym, ◌∙◌, arith, IsNodup, ◌⊎◌, inl, inr, Bool-cases,
}
use bacnet_sim_gateway.Common.Dict.{Dict, lookup, insert, lookup-insert, lookup-insert_self}
use bacnet_sim_gateway.Models.{
  FloatOps, BacnetObjectType, object_type_eq, BacnetObjectSpec, SimulatorConfig,
}
use bacnet_sim_gateway.Validate.{validate_config}
use bacnet_sim_gateway.Validate.Exact.{point_ids, object_ids, validate_config-IsValidModel}
use bacnet_sim_gateway.Runtime.App.{
  Oid, dash_text, oid_key, writable_oids_of, compute_writable_oids,
}
use bacnet_sim_gateway.Bows.Acquire.{dash_to_type}
use bacnet_sim_gateway.Bows.Acquire.Points.{lookup-dash_text}
use bacnet_sim_gateway.Export.Defs.{Property, property_of, add_properties, to_wot_td}

-- the object is one of the list
abbrev pub IsAmong : {F : Type 0} → BacnetObjectSpec F → List (BacnetObjectSpec F) → Type 0
IsAmong o [] = ⊥
IsAmong o (x ∷ objects) = (o ≡ x) ⊎ IsAmong o objects

abbrev ObjectId : Type 0
ObjectId = BacnetObjectType × ℤ

-- an element of a list is not one that is not in it
contains_differs :
    {A : Type 0} ⦃e : Eq A⦄ (xs : List A) (a b : A)
    → contains xs a ≡ true
    → contains xs b ≡ false
    → (a == b) ≡ false
contains_differs ⦃e⦄ xs a b there absent = elim (Bool-cases (a == b)) [
  | inl same ↦ absurd (
      let equal = (e.decides a b).0 same in
      let clash : true ≡ false = sym there ∙ (ap (contains xs) equal ∙ absent) in cc)
  | inr other ↦ other
]

-- two types with one token are the same
dash_text-injective : (s t : BacnetObjectType) → dash_text s ≡ dash_text t → s ≡ t
dash_text-injective s t e =
    let found : some s ≡ some t =
      sym (lookup-dash_text s) ∙ (ap (λ x. lookup x dash_to_type) e ∙ lookup-dash_text t) in
    cc

module _ {F : Type 0} where
  point_ids-IsAmong :
      (o : BacnetObjectSpec F) (objects : List (BacnetObjectSpec F))
      → IsAmong o objects
      → contains (point_ids objects) o.point_id ≡ true
  point_ids-IsAmong o [] h = absurd h
  point_ids-IsAmong o (x ∷ objects) (inl same) =
      let e = string_eq.decides o.point_id x.point_id in
      let e' : o.point_id ≡ x.point_id = ap (λ y. y.point_id) same in ground arith
  point_ids-IsAmong o (x ∷ objects) (inr later) =
      let rest = point_ids-IsAmong o objects later in ground arith

  object_ids-IsAmong :
      (o : BacnetObjectSpec F) (objects : List (BacnetObjectSpec F))
      → IsAmong o objects
      → contains (object_ids objects) (o.object_type, o.object_instance) ≡ true
  object_ids-IsAmong o [] h = absurd h
  object_ids-IsAmong o (x ∷ objects) (inl same) =
      let a = object_type_eq.decides o.object_type x.object_type in
      let b = int_eq.decides o.object_instance x.object_instance in
      let a' : o.object_type ≡ x.object_type = ap (λ y. y.object_type) same in
      let b' : o.object_instance ≡ x.object_instance = ap (λ y. y.object_instance) same in
      ground arith
  object_ids-IsAmong o (x ∷ objects) (inr later) =
      let rest = object_ids-IsAmong o objects later in ground arith

  oid_key-eq :
      (o x : BacnetObjectSpec F)
      → ◌==◌ {A = Oid} (oid_key o) (oid_key x)
        ≡ ◌==◌ {A = ObjectId} (o.object_type, o.object_instance) (x.object_type, x.object_instance)
  unfolding oid_key
  oid_key-eq o x =
      let tokens = string_eq.decides (dash_text o.object_type) (dash_text x.object_type) in
      let types = object_type_eq.decides o.object_type x.object_type in
      let same_type = dash_text-injective o.object_type x.object_type in
      let same_token : o.object_type ≡ x.object_type
          → dash_text o.object_type ≡ dash_text x.object_type =
        ap dash_text in
      ground arith

  writable_oids_of-contains :
      (oid : BacnetObjectSpec F) (objects : List (BacnetObjectSpec F))
      → contains (object_ids objects) (oid.object_type, oid.object_instance) ≡ false
      → contains (writable_oids_of objects) (oid_key oid) ≡ false
  unfolding writable_oids_of
  writable_oids_of-contains oid [] h = refl
  writable_oids_of-contains oid (x ∷ objects) h =
      let e = oid_key-eq oid x in
      let rest = writable_oids_of-contains oid objects in
      elim (Bool-cases x.writable) [
        | inl writable ↦ rw (writable, writable_oids_of) (ground arith)
        | inr shut ↦ rw (shut, writable_oids_of) (ground arith)
      ]

  writable_oids_of-writable :
      (o : BacnetObjectSpec F) (objects : List (BacnetObjectSpec F))
      → IsNodup (object_ids objects)
      → IsAmong o objects
      → contains (writable_oids_of objects) (oid_key o) ≡ o.writable
  unfolding writable_oids_of oid_key
  writable_oids_of-writable o [] distinct h = absurd h
  writable_oids_of-writable o (x ∷ objects) distinct (inl same) =
      rw same (elim (Bool-cases x.writable) [
        | inl writable ↦ rw (writable, writable_oids_of, beq_refl {A = Oid} (oid_key x)) refl
        | inr shut ↦ rw (shut, writable_oids_of) (writable_oids_of-contains x objects distinct.0)
      ])
  writable_oids_of-writable o (x ∷ objects) distinct (inr later) =
      let other =
        contains_differs {A = ObjectId} (object_ids objects) (o.object_type, o.object_instance)
          (x.object_type, x.object_instance) (object_ids-IsAmong o objects later) distinct.0 in
      let apart = oid_key-eq o x in
      let rest = writable_oids_of-writable o objects distinct.1 later in
      elim (Bool-cases x.writable) [
        | inl writable ↦ rw (writable, writable_oids_of) (ground arith)
        | inr shut ↦ rw (shut, writable_oids_of) rest
      ]

module _ {F : Type 0} (fl : FloatOps F) (device_id : ℤ) where
  add_properties-fresh :
      (objects : List (BacnetObjectSpec F)) (d : Dict String Property) (id : String)
      → contains (point_ids objects) id ≡ false
      → lookup id (add_properties fl device_id objects d) ≡ lookup id d
  unfolding add_properties
  add_properties-fresh [] d id fresh = refl
  add_properties-fresh (x ∷ objects) d id fresh =
      let rest =
        add_properties-fresh objects (insert x.point_id (property_of fl device_id x) d) id in
      let e = lookup-insert id x.point_id (property_of fl device_id x) d in ground arith

  add_properties-property_of :
      (o : BacnetObjectSpec F) (objects : List (BacnetObjectSpec F)) (d : Dict String Property)
      → IsNodup (point_ids objects)
      → IsAmong o objects
      → lookup o.point_id (add_properties fl device_id objects d)
        ≡ some (property_of fl device_id o)
  unfolding add_properties
  add_properties-property_of o [] d distinct h = absurd h
  add_properties-property_of o (x ∷ objects) d distinct (inl same) = rw same (
      add_properties-fresh objects _ x.point_id distinct.0
      ∙ lookup-insert_self x.point_id (property_of fl device_id x) d)
  add_properties-property_of o (x ∷ objects) d distinct (inr later) =
      add_properties-property_of o objects _ distinct.1 later

module _ {F : Type 0} (fl : FloatOps F) where
  -- On a config without validation errors, the Thing has a property for each object, under its point id,
  -- and the property is read-only exactly if the device does not accept writes of the object's present value.
  pub to_wot_td-compute_writable_oids :
      (config : SimulatorConfig F) (o : BacnetObjectSpec F)
      → validate_config config ≡ []
      → IsAmong o config.objects
      → (p : Property) × (lookup o.point_id (to_wot_td fl config).properties ≡ some p)
        × (p.read_only ≡ not (contains (compute_writable_oids config) (oid_key o)))
  unfolding to_wot_td compute_writable_oids property_of
  to_wot_td-compute_writable_oids config o valid among =
      let model = (validate_config-IsValidModel config).0 valid in
      (
        property_of fl config.bbc.device_id o,
        add_properties-property_of fl config.bbc.device_id o config.objects [] model.distinct_points
            among,
        rw (writable_oids_of-writable o config.objects model.distinct_objects among) refl,
      )
