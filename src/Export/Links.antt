-- ===== src/Export/Links.antt =====
-- The links of the JSON-LD graph lead to nodes of the graph.
use bacnet_sim_gateway.Common.{
  String, string_eq, true, List, [], ◌∷◌, map, is_some, ◌≡◌, refl, ap, arith, All, IsNodup, ◌⊎◌,
  Option-cases, inl, inr, ◌==◌, Bool-cases,
}
use bacnet_sim_gateway.Common.Dict.{
  Dict, keys, lookup, insert, lookup-insert, contains-keys-insert, lookup-insert_self,
}
use bacnet_sim_gateway.Models.{FloatOps, BacnetObjectSpec, SimulatorConfig}
use bacnet_sim_gateway.Export.Defs.{
  PointNode, EquipmentNode, Graph, set_default, device_iri, point_iri, equip_iri, equipment_node,
  point_node, add_equipment, to_jsonld,
}

abbrev ids_of : List PointNode → List String
ids_of [] = []
ids_of (p ∷ points) = p.id ∷ ids_of points

-- each node of the dict stands under its own IRI
abbrev pub IsKeyed : Dict String EquipmentNode → Type 0
IsKeyed [] = Unit
IsKeyed ((k, n) ∷ d) = (n.id ≡ k) × IsKeyed d

-- The device lists the points, in order; each point is a point of an equipment of the graph; no two
-- equipments have the same IRI, and each stands under its own.
pub record IsLinked (graph : Graph) : Type 0 where
  pub listed : graph.device.has_point ≡ ids_of graph.points
  pub placed : All (λ p. is_some (lookup p.is_point_of graph.equipment) ≡ true) graph.points
  pub distinct : IsNodup (keys graph.equipment)
  pub keyed : IsKeyed graph.equipment

insert-IsNodup :
    (k : String) (n : EquipmentNode) (d : Dict String EquipmentNode)
    → IsNodup (keys d)
    → IsNodup (keys (insert k n d))
unfolding insert
insert-IsNodup k n [] h = (refl, tt)
insert-IsNodup k n ((j, m) ∷ d) h = elim (Bool-cases (k == j)) [
  | inl same ↦ rw same h
  | inr other ↦ rw other (
      (
        (let e = contains-keys-insert j k n d in
            let e' = string_eq.decides j k in
            let e'' = string_eq.decides k j in ground (arith, h.0)),
        insert-IsNodup k n d h.1,
      ))
]

insert-IsKeyed :
    (k : String) (n : EquipmentNode) (d : Dict String EquipmentNode)
    → n.id ≡ k
    → IsKeyed d
    → IsKeyed (insert k n d)
unfolding insert
insert-IsKeyed k n [] own h = (own, tt)
insert-IsKeyed k n ((j, m) ∷ d) own h = elim (Bool-cases (k == j)) [
  | inl same ↦ rw same ((let e = string_eq.decides k j in ground arith), h.1)
  | inr other ↦ rw other (h.0, insert-IsKeyed k n d own h.1)
]

module _ (k : String) (n : EquipmentNode) (d : Dict String EquipmentNode) where
  -- the node is inserted, or there is one
  set_default-cases :
      (set_default k n d ≡ insert k n d) ⊎ ((set_default k n d ≡ d) × (is_some (lookup k d) ≡ true))
  unfolding set_default
  set_default-cases = elim (Option-cases (lookup k d)) [
    | inl new ↦ inl (rw (new, set_default) refl)
    | inr (old, there) ↦ inr (rw (there, set_default) refl, rw there refl)
  ]

  set_default-lookup_self : is_some (lookup k (set_default k n d)) ≡ true
  set_default-lookup_self = elim set_default-cases [
    | inl new ↦ rw (new, lookup-insert_self k n d) refl
    | inr (same, there) ↦ rw (same, there) refl
  ]

  set_default-lookup :
      (j : String) → is_some (lookup j d) ≡ true → is_some (lookup j (set_default k n d)) ≡ true
  set_default-lookup j h = elim set_default-cases [
    | inl new ↦ rw new (let e = lookup-insert j k n d in ground arith)
    | inr (same, there) ↦ rw same h
  ]

  set_default-IsNodup : IsNodup (keys d) → IsNodup (keys (set_default k n d))
  set_default-IsNodup h = elim set_default-cases [
    | inl new ↦ rw new (insert-IsNodup k n d h)
    | inr (same, there) ↦ rw same h
  ]

  set_default-IsKeyed : n.id ≡ k → IsKeyed d → IsKeyed (set_default k n d)
  set_default-IsKeyed own h = elim set_default-cases [
    | inl new ↦ rw new (insert-IsKeyed k n d own h)
    | inr (same, there) ↦ rw same h
  ]

module _ {F : Type 0} (fl : FloatOps F) (device : String) where
  add_equipment-lookup :
      (objects : List (BacnetObjectSpec F)) (d : Dict String EquipmentNode) (j : String)
      → is_some (lookup j d) ≡ true
      → is_some (lookup j (add_equipment fl device objects d)) ≡ true
  unfolding add_equipment
  add_equipment-lookup [] d j h = h
  add_equipment-lookup (o ∷ objects) d j h =
      add_equipment-lookup objects _ j (set_default-lookup _ (equipment_node fl device o) d j h)

  add_equipment-placed :
      (objects : List (BacnetObjectSpec F)) (d : Dict String EquipmentNode)
      → All
          (λ p. is_some (lookup p.is_point_of (add_equipment fl device objects d)) ≡ true)
          (map (point_node fl device) objects)
  unfolding add_equipment point_node
  add_equipment-placed [] d = tt
  add_equipment-placed (o ∷ objects) d = (
    add_equipment-lookup objects _ _ (set_default-lookup_self (equip_iri fl device o) _ d),
    add_equipment-placed objects _,
  )

  add_equipment-IsNodup :
      (objects : List (BacnetObjectSpec F)) (d : Dict String EquipmentNode)
      → IsNodup (keys d)
      → IsNodup (keys (add_equipment fl device objects d))
  unfolding add_equipment
  add_equipment-IsNodup [] d h = h
  add_equipment-IsNodup (o ∷ objects) d h =
      add_equipment-IsNodup objects _ (set_default-IsNodup _ (equipment_node fl device o) d h)

  add_equipment-IsKeyed :
      (objects : List (BacnetObjectSpec F)) (d : Dict String EquipmentNode)
      → IsKeyed d
      → IsKeyed (add_equipment fl device objects d)
  unfolding add_equipment equipment_node
  add_equipment-IsKeyed [] d h = h
  add_equipment-IsKeyed (o ∷ objects) d h =
      add_equipment-IsKeyed objects _ (set_default-IsKeyed _ (equipment_node fl device o) d refl h)

  listed_points :
      (objects : List (BacnetObjectSpec F))
      → map (point_iri fl device) objects ≡ ids_of (map (point_node fl device) objects)
  unfolding point_node
  listed_points [] = refl
  listed_points (o ∷ objects) = ap (◌∷◌ (point_iri fl device o)) (listed_points objects)

module _ {F : Type 0} (fl : FloatOps F) where
  -- In the graph of every config the device lists the points, in order; each point is a point of an
  -- equipment of the graph; no two equipments have the same IRI, and each stands under its own.
  pub to_jsonld-IsLinked : (config : SimulatorConfig F) → IsLinked (to_jsonld fl config)
  unfolding to_jsonld
  to_jsonld-IsLinked config =
      let device = device_iri fl config in
      record {
        listed = listed_points fl device config.objects;
        placed = add_equipment-placed fl device config.objects [];
        distinct = add_equipment-IsNodup fl device config.objects [] tt;
        keyed = add_equipment-IsKeyed fl device config.objects [] tt;
      }
