-- ===== src/Bows/Registry.antt =====
-- src/bbc_sim/bows/point_registry.py: point ids and BACnet objects, in both directions.
use bacnet_sim_gateway.Common.{
  String, string_eq, ℤ, int_eq, pair_eq, Option, some, List, [], ◌∷◌, ◌≡◌, refl, ◌↔◌, ◌∙◌, sym,
  IsNodup,
}
use bacnet_sim_gateway.Common.Dict.{Dict, keys, lookup, from_items}
use bacnet_sim_gateway.Common.Items.{swap, lookup-from_items, lookup-swap}
use bacnet_sim_gateway.Models.{BacnetObjectType, object_type_eq, BacnetObjectSpec, SimulatorConfig}
use bacnet_sim_gateway.Validate.{validate_config}
use bacnet_sim_gateway.Validate.Exact.{point_ids, object_ids, validate_config-IsValidModel}

pub record PointRegistry : Type 0 where
  pub by_point_id : Dict String (BacnetObjectType × ℤ)
  pub by_bacnet : Dict (BacnetObjectType × ℤ) String

module _ {F : Type 0} where
  unfoldable pub point_items : List (BacnetObjectSpec F) → List (String × (BacnetObjectType × ℤ))
  point_items [] = []
  point_items (s ∷ specs) = (s.point_id, (s.object_type, s.object_instance)) ∷ point_items specs

  unfoldable pub bacnet_items : List (BacnetObjectSpec F) → List ((BacnetObjectType × ℤ) × String)
  bacnet_items [] = []
  bacnet_items (s ∷ specs) = ((s.object_type, s.object_instance), s.point_id) ∷ bacnet_items specs

  unfoldable pub init_registry : List (BacnetObjectSpec F) → PointRegistry
  init_registry specs = record {
    by_point_id = from_items (point_items specs) [];
    by_bacnet = from_items (bacnet_items specs) [];
  }

unfoldable pub resolve_point_id : PointRegistry → String → Option (BacnetObjectType × ℤ)
resolve_point_id r id = lookup id r.by_point_id

unfoldable pub resolve_bacnet : PointRegistry → BacnetObjectType → ℤ → Option String
resolve_bacnet r ot n = lookup (ot, n) r.by_bacnet

module _ {F : Type 0} where
  keys-point_items :
      (specs : List (BacnetObjectSpec F)) → keys (point_items specs) ≡ point_ids specs
  unfolding point_items
  keys-point_items [] = refl
  keys-point_items (s ∷ specs) = rw (keys-point_items specs)

  keys-bacnet_items :
      (specs : List (BacnetObjectSpec F)) → keys (bacnet_items specs) ≡ object_ids specs
  unfolding bacnet_items
  keys-bacnet_items [] = refl
  keys-bacnet_items (s ∷ specs) = rw (keys-bacnet_items specs)

  swap-point_items :
      (specs : List (BacnetObjectSpec F)) → swap (point_items specs) ≡ bacnet_items specs
  unfolding point_items bacnet_items
  swap-point_items [] = refl
  swap-point_items (s ∷ specs) = rw (swap-point_items specs)

  swap-bacnet_items :
      (specs : List (BacnetObjectSpec F)) → swap (bacnet_items specs) ≡ point_items specs
  unfolding point_items bacnet_items
  swap-bacnet_items [] = refl
  swap-bacnet_items (s ∷ specs) = rw (swap-bacnet_items specs)

  -- On a config without validation errors the two lookups are inverse to one another.
  pub resolve_point_id-resolve_bacnet :
      (config : SimulatorConfig F) (id : String) (ot : BacnetObjectType) (n : ℤ)
      → validate_config config ≡ []
      → (resolve_point_id (init_registry config.objects) id ≡ some (ot, n))
        ↔ (resolve_bacnet (init_registry config.objects) ot n ≡ some id)
  unfolding resolve_point_id resolve_bacnet init_registry
  resolve_point_id-resolve_bacnet config id ot n checked =
      let v = (validate_config-IsValidModel config).0 checked in
      let specs = config.objects in
      let points : IsNodup (keys (point_items specs)) =
        rw (keys-point_items specs) v.distinct_points in
      let slots : IsNodup (keys (bacnet_items specs)) =
        rw (keys-bacnet_items specs) v.distinct_objects in
      (
        λ h.
            lookup-from_items (ot, n) (bacnet_items specs) slots
            ∙ (rw (sym (swap-point_items specs)) (
                lookup-swap id (ot, n) (point_items specs) (rw (swap-point_items specs) slots)
                  (sym (lookup-from_items id (point_items specs) points) ∙ h))),
        λ h.
            lookup-from_items id (point_items specs) points
            ∙ (rw (sym (swap-bacnet_items specs)) (
                lookup-swap (ot, n) id (bacnet_items specs) (rw (swap-bacnet_items specs) points)
                  (sym (lookup-from_items (ot, n) (bacnet_items specs) slots) ∙ h))),
      )
