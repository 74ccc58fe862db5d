-- ===== src/Common/Items.antt =====
-- Dict comprehensions over items with distinct keys, and over the swapped items.
use mathlib.Core.Path.{◌≡◌, refl}
use mathlib.Core.Option.{Option, none, some}
use mathlib.Core.List.{List, [], ◌∷◌}
use native.Mathlib.Omega.{arith}
use bacnet_sim_gateway.Common.Equality.{Eq, IsNodup}
use bacnet_sim_gateway.Common.Dict.{
  Dict, keys, lookup, insert, from_items, lookup-insert, contains-keys,
}

abbrev pub or_else {ℓ} : {A : Type ℓ} → Option A → Option A → Option A
or_else none o = o
or_else (some v) o = some v

abbrev pub swap {ℓ κ} : {K : Type ℓ} {V : Type κ} → List (K × V) → List (V × K)
swap [] = []
swap ((k, v) ∷ items) = (v, k) ∷ swap items

module _ {ℓ κ} {K : Type ℓ} {V : Type κ} ⦃e : Eq K⦄ where
  from_items_onto :
      (k : K) (items d : Dict K V)
      → IsNodup (keys items)
      → lookup k (from_items items d) ≡ or_else (lookup k items) (lookup k d)
  unfolding lookup from_items
  from_items_onto k [] d distinct = refl
  from_items_onto k ((j, v) ∷ items) d distinct = ground (
    arith,
    from_items_onto k items (insert j v d) distinct.1,
    lookup-insert k j v d,
    contains-keys k items,
    e.decides k j,
  )

  -- With distinct keys a dict comprehension has the items, and no other.
  pub lookup-from_items :
      (k : K) (items : Dict K V)
      → IsNodup (keys items)
      → lookup k (from_items items []) ≡ lookup k items
  unfolding lookup
  lookup-from_items k items distinct = ground (arith, from_items_onto k items [] distinct)

module _ {ℓ κ} {K : Type ℓ} {V : Type κ} ⦃e : Eq K⦄ ⦃f : Eq V⦄ where
  -- With distinct values a key is found by its value.
  pub lookup-swap :
      (k : K) (v : V) (items : List (K × V))
      → IsNodup (keys (swap items))
      → lookup k items ≡ some v
      → lookup v (swap items) ≡ some k
  unfolding lookup
  lookup-swap k v [] distinct h = ground arith
  lookup-swap k v ((j, w) ∷ items) distinct h = ground (
    arith,
    lookup-swap k v items distinct.1,
    contains-keys v (swap items),
    e.decides k j,
    f.decides v w,
  )
