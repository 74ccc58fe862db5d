-- ===== src/Common/Dict.antt =====
-- Python's dict in insertion order, as an association list: writing to a key that is there keeps
-- its place. A set is modelled by a list and `contains` where its order is never read.
use bacnet_sim_gateway.Common.Tests.{if◌then◌else◌}
use bacnet_sim_gateway.Common.Equality.{Eq, ◌==◌, contains, beq_refl}
use mathlib.Core.Path.{◌≡◌, refl}
use mathlib.Core.Bool.{◌||◌}
use mathlib.Core.Option.{Option, none, some}
use mathlib.Core.List.{List, [], ◌∷◌}
use native.Mathlib.Omega.{arith}
use bacnet_sim_gateway.Common.Tests.{is_some}

abbrev pub Dict {ℓ κ} : Type ℓ → Type κ → Type (ℓ ⊔ κ)
Dict K V = List (K × V)

abbrev pub keys {ℓ κ} : {K : Type ℓ} {V : Type κ} → Dict K V → List K
keys [] = []
keys ((k, v) ∷ d) = k ∷ keys d

module _ {ℓ κ} {K : Type ℓ} {V : Type κ} ⦃e : Eq K⦄ where
  -- `d.get(k)`
  unfoldable pub lookup : K → Dict K V → Option V
  lookup k [] = none
  lookup k ((j, v) ∷ d) = if k == j then some v else lookup k d

  -- `d[k] = v`
  unfoldable pub insert : K → V → Dict K V → Dict K V
  insert k v [] = (k, v) ∷ []
  insert k v ((j, w) ∷ d) = if k == j then (j, v) ∷ d else (j, w) ∷ insert k v d

  -- `{k: v for k, v in items}` : a later item of a key overwrites an earlier one
  unfoldable pub from_items : List (K × V) → Dict K V → Dict K V
  from_items [] d = d
  from_items ((k, v) ∷ items) d = from_items items (insert k v d)

  pub lookup-insert :
      (j k : K) (v : V) (d : Dict K V)
      → lookup j (insert k v d) ≡ (if j == k then some v else lookup j d)
  unfolding insert lookup
  lookup-insert j k v [] = refl
  lookup-insert j k v ((i, w) ∷ d) =
      ground (arith, lookup-insert j k v d, e.decides k i, e.decides j i, e.decides j k)

  pub lookup-insert_self : (k : K) (v : V) (d : Dict K V) → lookup k (insert k v d) ≡ some v
  lookup-insert_self k v d = ground (arith, lookup-insert k k v d, beq_refl k)

  pub contains-keys : (k : K) (d : Dict K V) → contains (keys d) k ≡ is_some (lookup k d)
  unfolding lookup
  contains-keys k [] = refl
  contains-keys k ((j, v) ∷ d) = ground (arith, contains-keys k d)

  pub contains-keys-insert :
      (j k : K) (v : V) (d : Dict K V)
      → contains (keys (insert k v d)) j ≡ (j == k || contains (keys d) j)
  contains-keys-insert j k v d =
      ground (arith, contains-keys j (insert k v d), contains-keys j d, lookup-insert j k v d)
