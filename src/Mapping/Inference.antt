-- ===== src/Mapping/Inference.antt =====
-- What `resolve_object_type` decides, on every path.
use bacnet_sim_gateway.Common.{
  ◌≡◌, refl, ◌⊎◌, Bool, true, false, some, List, [], ◌∷◌, arith, leb, length, nat_eq,
}
use bacnet_sim_gateway.Common.Text.{strip, lstrip, rstrip, lower}
use bacnet_sim_gateway.Common.Dict.{lookup}
use bacnet_sim_gateway.Models.{
  BacnetObjectType, is_multistate, analog_output, binary_output, multi_state_output,
  object_type_text, SbcoPoint,
}
use bacnet_sim_gateway.Mapping.Defs.{
  normalize_object_type, family_to_concrete, Family, Warning, unknown_object_type, infer_family,
  infer_object_type, resolve_object_type,
}

-- Each value of the enumeration, as simulator.yaml spells it, normalizes to itself.
pub normalize_object_type-object_type_text :
    (t : BacnetObjectType) → normalize_object_type (object_type_text t) ≡ some t
unfolding normalize_object_type object_type_text lookup strip lstrip rstrip lower
normalize_object_type-object_type_text BacnetObjectType.analog_input = refl
normalize_object_type-object_type_text _ = refl

abbrev pub is_output : BacnetObjectType → Bool
is_output analog_output = true
is_output binary_output = true
is_output multi_state_output = true
is_output _ = false

family_not_output : (f : Family) (w : Bool) → is_output (family_to_concrete f w) ≡ false
unfolding family_to_concrete
family_not_output Family.multi_state true = refl
family_not_output Family.multi_state false = refl
family_not_output Family.binary true = refl
family_not_output Family.binary false = refl
family_not_output Family.analog true = refl
family_not_output Family.analog false = refl

multistate_family :
    (f : Family) (w : Bool) → is_multistate (family_to_concrete f w) ≡ true → f ≡ Family.multi_state
unfolding family_to_concrete is_multistate
multistate_family Family.multi_state w h = refl
multistate_family Family.binary true h = cc
multistate_family Family.binary false h = cc
multistate_family Family.analog true h = cc
multistate_family Family.analog false h = cc

module _ {F : Type 0} (p : SbcoPoint F) where
  infer_not_output : (ws : List Warning) → is_output (infer_object_type p ws).0 ≡ false
  unfolding infer_object_type
  infer_not_output ws = family_not_output (infer_family p).0 p.writable

  -- An Output type comes only from an explicit `object_type_bacnet` that names it.
  pub resolve_object_type-is_output :
      is_output (resolve_object_type p).0 ≡ true
      → normalize_object_type (strip p.object_type_bacnet) ≡ some (resolve_object_type p).0
  unfolding resolve_object_type
  resolve_object_type-is_output h = ground (
    arith,
    infer_not_output [],
    infer_not_output (unknown_object_type p.point_id (strip p.object_type_bacnet) ∷ []),
  )

  infer_family-multi_state :
      (infer_family p).0 ≡ Family.multi_state → leb 3 (length p.labels) ≡ true
  unfolding infer_family
  infer_family-multi_state h = ground arith

  infer_multistate :
      (ws : List Warning)
      → is_multistate (infer_object_type p ws).0 ≡ true
      → leb 3 (length p.labels) ≡ true
  unfolding infer_object_type
  infer_multistate ws h =
      infer_family-multi_state (multistate_family (infer_family p).0 p.writable h)

  -- A multi-state type is the explicit one, or the point has three labels or more.
  pub resolve_object_type-is_multistate :
      is_multistate (resolve_object_type p).0 ≡ true
      → (normalize_object_type (strip p.object_type_bacnet) ≡ some (resolve_object_type p).0)
        ⊎ (leb 3 (length p.labels) ≡ true)
  unfolding resolve_object_type
  resolve_object_type-is_multistate h = ground (
    arith,
    infer_multistate [],
    infer_multistate (unknown_object_type p.point_id (strip p.object_type_bacnet) ∷ []),
  )
