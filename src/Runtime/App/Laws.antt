-- ===== src/Runtime/App/Laws.antt =====
-- What the base class of the application keeps, and what passes the check of `writable`.
use native.Mathlib.Omega.{arith}
use bacnet_sim_gateway.Common.{
  String, string_eq, int_eq, pair_eq, Bool, false, not, ◌&&◌, none, some, List, [], ◌∷◌, ◌==◌,
  contains, any, Bool-cases, Option-cases, inl, inr, ◌≡◌, refl,
}
use bacnet_sim_gateway.Models.{Value}
use bacnet_sim_gateway.Runtime.App.Defs.{Oid, WriteRequest, WriteSpec, Outcome, Stack, App}
use bacnet_sim_gateway.Runtime.App.Handlers.{is_present_value, denied_property, find_denied}

-- does one of the elements write the present value of the object?
unfoldable pub writes_present_value : {P : Type 0} → Oid → List (WriteSpec P) → Bool
writes_present_value o specs =
    any (λ spec. spec.object_identifier == o && any is_present_value spec.properties) specs

-- What the base class and the hook leave alone: reads change no present value, a write changes at
-- most that of the object it names, and only if it names the present value, and the hook of a command changes none.
pub record StackLaws {F S P : Type 0} (stack : Stack F S P) : Type 0 where
  pub who_is_keeps :
      (p : P) (s : S) (o : Oid)
      → stack.present_value_of o (stack.super_who_is p s).1 ≡ stack.present_value_of o s
  pub read_keeps :
      (p : P) (s : S) (o : Oid)
      → stack.present_value_of o (stack.super_read p s).1 ≡ stack.present_value_of o s
  pub read_multiple_keeps :
      (p : P) (s : S) (o : Oid)
      → stack.present_value_of o (stack.super_read_multiple p s).1 ≡ stack.present_value_of o s
  pub write_keeps :
      (req : WriteRequest P) (s : S) (o : Oid)
      → (is_present_value req.property_identifier && req.object_identifier == o) ≡ false
      → stack.present_value_of o (stack.super_write req s).1 ≡ stack.present_value_of o s
  pub write_multiple_keeps :
      (specs : List (WriteSpec P)) (s : S) (o : Oid)
      → writes_present_value o specs ≡ false
      → stack.present_value_of o (stack.super_write_multiple specs s).1 ≡ stack.present_value_of o s

unfoldable pub HookKeeps : {F S P : Type 0} → Stack F S P → App F S → Type 0
HookKeeps {F} {S} stack app =
    (hook : Oid → Value F → S → Outcome S)
    → app.on_command ≡ some hook
    → (oid : Oid) (v : Value F) (s : S) (o : Oid)
    → stack.present_value_of o (hook oid v s).1 ≡ stack.present_value_of o s

-- no object that is not writable is among what passed the check
pub denied_property-none :
    (props : List String) → denied_property props ≡ none → any is_present_value props ≡ false
unfolding denied_property
denied_property-none [] _ = refl
denied_property-none (p ∷ props) e =
    let rest = denied_property-none props in
    elim (Bool-cases (is_present_value p)) [ inl hit ↦ ground arith | inr miss ↦ ground arith ]

pub find_denied-none :
    {P : Type 0}
    → (writable : List Oid) (specs : List (WriteSpec P)) (o : Oid) → contains writable o ≡ false
    → find_denied writable specs ≡ none
    → writes_present_value o specs ≡ false
unfolding find_denied writes_present_value
find_denied-none writable [] o locked e = refl
find_denied-none writable (spec ∷ specs) o locked e =
    let rest = find_denied-none writable specs o locked in
    let clean = denied_property-none spec.properties in
    elim (Bool-cases (spec.object_identifier == o)) [
      | inl hit ↦
          let named : spec.object_identifier ≡ o =
            (pair_eq.decides spec.object_identifier o).0 hit in
          let closed : contains writable spec.object_identifier ≡ false = ground arith in
          elim (Option-cases (denied_property spec.properties)) [
            | inl free ↦ ground arith
            | inr (p, found) ↦ ground arith
          ]
      | inr miss ↦ elim (Option-cases (denied_property spec.properties)) [
        | inl free ↦ ground arith
        | inr (p, found) ↦ ground arith
      ]
    ]

-- a write that the check lets through does not name the present value of a locked object
pub unnamed :
    (writable : List Oid) (named o : Oid) (pv : Bool)
    → contains writable o ≡ false
    → (pv && not (contains writable named)) ≡ false
    → (pv && named == o) ≡ false
unnamed writable named o pv locked allowed = elim (Bool-cases (named == o)) [
  | inl same ↦
      let equal = (pair_eq.decides named o).0 same in
      let closed : contains writable named ≡ false = rw equal locked in ground arith
  | inr other ↦ ground arith
]
