-- ===== src/Runtime/App/Multiple.antt =====
-- What the check of a write of several objects decides in `do_WritePropertyMultipleRequest` of
-- src/bbc_sim/simulator_runtime/app.py.
use native.Mathlib.Omega.{arith}
use bacnet_sim_gateway.Common.{
  ◌+◌, String, string_eq, int_eq, pair_eq, Bool, true, false, not, ◌&&◌, some, List, [], ◌∷◌, raise,
  contains, any, Bool-cases, Option-cases, inl, inr, ◌⊎◌, ◌≡◌, refl, is_some,
}
use bacnet_sim_gateway.Runtime.App.Defs.{Oid, multiple_denied, WriteSpec, Stack, App}
use bacnet_sim_gateway.Runtime.App.Handlers.{
  is_present_value, denied_property, find_denied, after_write_multiple, do_write_property_multiple,
  on_state,
}

-- does the element write the present value of an object that is not writable?
unfoldable pub rejects : {P : Type 0} → List Oid → WriteSpec P → Bool
rejects writable spec =
    not (contains writable spec.object_identifier) && any is_present_value spec.properties

denied_property-is_some :
    (props : List String) → is_some (denied_property props) ≡ any is_present_value props
unfolding denied_property
denied_property-is_some [] = refl
denied_property-is_some (p ∷ props) =
    let rest = denied_property-is_some props in
    elim (Bool-cases (is_present_value p)) [ inl hit ↦ ground arith | inr miss ↦ ground arith ]

find_denied-is_some :
    {P : Type 0}
    → (writable : List Oid) (specs : List (WriteSpec P))
    → is_some (find_denied writable specs) ≡ any (λ s. rejects writable s) specs
unfolding find_denied rejects
find_denied-is_some writable [] = refl
find_denied-is_some writable (spec ∷ specs) =
    let rest = find_denied-is_some writable specs in
    let here = denied_property-is_some spec.properties in
    elim (Option-cases (denied_property spec.properties)) [
      | inl free ↦ ground arith
      | inr (p, found) ↦ ground arith
    ]

find_denied-locked :
    {P : Type 0}
    → (writable : List Oid) (specs : List (WriteSpec P)) (o : Oid) (p : String)
    → find_denied writable specs ≡ some (o, p)
    → contains writable o ≡ false
unfolding find_denied
find_denied-locked writable [] o p e = ground arith
find_denied-locked writable (spec ∷ specs) o p e =
    let rest = find_denied-locked writable specs o p in
    elim (Bool-cases (contains writable spec.object_identifier)) [
      | inl known ↦ ground arith
      | inr locked ↦ elim (Option-cases (denied_property spec.properties)) [
        | inl free ↦ ground arith
        | inr (q, found) ↦ ground arith
      ]
    ]

module _ {F S P : Type 0} (stack : Stack F S P) where
  -- A write of several objects is refused as a whole or passed on as a whole. If some element writes
  -- the present value of an object that is not writable, the handler raises an error that names such
  -- an object, and neither the state nor a counter changes; otherwise the request is counted once,
  -- all of it goes to the base class in one call, and the forwarding loop runs on what that returns.
  pub write_multiple-all_or_nothing :
      (specs : List (WriteSpec P)) (app : App F S)
      → (any (λ s. rejects app.writable_oids s) specs ≡ true)
          × ((o : Oid) × (p : String) × (contains app.writable_oids o ≡ false)
              × (do_write_property_multiple stack specs app ≡ (raise (multiple_denied o p), app)))
        ⊎ (any (λ s. rejects app.writable_oids s) specs ≡ false)
          × (do_write_property_multiple stack specs app
              ≡ after_write_multiple stack specs (
                  on_state stack
                    (record app {
                      counters = record app.counters {
                        write_property_multiple = app.counters.write_property_multiple + 1;
                      };
                    })
                    (stack.super_write_multiple specs app.state)))
  unfolding do_write_property_multiple
  write_multiple-all_or_nothing specs app =
      let decided = find_denied-is_some app.writable_oids specs in
      elim (Option-cases (find_denied app.writable_oids specs)) [
        | inl free ↦ inr (ground arith, rw (free, do_write_property_multiple))
        | inr ((o, p), found) ↦
            let locked = find_denied-locked app.writable_oids specs o p found in
            inl (ground arith, (o, p, locked, rw (found, do_write_property_multiple)))
      ]
