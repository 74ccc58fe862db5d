-- ===== src/Runtime/App/Safety.antt =====
-- What a client of `BBCApplication` cannot do: the present value of an object that is not writable
-- stays through every request, in any order.
use native.Mathlib.Omega.{arith}
use bacnet_sim_gateway.Common.{
  string_eq, int_eq, pair_eq, false, not, ◌&&◌, Option, none, some, List, [], ◌∷◌, Result, ok,
  raise, contains, any, Bool-cases, Option-cases, inl, inr, ◌≡◌, refl, sym, ◌∙◌,
}
use bacnet_sim_gateway.Models.{Value}
use bacnet_sim_gateway.Runtime.App.Defs.{
  Oid, Error, WriteRequest, WriteSpec, Request, who_is_request, read_request, read_multiple_request,
  write_request, write_multiple_request, Outcome, Stack, App,
}
use bacnet_sim_gateway.Runtime.App.Handlers.{
  is_present_value, find_denied, forward, forward_through, forward_if_bound, after_write,
  do_write_property, and_then, forward_spec, forward_specs, after_write_multiple,
  do_write_property_multiple, handle, serve,
}
use bacnet_sim_gateway.Runtime.App.Laws.{StackLaws, HookKeeps, find_denied-none, unnamed}

module _ {F S P : Type 0} (stack : Stack F S P) (laws : StackLaws stack) where
  -- the object's present value, and the configuration, are as they were
  Stays : Oid → App F S → App F S → Type 0
  Stays o app after =
      (stack.present_value_of o after.state ≡ stack.present_value_of o app.state)
      × (after.writable_oids ≡ app.writable_oids)
      × (after.on_command ≡ app.on_command)

  Stays-refl : (o : Oid) (app : App F S) → Stays o app app
  unfolding Stays
  Stays-refl o app = (refl, refl, refl)

  Stays-trans : (o : Oid) (a b c : App F S) → Stays o a b → Stays o b c → Stays o a c
  unfolding Stays
  Stays-trans o a b c h k = (k.0 ∙ h.0, k.1 ∙ h.1, k.2 ∙ h.2)

  HookKeeps-Stays : (o : Oid) (a b : App F S) → Stays o a b → HookKeeps stack a → HookKeeps stack b
  unfolding Stays HookKeeps
  HookKeeps-Stays o a b h keeps = λ hook on. keeps hook (sym h.2 ∙ on)

  forward-Stays :
      (o oid : Oid) (hook : Oid → Value F → S → Outcome S) (app : App F S)
      → HookKeeps stack app
      → app.on_command ≡ some hook
      → Stays o app (forward stack hook oid app).1
  unfolding Stays HookKeeps forward
  forward-Stays o oid hook app keeps on =
      elim (Option-cases (stack.present_value_of oid app.state)) [
        | inl missing ↦ ground arith
        | inr (v, found) ↦ let moved = keeps hook on oid v app.state o in ground arith
      ]

  forward_through-Stays :
      (o oid : Oid) (on_command : Option (Oid → Value F → S → Outcome S)) (app : App F S)
      → HookKeeps stack app
      → app.on_command ≡ on_command
      → Stays o app (forward_through stack on_command oid app).1
  unfolding forward_through
  forward_through-Stays o oid none app keeps on = Stays-refl o app
  forward_through-Stays o oid (some hook) app keeps on =
      let moved = forward-Stays o oid hook app keeps on in
      let same = Stays-refl o app in
      elim (Bool-cases (contains app.command_oids oid)) [
        | inl bound ↦ rw (bound, forward_through) moved
        | inr free ↦ rw (free, forward_through) same
      ]

  forward_if_bound-Stays :
      (o oid : Oid) (app : App F S)
      → HookKeeps stack app
      → Stays o app (forward_if_bound stack oid app).1
  unfolding forward_if_bound
  forward_if_bound-Stays o oid app keeps = forward_through-Stays o oid app.on_command app keeps refl

  after_write-Stays :
      (o : Oid) (req : WriteRequest P) (app : App F S) (h : Result Error (Unit {0}) × App F S)
      → HookKeeps stack app
      → Stays o app h.1
      → Stays o app (after_write stack req h).1
  unfolding after_write
  after_write-Stays o req app (raise e, after) keeps h = h
  after_write-Stays o req app (ok _, after) keeps h =
      let moved =
        forward_if_bound-Stays o req.object_identifier after
          (HookKeeps-Stays o app after h keeps) in
      let all_moved = Stays-trans o app after _ h moved in
      elim (Bool-cases (is_present_value req.property_identifier)) [
        | inl pv ↦ rw (pv, after_write) all_moved
        | inr other ↦ rw (other, after_write) h
      ]

  do_write_property-Stays :
      (o : Oid) (req : WriteRequest P) (app : App F S)
      → HookKeeps stack app
      → contains app.writable_oids o ≡ false
      → Stays o app (do_write_property stack req app).1
  unfolding do_write_property Stays
  do_write_property-Stays o req app keeps locked =
      let written = laws.write_keeps req app.state o in
      elim (Bool-cases (
        is_present_value req.property_identifier
        && not (contains app.writable_oids req.object_identifier))) [
          | inl denied ↦ rw (denied, do_write_property) (refl, refl, refl)
          | inr allowed ↦
              rw (allowed, do_write_property)
                (after_write-Stays o req app _ keeps (
                  written (unnamed app.writable_oids req.object_identifier o _ locked allowed),
                  refl,
                  refl,
                ))
        ]

  forward_spec-Stays :
      (o : Oid) (spec : WriteSpec P) (app : App F S)
      → HookKeeps stack app
      → Stays o app (forward_spec stack spec app).1
  unfolding forward_spec
  forward_spec-Stays o spec app keeps =
      let moved = forward_if_bound-Stays o spec.object_identifier app keeps in
      let same = Stays-refl o app in
      elim (Bool-cases (any is_present_value spec.properties)) [
        | inl pv ↦ rw (pv, forward_spec) moved
        | inr other ↦ rw (other, forward_spec) same
      ]

  and_then-Stays :
      (o : Oid) (app : App F S) (h : Result Error (Unit {0}) × App F S)
      (k : App F S → Result Error (Unit {0}) × App F S)
      → HookKeeps stack app
      → Stays o app h.1
      → ((after : App F S) → HookKeeps stack after → Stays o after (k after).1)
      → Stays o app (and_then stack h k).1
  unfolding and_then
  and_then-Stays o app (raise e, after) k keeps h rest = h
  and_then-Stays o app (ok _, after) k keeps h rest =
      Stays-trans o app after _ h (rest after (HookKeeps-Stays o app after h keeps))

  forward_specs-Stays :
      (o : Oid) (specs : List (WriteSpec P)) (app : App F S)
      → HookKeeps stack app
      → Stays o app (forward_specs stack specs app).1
  unfolding forward_specs
  forward_specs-Stays o [] app keeps = Stays-refl o app
  forward_specs-Stays o (spec ∷ specs) app keeps =
      and_then-Stays o app (forward_spec stack spec app) (λ after. forward_specs stack specs after)
        keeps (forward_spec-Stays o spec app keeps)
        (λ after kept. forward_specs-Stays o specs after kept)

  after_write_multiple-Stays :
      (o : Oid) (specs : List (WriteSpec P)) (app : App F S) (h : Result Error (Unit {0}) × App F S)
      → HookKeeps stack app
      → Stays o app h.1
      → Stays o app (after_write_multiple stack specs h).1
  unfolding after_write_multiple
  after_write_multiple-Stays o specs app (raise e, after) keeps h = h
  after_write_multiple-Stays o specs app (ok _, after) keeps h =
      Stays-trans o app after _ h
        (forward_specs-Stays o specs after (HookKeeps-Stays o app after h keeps))

  do_write_property_multiple-Stays :
      (o : Oid) (specs : List (WriteSpec P)) (app : App F S)
      → HookKeeps stack app
      → contains app.writable_oids o ≡ false
      → Stays o app (do_write_property_multiple stack specs app).1
  unfolding do_write_property_multiple Stays
  do_write_property_multiple-Stays o specs app keeps locked =
      elim (Option-cases (find_denied app.writable_oids specs)) [
        | inl free ↦
            let written =
              laws.write_multiple_keeps specs app.state o
                (find_denied-none app.writable_oids specs o locked free) in
            rw (free, do_write_property_multiple)
              (after_write_multiple-Stays o specs app _ keeps (written, refl, refl))
        | inr ((oid, p), found) ↦ rw (found, do_write_property_multiple) (refl, refl, refl)
      ]

  handle-Stays :
      (o : Oid) (r : Request P) (app : App F S)
      → HookKeeps stack app
      → contains app.writable_oids o ≡ false
      → Stays o app (handle stack r app).1
  unfolding handle Stays
  handle-Stays o (who_is_request p) app keeps locked = (laws.who_is_keeps p app.state o, refl, refl)
  handle-Stays o (read_request p) app keeps locked = (laws.read_keeps p app.state o, refl, refl)
  handle-Stays o (read_multiple_request p) app keeps locked =
      (laws.read_multiple_keeps p app.state o, refl, refl)
  handle-Stays o (write_request req) app keeps locked =
      do_write_property-Stays o req app keeps locked
  handle-Stays o (write_multiple_request specs) app keeps locked =
      do_write_property_multiple-Stays o specs app keeps locked

  -- Whatever requests are served, in whatever order, the present value of an object that is not
  -- writable is the one it had, given that the base class and the command hook keep the laws.
  pub serve-present_value :
      (o : Oid) (requests : List (Request P)) (app : App F S)
      → HookKeeps stack app
      → contains app.writable_oids o ≡ false
      → stack.present_value_of o (serve stack requests app).state
        ≡ stack.present_value_of o app.state
  unfolding serve Stays
  serve-present_value o [] app keeps locked = refl
  serve-present_value o (r ∷ requests) app keeps locked =
      let h = handle-Stays o r app keeps locked in
      let after = (handle stack r app).1 in
      let still_locked : contains after.writable_oids o ≡ false = rw h.1 locked in
      serve-present_value o requests after (HookKeeps-Stays o app after h keeps) still_locked ∙ h.0
