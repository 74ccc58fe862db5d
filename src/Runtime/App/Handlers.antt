-- ===== src/Runtime/App/Handlers.antt =====
-- The handlers of `BBCApplication` of src/bbc_sim/simulator_runtime/app.py.
use bacnet_sim_gateway.Common.{
  ◌+◌, String, string_eq, int_eq, pair_eq, Bool, not, ◌&&◌, ◌||◌, Option, none, some, List, [], ◌∷◌,
  Result, ok, raise, ◌==◌, contains, any, if◌then◌else◌,
}
use bacnet_sim_gateway.Models.{Value}
use bacnet_sim_gateway.Runtime.App.Defs.{
  Oid, Error, write_access_denied_error, multiple_denied, WriteRequest, WriteSpec, Request,
  who_is_request, read_request, read_multiple_request, write_request, write_multiple_request,
  Outcome, Stack, App,
}

unfoldable pub is_present_value : String → Bool
is_present_value prop = prop == "present-value" || prop == "presentValue"

module _ {F S : Type 0} where
  -- configuration accessors
  unfoldable pub set_writable_oids : List Oid → App F S → App F S
  set_writable_oids oids app = record app { writable_oids = oids }

  unfoldable pub set_command_oids : List Oid → App F S → App F S
  set_command_oids oids app = record app { command_oids = oids }

  unfoldable pub set_command_hook : Option (Oid → Value F → S → Outcome S) → App F S → App F S
  set_command_hook hook app = record app { on_command = hook }

-- the first present-value element of an object that is not writable
unfoldable pub denied_property : List String → Option String
denied_property [] = none
denied_property (p ∷ props) = if is_present_value p then some p else denied_property props

module _ {P : Type 0} where
  unfoldable pub find_denied : List Oid → List (WriteSpec P) → Option (Oid × String)
  find_denied writable [] = none
  find_denied writable (spec ∷ specs) =
      if contains writable spec.object_identifier
      then find_denied writable specs
      else elim (denied_property spec.properties) [
        | none ↦ find_denied writable specs
        | some p ↦ some (spec.object_identifier, p)
      ]

module _ {F S P : Type 0} (stack : Stack F S P) where
  abbrev pub Handled : Type 0
  Handled = Result Error (Unit {0}) × App F S

  -- the outcome of a call on the state, as that of the handler
  abbrev pub on_state : App F S → Outcome S → Handled
  on_state app (r, s) = (r, record app { state = s })

  -- `obj = get_object_id(oid)`, and the hook if there is an object
  unfoldable pub forward : (Oid → Value F → S → Outcome S) → Oid → App F S → Handled
  forward hook oid app = elim (stack.present_value_of oid app.state) [
    | none ↦ (ok tt, app)
    | some v ↦ on_state app (hook oid v app.state)
  ]

  -- `if self.on_command and oid in self._command_oids`
  unfoldable pub forward_through : Option (Oid → Value F → S → Outcome S) → Oid → App F S → Handled
  forward_through none oid app = (ok tt, app)
  forward_through (some hook) oid app =
      if contains app.command_oids oid then forward hook oid app else (ok tt, app)

  unfoldable pub forward_if_bound : Oid → App F S → Handled
  forward_if_bound oid app = forward_through app.on_command oid app

  unfoldable pub after_write : WriteRequest P → Handled → Handled
  after_write req (raise e, app) = (raise e, app)
  after_write req (ok _, app) =
      if is_present_value req.property_identifier
      then forward_if_bound req.object_identifier app
      else (ok tt, app)

  unfoldable pub do_write_property : WriteRequest P → App F S → Handled
  do_write_property req app =
      if is_present_value req.property_identifier
        && not (contains app.writable_oids req.object_identifier)
      then (
        raise write_access_denied_error,
        record app {
          counters = record app.counters {
            write_access_denied = app.counters.write_access_denied + 1;
          };
        },
      )
      else (let counted : App F S = record app {
        counters = record app.counters { write_property = app.counters.write_property + 1 };
      } in
          after_write req (on_state counted (stack.super_write req counted.state)))

  -- an exception leaves the function
  unfoldable pub and_then : Handled → (App F S → Handled) → Handled
  and_then (raise e, app) k = (raise e, app)
  and_then (ok _, app) k = k app

  unfoldable pub forward_spec : WriteSpec P → App F S → Handled
  forward_spec spec app =
      if any is_present_value spec.properties
      then forward_if_bound spec.object_identifier app
      else (ok tt, app)

  -- the loop after a write of several objects
  unfoldable pub forward_specs : List (WriteSpec P) → App F S → Handled
  forward_specs [] app = (ok tt, app)
  forward_specs (spec ∷ specs) app =
      and_then (forward_spec spec app) (λ after. forward_specs specs after)

  unfoldable pub after_write_multiple : List (WriteSpec P) → Handled → Handled
  after_write_multiple specs (raise e, app) = (raise e, app)
  after_write_multiple specs (ok _, app) = forward_specs specs app

  unfoldable pub do_write_property_multiple : List (WriteSpec P) → App F S → Handled
  do_write_property_multiple specs app = elim (find_denied app.writable_oids specs) [
    | some (oid, p) ↦ (raise (multiple_denied oid p), app)
    | none ↦
        let counted : App F S = record app {
          counters = record app.counters {
            write_property_multiple = app.counters.write_property_multiple + 1;
          };
        } in
        after_write_multiple specs
          (on_state counted (stack.super_write_multiple specs counted.state))
  ]

  unfoldable pub handle : Request P → App F S → Handled
  handle (who_is_request p) app =
      on_state (record app { counters = record app.counters { who_is = app.counters.who_is + 1 } })
        (stack.super_who_is p app.state)
  handle (read_request p) app =
      on_state
        (record app {
          counters = record app.counters { read_property = app.counters.read_property + 1 };
        })
        (stack.super_read p app.state)
  handle (read_multiple_request p) app =
      on_state
        (record app {
          counters = record app.counters {
            read_property_multiple = app.counters.read_property_multiple + 1;
          };
        })
        (stack.super_read_multiple p app.state)
  handle (write_request req) app = do_write_property req app
  handle (write_multiple_request specs) app = do_write_property_multiple specs app

  -- requests one after the other; an error is the answer of its own request
  unfoldable pub serve : List (Request P) → App F S → App F S
  serve [] app = app
  serve (r ∷ requests) app = serve requests (handle r app).1
