-- ===== src/Tests/Application.antt =====
-- The properties of `BBCApplication` at a concrete stack of objects.
use bacnet_sim_gateway.Common.{
  ℕ, nat_eq, string_eq, ℤ, int_eq, pair_eq, some, List, [], ◌∷◌, ◌≡◌, refl, ok, if◌then◌else◌, ◌==◌,
  ◌&&◌, raise, String, ◌⊎◌, contains, any, true, false,
}
use bacnet_sim_gateway.Models.{Value}
use bacnet_sim_gateway.Runtime.App.{
  Oid, Stack, App, Request, write_request, write_multiple_request, zero_counters, is_present_value,
  serve, find_denied, denied_property, multiple_denied, WriteSpec, do_write_property_multiple,
  after_write_multiple, on_state,
}
use bacnet_sim_gateway.Runtime.App.Multiple.{rejects, write_multiple-all_or_nothing}
use bacnet_sim_gateway.Runtime.App.Laws.{writes_present_value, StackLaws, HookKeeps}
use bacnet_sim_gateway.Runtime.App.Safety.{serve-present_value}

-- present values by object; a write sets that of its object
abbrev Values : Type 0
Values = Oid → Value ℕ

abbrev objects : Stack ℕ Values ℕ
objects = record {
  super_who_is = λ p s. (ok tt, s);
  super_read = λ p s. (ok tt, s);
  super_read_multiple = λ p s. (ok tt, s);
  super_write = λ req s. (
    ok tt,
    λ o.
        if is_present_value req.property_identifier && req.object_identifier == o
        then Value.real req.payload
        else s o,
  );
  super_write_multiple =
      λ specs s. (ok tt, λ o. if writes_present_value o specs then Value.null else s o);
  present_value_of = λ o s. some (s o);
}

objects_laws : StackLaws objects
objects_laws = record {
  who_is_keeps = λ p s o. refl;
  read_keeps = λ p s o. refl;
  read_multiple_keeps = λ p s o. refl;
  write_keeps = λ req s o e. rw e;
  write_multiple_keeps = λ specs s o e. rw e;
}

abbrev input : Oid
input = ("analog-input", ℤ.pos 1)

abbrev setpoint : Oid
setpoint = ("analog-value", ℤ.pos 1)

abbrev app : App ℕ Values
app = record {
  writable_oids = setpoint ∷ [];
  command_oids = setpoint ∷ [];
  on_command = some (λ oid v s. (ok tt, s));
  counters = zero_counters;
  state = λ o. Value.real 20;
}

abbrev requests : List (Request ℕ)
requests =
    write_request
      (record { object_identifier = input; property_identifier = "present-value"; payload = 5 })
    ∷ write_request (record {
      object_identifier = setpoint;
      property_identifier = "present-value";
      payload = 6;
    })
    ∷ write_multiple_request
        (record { object_identifier = input; properties = "presentValue" ∷ []; payload = 7 } ∷ [])
    ∷ []

app-HookKeeps : HookKeeps objects app
unfolding HookKeeps
app-HookKeeps hook on oid v s o = let same : hook ≡ (λ oid' v' s'. (ok tt, s')) = cc in rw same

serve-present_value_example :
    objects.present_value_of input (serve objects requests app).state ≡ some (Value.real 20)
serve-present_value_example =
    serve-present_value objects objects_laws input requests app app-HookKeeps refl

abbrev mixed : List (WriteSpec ℕ)
mixed =
    record { object_identifier = setpoint; properties = "presentValue" ∷ []; payload = 7 }
    ∷ record {
      object_identifier = input;
      properties = "description" ∷ "presentValue" ∷ [];
      payload = 8;
    }
    ∷ []

mixed_denied :
    do_write_property_multiple objects mixed app
    ≡ (raise (multiple_denied input "presentValue"), app)
unfolding do_write_property_multiple find_denied denied_property is_present_value
mixed_denied = refl

write_multiple-all_or_nothing_example :
    (any (λ s. rejects app.writable_oids s) mixed ≡ true)
      × ((o : Oid) × (p : String) × (contains app.writable_oids o ≡ false)
          × (do_write_property_multiple objects mixed app ≡ (raise (multiple_denied o p), app)))
    ⊎ (any (λ s. rejects app.writable_oids s) mixed ≡ false)
      × (do_write_property_multiple objects mixed app
          ≡ after_write_multiple objects mixed (
              on_state objects
                (record app { counters = record zero_counters { write_property_multiple = 1 } })
                (objects.super_write_multiple mixed app.state)))
write_multiple-all_or_nothing_example = write_multiple-all_or_nothing objects mixed app
