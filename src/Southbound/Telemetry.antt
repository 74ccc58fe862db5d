-- ===== src/Southbound/Telemetry.antt =====
-- What telemetry does to the objects, and that commands and telemetry agree.
use bacnet_sim_gateway.Common.{
  String, string_eq, int_eq, pair_eq, list_eq, nat_eq, Bool, true, false, Option, none, some,
  Result, ok, raise, ◌>>=◌, ◌==◌, ◌≡◌, refl, ◌∙◌, arith, Bool-cases, Option-cases, inl, inr,
  if◌then◌else◌,
}
use bacnet_sim_gateway.Common.Dict.{Dict, lookup, lookup-insert}
use bacnet_sim_gateway.Common.Text.{lower}
use bacnet_sim_gateway.Models.{
  Value, FloatOps, ConversionError, str_value, is_truthy, BacnetObjectSpec,
}
use bacnet_sim_gateway.Runtime.App.{Oid, oid_key}
use bacnet_sim_gateway.Simulation.Fault.{LiveObject}
use bacnet_sim_gateway.Southbound.Transform.{
  is_boolean, present_value_of_raw, telemetry_to_present_value, command_value,
}
use bacnet_sim_gateway.Southbound.Binding.{
  Manager, Assign, store_object, write_object, mark_written, handle_value, handler,
}

module _ {F E : Type 0} (assign : Assign F E) where
  -- an object to which a value is assigned, if it takes it
  abbrev pub assigned : LiveObject F → Result E (Value F) → LiveObject F
  assigned o (ok v) = record o { present_value = v }
  assigned o (raise e) = o

  -- an object, if it is there, after a conversion
  abbrev pub receive :
      Option (LiveObject F) → Result ConversionError (Value F) → Option (LiveObject F)
  receive none r = none
  receive (some o) (raise e) = some o
  receive (some o) (ok v) = some (assigned o (assign o v))

module _ {F E : Type 0} (fl : FloatOps F) (assign : Assign F E) where
  -- what an outcome of the write leaves
  abbrev left_objects :
      Dict Oid (LiveObject F) → Result E (Dict Oid (LiveObject F)) → Dict Oid (LiveObject F)
  left_objects objects (ok after) = after
  left_objects objects (raise e) = objects

  lookup-store_object :
      (q oid : Oid) (o : LiveObject F) (r : Result E (Value F)) (objects : Dict Oid (LiveObject F))
      → lookup oid objects ≡ some o
      → lookup q (left_objects objects (store_object fl assign oid o r objects))
        ≡ (if q == oid then some (assigned assign o r) else lookup q objects)
  unfolding store_object
  lookup-store_object q oid o (ok v) objects found =
      lookup-insert q oid (record o { present_value = v }) objects
  lookup-store_object q oid o (raise e) objects found = elim (Bool-cases (q == oid)) [
    | inl same ↦
        let there : lookup q objects ≡ some o = rw ((pair_eq.decides q oid).0 same) found in
        rw (same, there) refl
    | inr other ↦ rw other refl
  ]

  lookup-write_object :
      (q oid : Oid) (v : Value F) (objects : Dict Oid (LiveObject F))
      → lookup q (left_objects objects (write_object fl assign oid v objects))
        ≡ (if q == oid then receive assign (lookup q objects) (ok v) else lookup q objects)
  unfolding write_object
  lookup-write_object q oid v objects = elim (Option-cases (lookup oid objects)) [
    | inl missing ↦ elim (Bool-cases (q == oid)) [
      | inl same ↦
          let there : lookup q objects ≡ none = rw ((pair_eq.decides q oid).0 same) missing in
          rw (missing, write_object, same, there) refl
      | inr other ↦ rw (missing, write_object, other) refl
    ]
    | inr (o, found) ↦
        rw (found, write_object)
          (lookup-store_object q oid o (assign o v) objects found ∙ elim (Bool-cases (q == oid)) [
            | inl same ↦
                let there : lookup q objects ≡ some o = rw ((pair_eq.decides q oid).0 same) found in
                rw (same, there) refl
            | inr other ↦ rw other refl
          ])
  ]

  mark_written-objects :
      (spec : BacnetObjectSpec F) (v : Value F) (now : F) (m : Manager F)
      (objects : Dict Oid (LiveObject F)) (r : Result E (Dict Oid (LiveObject F)))
      → (mark_written fl assign spec v now m objects r).1 ≡ left_objects objects r
  unfolding mark_written
  mark_written-objects spec v now m objects (ok after) = refl
  mark_written-objects spec v now m objects (raise e) = refl

  handle_value-receive :
      (spec : BacnetObjectSpec F) (r : Result ConversionError (Value F)) (now : F) (m : Manager F)
      (objects : Dict Oid (LiveObject F)) (q : Oid)
      → lookup q (handle_value fl assign spec r now m objects).1
        ≡ (if q == oid_key spec then receive assign (lookup q objects) r else lookup q objects)
  unfolding handle_value
  handle_value-receive spec (ok v) now m objects q =
      rw (mark_written-objects spec v now m objects)
        (lookup-write_object q (oid_key spec) v objects)
  handle_value-receive spec (raise e) now m objects q = elim (Option-cases (lookup q objects)) [
    | inl missing ↦ rw missing (ground arith)
    | inr (o, found) ↦ rw found (ground arith)
  ]

  -- what a message does to any object
  pub handler-receive :
      (loads : String → Option (Value F)) (spec : BacnetObjectSpec F) (payload : Option String)
      (now : F) (m : Manager F) (objects : Dict Oid (LiveObject F)) (q : Oid)
      → lookup q (handler fl assign loads spec payload now m objects).1 ≡ (
          if q == oid_key spec
          then receive assign (lookup q objects) (telemetry_to_present_value fl loads spec payload)
          else lookup q objects)
  unfolding handler
  handler-receive loads spec payload now m objects q = handle_value-receive spec _ now m objects q

module _ {F : Type 0} (fl : FloatOps F) where
  is_truthy-bool : (b : Bool) → is_truthy fl (Value.bool b) ≡ b
  unfolding is_truthy str_value lower
  is_truthy-bool true = refl
  is_truthy-bool false = refl

  -- A command of a boolean object, read back as telemetry, is the state that was commanded.
  pub command_value-present_value_of_raw :
      (spec : BacnetObjectSpec F) (value : Value F)
      → is_boolean fl spec ≡ true
      → (command_value fl spec value >>= present_value_of_raw fl spec)
        ≡ ok (Value.text (if is_truthy fl value then "active" else "inactive"))
  unfolding command_value present_value_of_raw
  command_value-present_value_of_raw spec value boolean =
      rw (boolean, is_truthy-bool (is_truthy fl value), boolean)
