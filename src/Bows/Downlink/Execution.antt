-- ===== src/Bows/Downlink/Execution.antt =====
-- What a control command does to the B-BC, and how results answer commands.
use bacnet_sim_gateway.Common.{
  String, ℤ, true, false, Option, none, some, Result, ok, raise, ◌≡◌, ◌≢◌, ◌↔◌, ◌⊎◌, inl, inr, refl,
  arith, Bool-cases,
}
use bacnet_sim_gateway.Models.{BacnetObjectType, is_multistate, object_type_family, Value, FloatOps}
use bacnet_sim_gateway.Bows.Registry.{PointRegistry, resolve_point_id}
use bacnet_sim_gateway.Bows.Downlink.Defs.{
  ControlCommand, ControlResult, Response, WriteOutcome, written, failed, cancelled, Escape,
  conversion_error, WriteCall, is_read_only, valid_priority, coerce_present_value, object_text,
  write_reply, write_value, execute_resolved, execute,
}

-- a reply reports success exactly when the value was written
reply_success :
    (control : String) (o : WriteOutcome) (r : ControlResult)
    → write_reply control o ≡ ok r
    → r.success ≡ true
    → o ≡ written
unfolding write_reply
reply_success control written r h success = refl
reply_success control (failed text) r h success = ground arith
reply_success control cancelled r h success = ground arith

module _ {F : Type 0} (fl : FloatOps F) (ot : BacnetObjectType) (value : F) where
  coerce_raises :
      coerce_present_value fl ot value ≡ raise conversion_error
      → (is_multistate ot ≡ true) × (fl.round value ≡ none)
  unfolding coerce_present_value
  coerce_raises h = ground arith

  coerce_unrounded :
      is_multistate ot ≡ true
      → fl.round value ≡ none
      → coerce_present_value fl ot value ≡ raise conversion_error
  unfolding coerce_present_value
  coerce_unrounded multi no_round = ground (arith, object_type_family ot)

module _ {F S : Type 0} (fl : FloatOps F) (write : WriteCall F → S → WriteOutcome × S) where
  module _ (cmd : ControlCommand F) (s : S) where
    -- the call for a target and a value
    abbrev pub call_of : BacnetObjectType → ℤ → Value F → WriteCall F
    call_of ot n value = record {
      objid = object_text fl ot n;
      value = value;
      priority = valid_priority cmd.priority;
    }

    value_success :
        (ot : BacnetObjectType) (n : ℤ) (v : Result Escape (Value F)) (r : ControlResult)
        → (write_value fl write cmd ot n v s).0 ≡ ok r
        → r.success ≡ true
        → (value : Value F) × (v ≡ ok value) × ((write (call_of ot n value) s).0 ≡ written)
    unfolding write_value
    value_success ot n (raise e) r h success = ground arith
    value_success ot n (ok value) r h success =
        (value, refl, reply_success cmd.control_id _ r h success)

    resolved_success :
        (found : Option (BacnetObjectType × ℤ)) (r : ControlResult)
        → (execute_resolved fl write cmd found s).0 ≡ ok r
        → r.success ≡ true
        → (ot : BacnetObjectType) × (n : ℤ) × (value : Value F) × (found ≡ some (ot, n))
          × (is_read_only ot ≡ false)
          × (coerce_present_value fl ot cmd.present_value ≡ ok value)
          × ((write (call_of ot n value) s).0 ≡ written)
    unfolding execute_resolved
    resolved_success none r h success = ground arith
    resolved_success (some (ot, n)) r h success = elim (Bool-cases (is_read_only ot)) [
      | inl input ↦ ground arith
      | inr free ↦
          let (value, coerced, accepted) =
            value_success ot n (coerce_present_value fl ot cmd.present_value) r (rw free at h)
              success in
          (ot, n, value, refl, free, coerced, accepted)
    ]

    success_of_write :
        (ot : BacnetObjectType) (n : ℤ) (value : Value F)
        → is_read_only ot ≡ false
        → coerce_present_value fl ot cmd.present_value ≡ ok value
        → (write (call_of ot n value) s).0 ≡ written
        → (r : ControlResult) × ((execute_resolved fl write cmd (some (ot, n)) s).0 ≡ ok r)
          × (r.success ≡ true)
    unfolding execute_resolved write_value write_reply
    success_of_write ot n value free coerced accepted = (
      record { control_id = cmd.control_id; success = true; response = Response.done },
      rw (free, coerced, accepted),
      refl,
    )

    reply_not_conversion :
        (control : String) (o : WriteOutcome) → write_reply control o ≢ raise conversion_error
    unfolding write_reply
    reply_not_conversion control written h = cc
    reply_not_conversion control (failed text) h = cc
    reply_not_conversion control cancelled h = ground arith

    value_raises :
        (ot : BacnetObjectType) (n : ℤ) (v : Result Escape (Value F))
        → (write_value fl write cmd ot n v s).0 ≡ raise conversion_error
        → v ≡ raise conversion_error
    unfolding write_value
    value_raises ot n (raise e) h = ground arith
    value_raises ot n (ok value) h = absurd (reply_not_conversion cmd.control_id _ h)

    raises_of_resolved :
        (found : Option (BacnetObjectType × ℤ))
        → (execute_resolved fl write cmd found s).0 ≡ raise conversion_error
        → (ot : BacnetObjectType) × (n : ℤ) × (found ≡ some (ot, n))
          × (is_read_only ot ≡ false)
          × (is_multistate ot ≡ true)
          × (fl.round cmd.present_value ≡ none)
    unfolding execute_resolved
    raises_of_resolved none h = ground arith
    raises_of_resolved (some (ot, n)) h = elim (Bool-cases (is_read_only ot)) [
      | inl input ↦ ground arith
      | inr free ↦
          let bad =
            value_raises ot n (coerce_present_value fl ot cmd.present_value) (rw free at h) in
          let (multi, no_round) = coerce_raises fl ot cmd.present_value bad in
          (ot, n, refl, free, multi, no_round)
    ]

    resolved_raises :
        (ot : BacnetObjectType) (n : ℤ)
        → is_read_only ot ≡ false
        → is_multistate ot ≡ true
        → fl.round cmd.present_value ≡ none
        → (execute_resolved fl write cmd (some (ot, n)) s).0 ≡ raise conversion_error
    unfolding execute_resolved write_value
    resolved_raises ot n free multi no_round =
        rw (free, coerce_unrounded fl ot cmd.present_value multi no_round)

    module _ (registry : PointRegistry) where
      -- A command succeeds exactly when its point is known, the object is no Input, the value can be
      -- converted and the device accepts the write.
      pub execute_success :
          ((r : ControlResult) × ((execute fl write registry cmd s).0 ≡ ok r) × (r.success ≡ true))
          ↔ ((ot : BacnetObjectType) × (n : ℤ) × (value : Value F) × (resolve_point_id registry
                  cmd.point_id
                ≡ some (ot, n))
              × (is_read_only ot ≡ false)
              × (coerce_present_value fl ot cmd.present_value ≡ ok value)
              × ((write (call_of ot n value) s).0 ≡ written))
      unfolding execute
      execute_success = (
        λ (r, h, success). resolved_success (resolve_point_id registry cmd.point_id) r h success,
        λ (ot, n, value, known, free, coerced, accepted).
            rw known (success_of_write ot n value free coerced accepted),
      )

      -- A command for an unknown point or for an Input is answered by a failure, with no write.
      pub execute_rejected :
          (resolve_point_id registry cmd.point_id ≡ none)
            ⊎ ((ot : BacnetObjectType) × (n : ℤ) × (resolve_point_id registry cmd.point_id
                  ≡ some (ot, n))
                × (is_read_only ot ≡ true))
          → (r : ControlResult) × (execute fl write registry cmd s ≡ (ok r, s))
            × (r.success ≡ false)
            × (r.control_id ≡ cmd.control_id)
      unfolding execute execute_resolved
      execute_rejected (inl unknown) = (
        record {
          control_id = cmd.control_id;
          success = false;
          response = Response.unknown_point cmd.point_id;
        },
        rw unknown,
        refl,
        refl,
      )
      execute_rejected (inr (ot, n, known, input)) = (
        record { control_id = cmd.control_id; success = false; response = Response.read_only ot },
        rw (known, input),
        refl,
        refl,
      )

      -- The conversion raises, out of `execute`, exactly for a value that cannot be rounded and that
      -- is sent to a multi-state object that is no Input.
      pub execute_conversion_error :
          ((execute fl write registry cmd s).0 ≡ raise conversion_error) ↔ (
            (ot : BacnetObjectType) × (n : ℤ) × (resolve_point_id registry cmd.point_id
              ≡ some (ot, n))
            × (is_read_only ot ≡ false)
            × (is_multistate ot ≡ true)
            × (fl.round cmd.present_value ≡ none))
      unfolding execute
      execute_conversion_error = (
        λ h. raises_of_resolved (resolve_point_id registry cmd.point_id) h,
        λ (ot, n, known, free, multi, no_round).
            rw known (resolved_raises ot n free multi no_round),
      )
