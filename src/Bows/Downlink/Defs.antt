-- ===== src/Bows/Downlink/Defs.antt =====
-- models.py, executor.py and pump.py of src/bbc_sim/bows/downlink. The BACnet client is a parameter:
-- `write` is `write_property` on the state `S` of the network, and may fail or be cancelled.
use bacnet_sim_gateway.Common.{
  String, ℤ, ◌<>◌, Bool, true, false, Option, none, some, List, [], ◌∷◌, Result, ok, raise, ◌>>=◌,
  or_raise, leb, ◌&&◌, if◌then◌else◌,
}
use bacnet_sim_gateway.Models.{
  BacnetObjectType, analog_input, binary_input, multi_state_input, is_binary, is_multistate,
  object_type_text, Value, FloatOps,
}
use bacnet_sim_gateway.Bows.Registry.{PointRegistry, resolve_point_id}

pub record ControlCommand (F : Type 0) : Type 0 where
  pub control_id : String
  pub point_id : String
  pub present_value : F
  pub priority : Option ℤ

-- the texts of a response, each with the values that it shows
pub data Response : Type 0 where
  unknown_point : String → Response
  read_only : BacnetObjectType → Response
  write_error : String → Response
  done : Response

pub record ControlResult : Type 0 where
  pub control_id : String
  pub success : Bool
  pub response : Response

-- how a WriteProperty ends, and what leaves `execute` as an exception
pub data WriteOutcome : Type 0 where
  written : WriteOutcome
  failed : String → WriteOutcome
  cancelled : WriteOutcome

pub data Escape : Type 0 where
  cancelled_error : Escape
  conversion_error : Escape

-- the arguments of `write_property`
pub record WriteCall (F : Type 0) : Type 0 where
  pub objid : String
  pub value : Value F
  pub priority : Option ℤ

unfoldable pub is_read_only : BacnetObjectType → Bool
is_read_only analog_input = true
is_read_only binary_input = true
is_read_only multi_state_input = true
is_read_only _ = false

-- `1 <= priority <= 16`
unfoldable pub in_priority_range : ℤ → Bool
in_priority_range (ℤ.pos n) = leb 1 n && leb n 16
in_priority_range (ℤ.negsuc n) = false

unfoldable pub valid_priority : Option ℤ → Option ℤ
valid_priority none = none
valid_priority (some p) = if in_priority_range p then some p else none

unfoldable pub write_reply : String → WriteOutcome → Result Escape ControlResult
write_reply control written = ok (record { control_id = control; success = true; response = done })
write_reply control (failed text) =
    ok (record { control_id = control; success = false; response = write_error text })
write_reply control cancelled = raise cancelled_error

-- what `pump` has yielded when the stream of commands ends or an exception leaves it
pub record Pumped (S : Type 0) : Type 0 where
  pub results : List ControlResult
  pub escape : Option Escape
  pub state : S

unfoldable pub pump_after :
    {S : Type 0} → Result Escape ControlResult → S → (S → Pumped S) → Pumped S
pump_after (raise e) s rest = record { results = []; escape = some e; state = s }
pump_after (ok r) s rest = let next = rest s in record next { results = r ∷ next.results }

module _ {F : Type 0} (fl : FloatOps F) where
  -- `int(round(value))` raises on a NaN and on an infinity
  unfoldable pub coerce_present_value : BacnetObjectType → F → Result Escape (Value F)
  coerce_present_value ot value =
      if is_binary ot
      then ok (Value.int (if fl.le fl.half value then ℤ.pos 1 else ℤ.pos 0))
      else if is_multistate ot
      then (do i ← or_raise (fl.round value) conversion_error; ok (Value.int i))
      else ok (Value.real value)

  -- `f"{object_type.value},{instance_no}"`
  unfoldable pub object_text : BacnetObjectType → ℤ → String
  object_text ot n = object_type_text ot <> "," <> fl.show_int n

  module _ {S : Type 0} (write : WriteCall F → S → WriteOutcome × S) where
    unfoldable pub write_value :
        ControlCommand F
        → BacnetObjectType
        → ℤ
        → Result Escape (Value F)
        → S
        → Result Escape ControlResult × S
    write_value cmd ot n (raise e) s = (raise e, s)
    write_value cmd ot n (ok value) s =
        let call : WriteCall F = record {
          objid = object_text ot n;
          value = value;
          priority = valid_priority cmd.priority;
        } in
        (write_reply cmd.control_id (write call s).0, (write call s).1)

    unfoldable pub execute_resolved :
        ControlCommand F → Option (BacnetObjectType × ℤ) → S → Result Escape ControlResult × S
    execute_resolved cmd none s = (
      ok (record {
        control_id = cmd.control_id;
        success = false;
        response = unknown_point cmd.point_id;
      }),
      s,
    )
    execute_resolved cmd (some (ot, n)) s =
        if is_read_only ot
        then (
          ok (record { control_id = cmd.control_id; success = false; response = read_only ot }),
          s,
        )
        else write_value cmd ot n (coerce_present_value ot cmd.present_value) s

    unfoldable pub execute : PointRegistry → ControlCommand F → S → Result Escape ControlResult × S
    execute registry cmd s = execute_resolved cmd (resolve_point_id registry cmd.point_id) s

    unfoldable pub pump : PointRegistry → List (ControlCommand F) → S → Pumped S
    pump registry [] s = record { results = []; escape = none; state = s }
    pump registry (cmd ∷ commands) s =
        pump_after (execute registry cmd s).0 (execute registry cmd s).1 (pump registry commands)
