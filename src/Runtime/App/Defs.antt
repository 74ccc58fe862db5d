-- ===== src/Runtime/App/Defs.antt =====
-- `BBCApplication` of src/bbc_sim/simulator_runtime/app.py and `oid_key` of
-- src/bbc_sim/bacnet_objects/builder.py. The base class of bacpypes3 and the command hook act on the
-- state `S` of the objects and of the transports; an exception leaves what was done before it.
use bacnet_sim_gateway.Common.{
  ℕ, String, string_eq, ℤ, int_eq, pair_eq, Option, List, [], ◌∷◌, Result, if◌then◌else◌,
}
use bacnet_sim_gateway.Models.{
  BacnetObjectType, analog_input, analog_output, analog_value, binary_input, binary_output,
  binary_value, multi_state_input, multi_state_output, multi_state_value, BacnetObjectSpec,
  SimulatorConfig, Value,
}

-- `str(ObjectIdentifier)`'s type token, and an object key
unfoldable pub dash_text : BacnetObjectType → String
dash_text analog_input = "analog-input"
dash_text analog_output = "analog-output"
dash_text analog_value = "analog-value"
dash_text binary_input = "binary-input"
dash_text binary_output = "binary-output"
dash_text binary_value = "binary-value"
dash_text multi_state_input = "multi-state-input"
dash_text multi_state_output = "multi-state-output"
dash_text multi_state_value = "multi-state-value"

abbrev pub Oid : Type 0
Oid = String × ℤ

module _ {F : Type 0} where
  unfoldable pub oid_key : BacnetObjectSpec F → Oid
  oid_key spec = (dash_text spec.object_type, spec.object_instance)

  unfoldable pub writable_oids_of : List (BacnetObjectSpec F) → List Oid
  writable_oids_of [] = []
  writable_oids_of (o ∷ objects) =
      if o.writable then oid_key o ∷ writable_oids_of objects else writable_oids_of objects

  unfoldable pub compute_writable_oids : SimulatorConfig F → List Oid
  compute_writable_oids config = writable_oids_of config.objects

pub record Counters : Type 0 where
  pub who_is : ℕ
  pub i_am_sent : ℕ
  pub read_property : ℕ
  pub read_property_multiple : ℕ
  pub write_property : ℕ
  pub write_property_multiple : ℕ
  pub write_access_denied : ℕ

abbrev pub zero_counters : Counters
zero_counters = record {
  who_is = 0;
  i_am_sent = 0;
  read_property = 0;
  read_property_multiple = 0;
  write_property = 0;
  write_property_multiple = 0;
  write_access_denied = 0;
}

-- `ExecutionError`, `WritePropertyMultipleError` with the first failed attempt, and what the base
-- class or the hook raises
pub data Error : Type 0 where
  write_access_denied_error : Error
  multiple_denied : Oid → String → Error
  other_error : String → Error

-- the parts of a request that the handlers read; `P` is the rest
pub record WriteRequest (P : Type 0) : Type 0 where
  pub object_identifier : Oid
  pub property_identifier : String
  pub payload : P

pub record WriteSpec (P : Type 0) : Type 0 where
  pub object_identifier : Oid
  pub properties : List String
  pub payload : P

pub data Request (P : Type 0) : Type 0 where
  who_is_request : P → Request P
  read_request : P → Request P
  read_multiple_request : P → Request P
  write_request : WriteRequest P → Request P
  write_multiple_request : List (WriteSpec P) → Request P

-- the outcome of a call that acts on a state
abbrev pub Outcome : Type 0 → Type 0
Outcome S = Result Error (Unit {0}) × S

-- the handlers of the base class `Application`, and its object model
pub record Stack (F S P : Type 0) : Type 0 where
  pub super_who_is : P → S → Outcome S
  pub super_read : P → S → Outcome S
  pub super_read_multiple : P → S → Outcome S
  pub super_write : WriteRequest P → S → Outcome S
  pub super_write_multiple : List (WriteSpec P) → S → Outcome S
  -- the presentValue of `get_object_id`, if the object is there
  pub present_value_of : Oid → S → Option (Value F)

pub record App (F S : Type 0) : Type 0 where
  pub writable_oids : List Oid
  pub command_oids : List Oid
  pub on_command : Option (Oid → Value F → S → Outcome S)
  pub counters : Counters
  pub state : S
