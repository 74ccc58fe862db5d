-- ===== src/Bows/Acquire/Defs.antt =====
-- `acquire`. The calls of services/client.py act on the state `S` of the network and may raise; the
-- object list is the type token and the number of each object, neither with a comma in it.
use bacnet_sim_gateway.Common.{
  String, string_eq, ◌<>◌, ℤ, Option, none, some, List, [], ◌∷◌, Result, ok, raise,
}
use bacnet_sim_gateway.Common.Dict.{Dict, lookup}
use bacnet_sim_gateway.Models.{
  BacnetObjectType, analog_input, analog_output, analog_value, binary_input, binary_output,
  binary_value, multi_state_input, multi_state_output, multi_state_value, Value,
}
use bacnet_sim_gateway.Bows.Uplink.{Reading}

-- `_DASH_TO_TYPE`
unfoldable pub dash_to_type : Dict String BacnetObjectType
dash_to_type =
    ("analog-input", analog_input)
    ∷ ("analog-output", analog_output)
    ∷ ("analog-value", analog_value)
    ∷ ("binary-input", binary_input)
    ∷ ("binary-output", binary_output)
    ∷ ("binary-value", binary_value)
    ∷ ("multi-state-input", multi_state_input)
    ∷ ("multi-state-output", multi_state_output)
    ∷ ("multi-state-value", multi_state_value)
    ∷ []

-- the outcome of a call, and the state after it
abbrev pub Answer : Type 0 → Type 0 → Type 0
Answer S A = Result String A × S

pub record Client (F S : Type 0) : Type 0 where
  pub whois : S → Answer S (List ℤ)
  pub read_object_list : ℤ → S → Answer S (List (String × ℤ))
  pub read_present_values : List String → S → Answer S (Dict String (Value F))
  pub read_present_value : String → S → Answer S (Value F)

pub record Point : Type 0 where
  pub ident : String
  pub object_type : BacnetObjectType
  pub instance_no : ℤ

module _ (show : ℤ → String) where
  -- the recognised objects, in the order of the list
  unfoldable pub points_of : List (String × ℤ) → List Point
  points_of [] = []
  points_of ((type_str, inst) ∷ objects) =
      let rest = points_of objects in
      elim (lookup type_str dash_to_type) [
        | none ↦ rest
        | some t ↦
            record { ident = type_str <> "," <> show inst; object_type = t; instance_no = inst }
            ∷ rest
      ]

unfoldable pub idents : List Point → List String
idents [] = []
idents (p ∷ points) = p.ident ∷ idents points

module _ {F T : Type 0} where
  unfoldable pub reading_of : Point → Value F → Reading F T
  reading_of p v = record {
    object_type = p.object_type;
    instance_no = p.instance_no;
    present_value = v;
    timestamp = none;
  }

  -- a value that could not be read is no reading
  unfoldable pub add_reading :
      Point → Result String (Value F) → List (Reading F T) → List (Reading F T)
  add_reading p (ok v) readings = reading_of p v ∷ readings
  add_reading p (raise e) readings = readings

module _ {F : Type 0} where
  -- a failed batch is an empty one
  unfoldable pub batch_or_empty : Result String (Dict String (Value F)) → Dict String (Value F)
  batch_or_empty (ok batched) = batched
  batch_or_empty (raise e) = []

module _ {F S : Type 0} (client : Client F S) where
  -- the value from the batch, or from a read of its own
  unfoldable pub value_of : Option (Value F) → String → S → Answer S (Value F)
  value_of none ident s = client.read_present_value ident s
  value_of (some v) ident s = (ok v, s)

module _ {F T S : Type 0} (client : Client F S) where
  unfoldable pub read_points : Dict String (Value F) → List Point → S → List (Reading F T) × S
  read_points batched [] s = ([], s)
  read_points batched (p ∷ points) s =
      let value = value_of client (lookup p.ident batched) p.ident s in
      let rest = read_points batched points value.1 in (add_reading p value.0 rest.0, rest.1)

  unfoldable pub read_all : ℤ → List Point → S → Answer S (ℤ × List (Reading F T))
  read_all device points s =
      let batch = client.read_present_values (idents points) s in
      let read = read_points (batch_or_empty batch.0) points batch.1 in
      (ok (device, read.0), read.1)

  module _ (show : ℤ → String) where
    unfoldable pub acquire_listed :
        ℤ → Answer S (List (String × ℤ)) → Answer S (ℤ × List (Reading F T))
    acquire_listed device (raise e, s) = (raise e, s)
    acquire_listed device (ok objects, s) = read_all device (points_of show objects) s

    unfoldable pub acquire_found : Answer S (List ℤ) → Answer S (ℤ × List (Reading F T))
    acquire_found (raise e, s) = (raise e, s)
    acquire_found (ok [], s) = (ok (ℤ.pos 0, []), s)
    acquire_found (ok (device ∷ found), s) =
        acquire_listed device (client.read_object_list device s)

    unfoldable pub acquire : S → Answer S (ℤ × List (Reading F T))
    acquire s = acquire_found (client.whois s)
