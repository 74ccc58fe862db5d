-- ===== src/Bows/Acquire/Points.antt =====
-- Which objects are read, and how.
use bacnet_sim_gateway.Common.{
  String, string_eq, Option, none, some, List, [], ◌∷◌, Result, ok, raise, ◌≡◌, refl,
}
use bacnet_sim_gateway.Common.Dict.{Dict, lookup}
use bacnet_sim_gateway.Models.{BacnetObjectType, Value}
use bacnet_sim_gateway.Runtime.App.{dash_text}
use bacnet_sim_gateway.Bows.Uplink.{Reading}
use bacnet_sim_gateway.Bows.Acquire.Defs.{
  dash_to_type, Client, Point, reading_of, add_reading, value_of, read_points,
}

-- The type token that the device gives for an object type is read as that type.
pub lookup-dash_text : (t : BacnetObjectType) → lookup (dash_text t) dash_to_type ≡ some t
unfolding dash_text dash_to_type lookup
lookup-dash_text BacnetObjectType.analog_input = refl
lookup-dash_text _ = refl

-- The readings of points, in their order: each point has the value of the batch, or one that it was
-- read by itself, or its own read failed.
pub data ReadingsOf {F T S : Type 0} (client : Client F S) (batched : Dict String (Value F))
    : List Point → List (Reading F T) → Type 0 where
  none_left : ReadingsOf client batched [] []
  from_batch :
      (p : Point) (v : Value F) {points : List Point} {readings : List (Reading F T)}
      → lookup p.ident batched ≡ some v
      → ReadingsOf client batched points readings
      → ReadingsOf client batched (p ∷ points) (reading_of p v ∷ readings)
  read_alone :
      (p : Point) (s : S) (v : Value F) {points : List Point} {readings : List (Reading F T)}
      → lookup p.ident batched ≡ none
      → (client.read_present_value p.ident s).0 ≡ ok v
      → ReadingsOf client batched points readings
      → ReadingsOf client batched (p ∷ points) (reading_of p v ∷ readings)
  unreadable :
      (p : Point) (s : S) (e : String) {points : List Point} {readings : List (Reading F T)}
      → lookup p.ident batched ≡ none
      → (client.read_present_value p.ident s).0 ≡ raise e
      → ReadingsOf client batched points readings
      → ReadingsOf client batched (p ∷ points) readings

module _ {F T S : Type 0} (client : Client F S) (batched : Dict String (Value F)) where
  add_alone-ReadingsOf :
      (p : Point) (s : S) (outcome : Result String (Value F)) (points : List Point)
      (readings : List (Reading F T))
      → lookup p.ident batched ≡ none
      → (client.read_present_value p.ident s).0 ≡ outcome
      → ReadingsOf client batched points readings
      → ReadingsOf client batched (p ∷ points) (add_reading p outcome readings)
  unfolding add_reading
  add_alone-ReadingsOf p s (ok v) points readings missing read rest =
      ReadingsOf.read_alone p s v missing read rest
  add_alone-ReadingsOf p s (raise e) points readings missing read rest =
      ReadingsOf.unreadable p s e missing read rest

  add_value-ReadingsOf :
      (p : Point) (s : S) (o : Option (Value F)) (points : List Point)
      (readings : List (Reading F T))
      → lookup p.ident batched ≡ o
      → ReadingsOf client batched points readings
      → ReadingsOf client batched
          (p ∷ points)
          (add_reading p (value_of client o p.ident s).0 readings)
  unfolding add_reading value_of
  add_value-ReadingsOf p s none points readings missing rest =
      add_alone-ReadingsOf p s _ points readings missing refl rest
  add_value-ReadingsOf p s (some v) points readings found rest =
      ReadingsOf.from_batch p v found rest

  -- Every point is accounted for, in order: no readable point is dropped, and one that cannot be read
  -- does not stop the others.
  pub read_points-ReadingsOf :
      (points : List Point) (s : S)
      → ReadingsOf client batched points (read_points {F = F} {T = T} client batched points s).0
  unfolding read_points
  read_points-ReadingsOf [] s = ReadingsOf.none_left
  read_points-ReadingsOf (p ∷ points) s =
      add_value-ReadingsOf p s (lookup p.ident batched) points _ refl
        (read_points-ReadingsOf points _)
