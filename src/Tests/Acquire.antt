-- ===== src/Tests/Acquire.antt =====
-- The properties of the acquisition at a concrete device.
use bacnet_sim_gateway.Common.{
  ℕ, ◌+◌, String, string_eq, ℤ, List, [], ◌∷◌, ok, raise, ◌==◌, if◌then◌else◌,
}
use bacnet_sim_gateway.Common.Dict.{Dict}
use bacnet_sim_gateway.Models.{Value, analog_input, analog_value}
use bacnet_sim_gateway.Bows.Acquire.{Client, Point, read_points}
use bacnet_sim_gateway.Bows.Acquire.Points.{ReadingsOf, read_points-ReadingsOf}

-- a device that counts its reads, and refuses one of them
abbrev client : Client ℕ ℕ
client = record {
  whois = λ s. (ok (ℤ.pos 1 ∷ []), s);
  read_object_list = λ d s. (ok [], s);
  read_present_values = λ is s. (raise "no RPM", s);
  read_present_value =
      λ i s. (if i == "analog-value,1" then ok (Value.real 20) else raise "unknown object", s + 1);
}

abbrev points : List Point
points =
    record { ident = "analog-value,1"; object_type = analog_value; instance_no = ℤ.pos 1 }
    ∷ record { ident = "analog-input,1"; object_type = analog_input; instance_no = ℤ.pos 1 }
    ∷ []

abbrev no_batch : Dict String (Value ℕ)
no_batch = []

read_points-ReadingsOf_example :
    ReadingsOf {T = String} client no_batch points (read_points client no_batch points 0).0
read_points-ReadingsOf_example = read_points-ReadingsOf client no_batch points 0
