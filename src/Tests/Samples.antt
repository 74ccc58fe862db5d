-- ===== src/Tests/Samples.antt =====
-- The data of the runs: a point list, a config, commands, readings, and natural numbers in place of
-- floats, of which 99 stands for one that does not round.
use Prim.Native.Nat.{◌/◌}
use bacnet_sim_gateway.Common.{
  ℕ, ◌+◌, ◌-◌, ◌*◌, nat_eq, string_eq, String, ℤ, Bool, true, false, Option, none, some, List, [],
  ◌∷◌, ltb, leb, ◌==◌, if◌then◌else◌,
}
use bacnet_sim_gateway.Models.{
  BacnetObjectType, analog_input, analog_value, multi_state_value, SbcoPoint, FloatOps, Value,
  Fields, RuntimeMode, default_bbc, default_network, BacnetObjectSpec, SimulatorConfig,
}
use bacnet_sim_gateway.Bows.Downlink.{ControlCommand, WriteCall, WriteOutcome, written}
use bacnet_sim_gateway.Bows.Uplink.{Reading}

abbrev pub nat_of : ℤ → ℕ
nat_of (ℤ.pos n) = n
nat_of (ℤ.negsuc n) = 0

abbrev pub ops : FloatOps ℕ
ops = record {
  of_int = nat_of;
  float_of_int = λ i. some (nat_of i);
  lt = ltb;
  le = leb;
  add = λ a b. a + b;
  sub = λ a b. a - b;
  mul = λ a b. a * b;
  div = λ a b. a / b;
  is_zero = λ a. a == 0;
  trunc = λ a. if a == 99 then none else some (ℤ.pos a);
  round = λ a. if a == 99 then none else some (ℤ.pos a);
  round4 = λ a. a;
  half = 1;
  thousand = 1000;
  abnormal = 9999;
  parse_float = λ s. if s == "2" then some 2 else none;
  parse_int = λ s. if s == "2" then some (ℤ.pos 2) else none;
  show = λ a. "x";
  show_int = λ a. "i";
  show_items = λ a. "[]";
  show_fields = λ a. "{}";
}

abbrev pub point : String → String → Option ℤ → List String → SbcoPoint ℕ
point id object_type instance_no labels = record {
  gateway_id = "gw";
  device_id = "dev";
  device_name = "AHU";
  device_type = "AHU";
  site = "";
  building = "";
  floor = "";
  installation_area = "";
  target_area = "";
  panel = "";
  point_type = "Temperature";
  point_specification = "measurement";
  point_id = id;
  point_name = id;
  writable = true;
  interval = none;
  unit = "";
  max_pres_value = none;
  min_pres_value = none;
  labels = labels;
  scale = 1;
  tags = [];
  supplier = "";
  owner = "";
  description = "";
  local_id = "";
  device_id_bacnet = "1";
  instance_no_bacnet = instance_no;
  object_type_bacnet = object_type;
}

-- an analog value that asks for number 1, one that asks for none, and a multi-state value
abbrev pub points : List (SbcoPoint ℕ)
points =
    point "p1" "analogValue" (some (ℤ.pos 1)) []
    ∷ point "p2" "analogValue" none []
    ∷ point "p3" "multiStateValue" none ("off" ∷ "on" ∷ [])
    ∷ []

abbrev pub spec : String → BacnetObjectType → ℤ → List String → Bool → BacnetObjectSpec ℕ
spec id object_type instance_no states writable = record {
  point_id = id;
  object_type = object_type;
  object_instance = instance_no;
  object_name = id;
  present_value = Value.int (ℤ.pos 1);
  units = none;
  min_pres_value = none;
  max_pres_value = none;
  state_text = states;
  active_text = none;
  inactive_text = none;
  scale = 1;
  writable = writable;
  description = "";
  update = record { interval = none; mode = none; params = Fields.end };
  metadata = Fields.end;
  binding = none;
  tags = [];
}

abbrev pub config : SimulatorConfig ℕ
config = record {
  bbc = default_bbc "BBC-1" (ℤ.pos 1) "Virtual";
  network = default_network;
  objects =
      spec "in" analog_input (ℤ.pos 1) [] false
      ∷ spec "set" analog_value (ℤ.pos 1) [] true
      ∷ spec "mode" multi_state_value (ℤ.pos 1) ("off" ∷ "on" ∷ []) true
      ∷ [];
  mode = RuntimeMode.simulator;
}

abbrev pub set_command : String → ℕ → ControlCommand ℕ
set_command id value = record {
  control_id = "c1";
  point_id = id;
  present_value = value;
  priority = some (ℤ.pos 8);
}

-- a network that takes every write, and counts them
abbrev pub network : WriteCall ℕ → ℕ → WriteOutcome × ℕ
network call s = (written, s + 1)

abbrev pub read_of : BacnetObjectType → ℤ → ℕ → Reading ℕ String
read_of object_type instance_no value = record {
  object_type = object_type;
  instance_no = instance_no;
  present_value = Value.real value;
  timestamp = none;
}
