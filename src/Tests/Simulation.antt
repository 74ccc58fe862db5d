-- ===== src/Tests/Simulation.antt =====
-- The properties of the simulation, the log buffer and the reload at concrete inputs.
use bacnet_sim_gateway.Common.{
  ℕ, ◌+◌, ◌%◌, nat_eq, String, string_eq, ℤ, int_eq, pair_eq, list_eq, true, false, Option, none,
  Result, ok, some, List, [], ◌∷◌, map, get_elem?, All, ◌≡◌, refl, arith,
}
use bacnet_sim_gateway.Common.Dict.{lookup}
use bacnet_sim_gateway.Models.{Value, analog_value}
use bacnet_sim_gateway.Runtime.App.{Oid}
use bacnet_sim_gateway.Observability.LogBuffer.{
  LogRecord, RingBuffer, init_buffer, emit_all, entry_of, last, snapshot,
}
use bacnet_sim_gateway.Observability.LogBuffer.Kept.{emit_all-last, Passes, snapshot-Passes}
use bacnet_sim_gateway.Simulation.Fault.{FaultType, LiveObject, States, is_suppressed, apply_all}
use bacnet_sim_gateway.Simulation.Fault.Suppression.{is_suppressed-since_clear}
use bacnet_sim_gateway.Simulation.Generators.{Randomness, random_walk, replay, run}
use bacnet_sim_gateway.Simulation.Generators.Walk.{FloatOrder, IsWithin, run-IsWithin}
use bacnet_sim_gateway.Simulation.Generators.Sequence.{replay-get_elem?}
use bacnet_sim_gateway.Simulation.Engine.{Objects, Driven, tick}
use bacnet_sim_gateway.Simulation.Engine.Frozen.{tick-is_suppressed}
use bacnet_sim_gateway.Tests.Samples.{ops, spec}

-- records with the numbers as times
abbrev log_record : ℕ → String → LogRecord ℕ
log_record t level = record {
  created = t;
  levelname = level;
  name = "bbc_sim";
  get_message = some "started";
  raw_message = "started";
}

abbrev log_records : List (LogRecord ℕ)
log_records = log_record 1 "INFO" ∷ log_record 2 "ERROR" ∷ log_record 3 "INFO" ∷ []

emit_all-last_example :
    (emit_all log_records (init_buffer 2)).records ≡ last 2 (map entry_of log_records)
emit_all-last_example = emit_all-last 2 log_records

abbrev buffer : RingBuffer ℕ
buffer = record {
  capacity = 2;
  records = entry_of (log_record 2 "ERROR") ∷ entry_of (log_record 3 "INFO") ∷ [];
}

snapshot-Passes_example :
    All
      (Passes ops.le (some "info") (some 1))
      (snapshot ops.le (some "info") (some 1) (some (ℤ.pos 5)) buffer)
snapshot-Passes_example = snapshot-Passes ops.le (some "info") (some 1) (some (ℤ.pos 5)) buffer

abbrev setpoint : Oid
setpoint = ("analog-value", ℤ.pos 1)

abbrev pub live : Oid → LiveObject ℕ
live oid = record {
  object_identifier = oid;
  present_value = Value.real 20;
  status_flags = record { in_alarm = 0; fault = 0; overridden = 0; out_of_service = 0 };
  out_of_service = false;
  event_state = "normal";
  reliability = "no-fault-detected";
  max_pres_value = none;
  optional_properties = "reliability" ∷ [];
}

abbrev faults : List (FaultType × (Option (Value ℕ) × LiveObject ℕ))
faults =
    (FaultType.freeze, (none, live setpoint))
    ∷ (FaultType.clear, (none, live setpoint))
    ∷ (FaultType.comm_loss, (none, live setpoint))
    ∷ []

is_suppressed-since_clear_example : is_suppressed setpoint (apply_all ops faults []) ≡ true
unfolding is_suppressed lookup
is_suppressed-since_clear_example = is_suppressed-since_clear ops setpoint faults []

pub order : FloatOrder ops
order = record {
  le_of_not_lt = λ a b h. ground arith;
  le_of_lt = λ a b h. ground arith;
  le_self = λ a. ground arith;
}

-- draws that count, and a wave that is flat
abbrev pub draws : Randomness ℕ ℕ
draws = record { seeded = λ s. 0; uniform = λ a b r. (r, r + 1); wave = λ t p. 0 }

run-IsWithin_example :
    All (IsWithin ops order 0 100) (run ops draws (1 ∷ 2 ∷ []) (random_walk 0 100 5 7 99)).0
run-IsWithin_example = run-IsWithin ops order draws 0 100 5 refl (1 ∷ 2 ∷ []) 7 99

abbrev sequence : List (Value ℕ)
sequence = Value.real 4 ∷ Value.real 5 ∷ []

replay-get_elem?_example :
    (v : Value ℕ) × (get_elem? sequence (2 % 2) ≡ some v)
    × (get_elem? (run ops draws (0 ∷ 1 ∷ 2 ∷ []) (replay sequence 0)).0 2 ≡ some v)
replay-get_elem?_example = replay-get_elem? ops draws sequence (0 ∷ 1 ∷ 2 ∷ []) 2 refl (omega arith)

abbrev frozen_states : States
frozen_states = (setpoint, record { frozen = true; comm_loss = false }) ∷ []

abbrev live_objects : Objects ℕ
live_objects = (setpoint, live setpoint) ∷ []

abbrev driven : List (Driven ℕ ℕ)
driven = (spec "set" analog_value (ℤ.pos 1) [] true, replay sequence 0) ∷ []

-- an assignment that is taken as it is
abbrev keep : LiveObject ℕ → Value ℕ → Result String (Value ℕ)
keep o v = ok v

tick-is_suppressed_example :
    lookup setpoint (tick ops keep draws 1 frozen_states driven live_objects).objects
    ≡ lookup setpoint live_objects
unfolding is_suppressed lookup
tick-is_suppressed_example =
    tick-is_suppressed ops keep draws setpoint 1 frozen_states refl driven live_objects
