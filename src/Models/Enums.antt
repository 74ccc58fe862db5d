-- ===== src/Models/Enums.antt =====
-- The enumerations of src/bbc_sim/models.py, with their string values.
use bacnet_sim_gateway.Common.{
  ℕ, String, ◌≡◌, refl, ap, ◌↔◌, ◌⊎◌, string_eq, Bool, true, false, Option, none, some, arith, Eq,
  nat_beq, nat_beq_iff, ◌==◌, nat_eq, if◌then◌else◌,
}

-- which rows of the point list `generate-yaml` keeps
pub data PointFilter : Type 0 where
  bacnet_rows all_rows : PointFilter

pub data RuntimeMode : Type 0 where
  simulator gateway combined : RuntimeMode

pub data BindingDirection : Type 0 where
  telemetry command both : BindingDirection

pub data DeviceMappingMode : Type 0 where
  aggregated multi_device : DeviceMappingMode

pub data BacnetObjectType : Type 0 where
  analog_input analog_output analog_value : BacnetObjectType
  binary_input binary_output binary_value : BacnetObjectType
  multi_state_input multi_state_output multi_state_value : BacnetObjectType

-- properties of BacnetObjectType
unfoldable pub is_analog : BacnetObjectType → Bool
is_analog analog_input = true
is_analog analog_output = true
is_analog analog_value = true
is_analog _ = false

unfoldable pub is_binary : BacnetObjectType → Bool
is_binary binary_input = true
is_binary binary_output = true
is_binary binary_value = true
is_binary _ = false

unfoldable pub is_multistate : BacnetObjectType → Bool
is_multistate multi_state_input = true
is_multistate multi_state_output = true
is_multistate multi_state_value = true
is_multistate _ = false

-- `.value` of each enumeration, and the constructor call `T(text)`; `none` is its ValueError
unfoldable pub object_type_text : BacnetObjectType → String
object_type_text analog_input = "analogInput"
object_type_text analog_output = "analogOutput"
object_type_text analog_value = "analogValue"
object_type_text binary_input = "binaryInput"
object_type_text binary_output = "binaryOutput"
object_type_text binary_value = "binaryValue"
object_type_text multi_state_input = "multiStateInput"
object_type_text multi_state_output = "multiStateOutput"
object_type_text multi_state_value = "multiStateValue"

unfoldable pub object_type_of_text : String → Option BacnetObjectType
object_type_of_text s =
    if s == "analogInput"
    then some analog_input
    else if s == "analogOutput"
    then some analog_output
    else if s == "analogValue"
    then some analog_value
    else if s == "binaryInput"
    then some binary_input
    else if s == "binaryOutput"
    then some binary_output
    else if s == "binaryValue"
    then some binary_value
    else if s == "multiStateInput"
    then some multi_state_input
    else if s == "multiStateOutput"
    then some multi_state_output
    else if s == "multiStateValue"
    then some multi_state_value
    else none

unfoldable pub mode_text : RuntimeMode → String
mode_text simulator = "simulator"
mode_text gateway = "gateway"
mode_text combined = "combined"

unfoldable pub mode_of_text : String → Option RuntimeMode
mode_of_text s =
    if s == "simulator"
    then some simulator
    else if s == "gateway"
    then some gateway
    else if s == "combined"
    then some combined
    else none

unfoldable pub direction_text : BindingDirection → String
direction_text telemetry = "telemetry"
direction_text command = "command"
direction_text both = "both"

unfoldable pub direction_of_text : String → Option BindingDirection
direction_of_text s =
    if s == "telemetry"
    then some telemetry
    else if s == "command"
    then some command
    else if s == "both"
    then some both
    else none

unfoldable pub device_mapping_text : DeviceMappingMode → String
device_mapping_text aggregated = "aggregated"
device_mapping_text multi_device = "multi-device"

pub object_type_of_text-object_type_text :
    (t : BacnetObjectType) → object_type_of_text (object_type_text t) ≡ some t
unfolding object_type_of_text object_type_text
object_type_of_text-object_type_text analog_input = refl
object_type_of_text-object_type_text _ = refl

pub mode_of_text-mode_text : (m : RuntimeMode) → mode_of_text (mode_text m) ≡ some m
unfolding mode_of_text mode_text
mode_of_text-mode_text simulator = refl
mode_of_text-mode_text _ = refl

pub direction_of_text-direction_text :
    (d : BindingDirection) → direction_of_text (direction_text d) ≡ some d
unfolding direction_of_text direction_text
direction_of_text-direction_text telemetry = refl
direction_of_text-direction_text _ = refl

-- Every object type is of exactly one family.
pub object_type_family :
    (t : BacnetObjectType)
    → ((is_analog t ≡ true) × (is_binary t ≡ false) × (is_multistate t ≡ false))
      ⊎ ((is_analog t ≡ false) × (is_binary t ≡ true) × (is_multistate t ≡ false))
      ⊎ ((is_analog t ≡ false) × (is_binary t ≡ false) × (is_multistate t ≡ true))
unfolding is_analog is_binary is_multistate
object_type_family analog_input = ground arith
object_type_family _ = ground arith

-- `==` of the enumeration, by the position of the member
abbrev rank : BacnetObjectType → ℕ
rank analog_input = 0
rank analog_output = 1
rank analog_value = 2
rank binary_input = 3
rank binary_output = 4
rank binary_value = 5
rank multi_state_input = 6
rank multi_state_output = 7
rank multi_state_value = 8

unfoldable pub object_type_beq : BacnetObjectType → BacnetObjectType → Bool
object_type_beq s t = nat_beq (rank s) (rank t)

abbrev of_rank : ℕ → Option BacnetObjectType
of_rank n =
    if n == 0
    then some analog_input
    else if n == 1
    then some analog_output
    else if n == 2
    then some analog_value
    else if n == 3
    then some binary_input
    else if n == 4
    then some binary_output
    else if n == 5
    then some binary_value
    else if n == 6
    then some multi_state_input
    else if n == 7
    then some multi_state_output
    else some multi_state_value

of_rank-rank : (t : BacnetObjectType) → of_rank (rank t) ≡ some t
of_rank-rank analog_input = refl
of_rank-rank _ = refl

rank_inj : (s t : BacnetObjectType) → rank s ≡ rank t → s ≡ t
rank_inj s t h = cc (ap of_rank h, of_rank-rank s, of_rank-rank t)

pub object_type_beq_iff : (s t : BacnetObjectType) → (object_type_beq s t ≡ true) ↔ (s ≡ t)
unfolding object_type_beq
object_type_beq_iff s t = (
  λ h. rank_inj s t ((nat_beq_iff (rank s) (rank t)).0 h),
  λ h. (nat_beq_iff (rank s) (rank t)).1 (ap rank h),
)

instance abbrev pub object_type_eq : Eq BacnetObjectType
object_type_eq = record { test = object_type_beq; decides = object_type_beq_iff }
