-- ===== src/Bows/Uplink/Defs.antt =====
-- models.py and encoder.py of src/bbc_sim/bows, and encoder.py of src/bbc_sim/bows/uplink. A time
-- stamp is of a type `T` with a function `iso` for `isoformat`. A conversion that fails raises out of
-- the encoder.
use bacnet_sim_gateway.Common.{
  ℕ, nat_eq, String, ℤ, Option, none, some, List, [], ◌∷◌, Result, ok, ◌>>=◌, traverse,
  if◌then◌else◌,
}
use bacnet_sim_gateway.Common.Dict.{Dict, from_items}
use bacnet_sim_gateway.Models.{
  BacnetObjectType, analog_input, analog_output, analog_value, binary_input, binary_output,
  binary_value, multi_state_input, multi_state_output, multi_state_value, is_binary, is_multistate,
  Value, FloatOps, ConversionError, int_value, float_value, is_binary_truthy,
}
use bacnet_sim_gateway.Semantic.{get_or}
use bacnet_sim_gateway.Bows.Registry.{PointRegistry, resolve_bacnet}

pub record Reading (F T : Type 0) : Type 0 where
  pub object_type : BacnetObjectType
  pub instance_no : ℤ
  pub present_value : Value F
  pub timestamp : Option T

-- `_OBJECT_TYPE_INFO`: the base name and the ASHRAE 135 number
unfoldable pub object_type_info : BacnetObjectType → String × ℕ
object_type_info analog_input = ("AnalogInput", 0)
object_type_info analog_output = ("AnalogOutput", 1)
object_type_info analog_value = ("AnalogValue", 2)
object_type_info binary_input = ("BinaryInput", 3)
object_type_info binary_output = ("BinaryOutput", 4)
object_type_info binary_value = ("BinaryValue", 5)
object_type_info multi_state_input = ("MultiStateInput", 13)
object_type_info multi_state_output = ("MultiStateOutput", 14)
object_type_info multi_state_value = ("MultiStateValue", 19)

abbrev pub object_types : List BacnetObjectType
object_types =
    analog_input ∷ analog_output ∷ analog_value ∷ binary_input ∷ binary_output ∷ binary_value
    ∷ multi_state_input ∷ multi_state_output ∷ multi_state_value ∷ []

-- `{enum: obj_type for obj_type, (_base, enum) in _OBJECT_TYPE_INFO.items()}`
unfoldable pub enum_items : List BacnetObjectType → List (ℕ × BacnetObjectType)
enum_items [] = []
enum_items (t ∷ types) = ((object_type_info t).1, t) ∷ enum_items types

unfoldable pub ashrae_enum_to_type : Dict ℕ BacnetObjectType
ashrae_enum_to_type = from_items (enum_items object_types) []

-- the JSON of one object in a `bacnet-device-message`
pub record Entry (F : Type 0) : Type 0 where
  pub timestamp : String
  pub bacnet_device : ℤ
  pub base : String
  pub object_type_no : ℕ
  pub instance_no : ℤ
  pub present_value : Value F

pub record DeviceMessage (F : Type 0) : Type 0 where
  pub device_id : String
  pub value_string : List (Entry F)

pub record TelemetryFrame (F : Type 0) : Type 0 where
  pub gateway_id : String
  pub point_id : String
  pub value : Value F
  pub timestamp : String

module _ {F : Type 0} (fl : FloatOps F) where
  -- `_present_value` and `_encode_value`, which differ in a debug message only
  unfoldable pub encode_value : BacnetObjectType → Value F → Result ConversionError (Value F)
  encode_value ot value =
      if is_binary ot
      then ok (Value.int (if is_binary_truthy fl value then ℤ.pos 1 else ℤ.pos 0))
      else if is_multistate ot
      then (do i ← int_value fl value; ok (Value.int i))
      else (do x ← float_value fl value; ok (Value.real x))

  module _ {T : Type 0} (iso : T → String) where
    unfoldable pub entry : Reading F T → ℤ → T → Result ConversionError (Entry F)
    entry reading device now = do
      v ← encode_value reading.object_type reading.present_value
      ok (record {
        timestamp = iso (get_or reading.timestamp now);
        bacnet_device = device;
        base = (object_type_info reading.object_type).0;
        object_type_no = (object_type_info reading.object_type).1;
        instance_no = reading.instance_no;
        present_value = v;
      })

    unfoldable pub encode_device_message :
        String → ℤ → List (Reading F T) → T → Result ConversionError (List (DeviceMessage F))
    encode_device_message device_id device readings now = do
      entries ← traverse (λ r. entry r device now) readings
      ok (record { device_id = device_id; value_string = entries } ∷ [])

    -- the frame of a reading whose object has a point id
    unfoldable pub frame_of :
        String → Reading F T → String → T → Result ConversionError (TelemetryFrame F)
    frame_of gateway_id reading point_id now = do
      v ← encode_value reading.object_type reading.present_value
      ok (record {
        gateway_id = gateway_id;
        point_id = point_id;
        value = v;
        timestamp = iso (get_or reading.timestamp now);
      })

    unfoldable pub add_frame :
        String
        → Reading F T
        → Option String
        → T
        → Result ConversionError (List (TelemetryFrame F))
        → Result ConversionError (List (TelemetryFrame F))
    add_frame gateway_id reading none now rest = rest
    add_frame gateway_id reading (some point_id) now rest = do
      f ← frame_of gateway_id reading point_id now
      frames ← rest
      ok (f ∷ frames)

    -- readings of an object that is not in the registry are skipped
    unfoldable pub encode_telemetry_frames :
        String
        → List (Reading F T)
        → PointRegistry
        → T
        → Result ConversionError (List (TelemetryFrame F))
    encode_telemetry_frames gateway_id [] registry now = ok []
    encode_telemetry_frames gateway_id (r ∷ readings) registry now =
        add_frame gateway_id r (resolve_bacnet registry r.object_type r.instance_no) now
          (encode_telemetry_frames gateway_id readings registry now)
