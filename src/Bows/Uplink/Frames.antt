-- ===== src/Bows/Uplink/Frames.antt =====
-- Frames name the objects that were read, and carry numbers.
use bacnet_sim_gateway.Common.{
  nat_eq, String, ℤ, true, false, Option, none, some, List, [], ◌∷◌, Result, ok, ◌>>=◌, >>=-eq-ok,
  ◌≡◌, ◌⊎◌, inl, inr, refl, arith,
}
use bacnet_sim_gateway.Common.Dict.{lookup, insert, from_items}
use bacnet_sim_gateway.Models.{
  BacnetObjectType, object_type_eq, is_binary, is_multistate, is_analog, Value, FloatOps,
  SimulatorConfig, object_type_family, ConversionError, int_value, float_value,
}
use bacnet_sim_gateway.Validate.{validate_config}
use bacnet_sim_gateway.Bows.Registry.{
  PointRegistry, init_registry, resolve_bacnet, resolve_point_id, resolve_point_id-resolve_bacnet,
}
use bacnet_sim_gateway.Bows.Uplink.Defs.{
  Reading, object_type_info, enum_items, ashrae_enum_to_type, TelemetryFrame, encode_value,
  frame_of, add_frame, encode_telemetry_frames,
}

-- Decoding the ASHRAE number of a type gives the type back.
pub ashrae_enum_to_type-object_type_info :
    (t : BacnetObjectType) → lookup (object_type_info t).1 ashrae_enum_to_type ≡ some t
unfolding ashrae_enum_to_type enum_items object_type_info lookup insert from_items
ashrae_enum_to_type-object_type_info BacnetObjectType.analog_input = refl
ashrae_enum_to_type-object_type_info _ = refl

-- the value of a frame for a type: 0 or 1, an integer, or a float
abbrev pub IsNumberFor : {F : Type 0} → BacnetObjectType → Value F → Type 0
IsNumberFor {F} ot v =
    ((is_binary ot ≡ true) × ((v ≡ Value.int (ℤ.pos 0)) ⊎ (v ≡ Value.int (ℤ.pos 1))))
    ⊎ ((is_multistate ot ≡ true) × ((i : ℤ) × (v ≡ Value.int i)))
    ⊎ ((is_analog ot ≡ true) × ((x : F) × (v ≡ Value.real x)))

-- the frames of a list of readings: a reading of an object that the registry does not know is left
-- out, and any other has a frame whose point id resolves to its object
pub data FramesFor {F T : Type 0} (registry : PointRegistry)
    : List (Reading F T) → List (TelemetryFrame F) → Type 0 where
  none_left : FramesFor registry [] []
  skipped :
      (r : Reading F T) {readings : List (Reading F T)} {frames : List (TelemetryFrame F)}
      → resolve_bacnet registry r.object_type r.instance_no ≡ none
      → FramesFor registry readings frames
      → FramesFor registry (r ∷ readings) frames
  sent :
      (r : Reading F T) (f : TelemetryFrame F) {readings : List (Reading F T)}
      {frames : List (TelemetryFrame F)}
      → resolve_point_id registry f.point_id ≡ some (r.object_type, r.instance_no)
      → IsNumberFor r.object_type f.value
      → FramesFor registry readings frames
      → FramesFor registry (r ∷ readings) (f ∷ frames)

module _ {F : Type 0} (fl : FloatOps F) where
  encode_value_analog :
      (ot : BacnetObjectType) (value : Value F)
      → is_binary ot ≡ false
      → is_multistate ot ≡ false
      → encode_value fl ot value ≡ (float_value fl value >>= λ x. ok (Value.real x))
  unfolding encode_value
  encode_value_analog ot value b m = rw (b, m)

  encode_value_multistate :
      (ot : BacnetObjectType) (value : Value F)
      → is_binary ot ≡ false
      → is_multistate ot ≡ true
      → encode_value fl ot value ≡ (int_value fl value >>= λ i. ok (Value.int i))
  unfolding encode_value
  encode_value_multistate ot value b m = rw (b, m)

  encode_value_binary :
      (ot : BacnetObjectType) (value v : Value F)
      → is_binary ot ≡ true
      → encode_value fl ot value ≡ ok v
      → (v ≡ Value.int (ℤ.pos 0)) ⊎ (v ≡ Value.int (ℤ.pos 1))
  unfolding encode_value
  encode_value_binary ot value v b h = ground arith

  encode_value-IsNumberFor :
      (ot : BacnetObjectType) (value v : Value F)
      → encode_value fl ot value ≡ ok v
      → IsNumberFor ot v
  encode_value-IsNumberFor ot value v h = elim (object_type_family ot) [
    | inl (a, b, m) ↦
        let (x, _, e) =
          >>=-eq-ok (float_value fl value) (λ x. ok (Value.real x))
            (rw (encode_value_analog ot value b m) at h) in
        inr (inr (a, (x, ground arith)))
    | inr (inl (a, b, m)) ↦ inl (b, encode_value_binary ot value v b h)
    | inr (inr (a, b, m)) ↦
        let (i, _, e) =
          >>=-eq-ok (int_value fl value) (λ i. ok (Value.int i))
            (rw (encode_value_multistate ot value b m) at h) in
        inr (inl (m, (i, ground arith)))
  ]

  module _ {T : Type 0} (iso : T → String) (gateway_id : String) (now : T) where
    frame_of_inversion :
        (r : Reading F T) (id : String) (f : TelemetryFrame F)
        → frame_of fl iso gateway_id r id now ≡ ok f
        → (f.point_id ≡ id) × IsNumberFor r.object_type f.value
    unfolding frame_of
    frame_of_inversion r id f h =
        let (v, encoded, e) = >>=-eq-ok (encode_value fl r.object_type r.present_value) _ h in
        let same : f.value ≡ v = ground arith in
        (ground arith, rw same (encode_value-IsNumberFor r.object_type r.present_value v encoded))

    module _ (config : SimulatorConfig F) (checked : validate_config config ≡ []) where
      add_frame-FramesFor :
          (r : Reading F T) (readings : List (Reading F T)) (o : Option String)
          (rest : Result ConversionError (List (TelemetryFrame F)))
          (frames : List (TelemetryFrame F))
          → resolve_bacnet (init_registry config.objects) r.object_type r.instance_no ≡ o
          → ((tail : List (TelemetryFrame F))
              → rest ≡ ok tail
              → FramesFor (init_registry config.objects) readings tail)
          → add_frame fl iso gateway_id r o now rest ≡ ok frames
          → FramesFor (init_registry config.objects) (r ∷ readings) frames
      unfolding add_frame
      add_frame-FramesFor r readings none rest frames unknown ih h =
          FramesFor.skipped r unknown (ih frames h)
      add_frame-FramesFor r readings (some id) rest frames known ih h =
          let (f, made, h1) = >>=-eq-ok (frame_of fl iso gateway_id r id now) _ h in
          let (tail, got, h2) = >>=-eq-ok rest _ h1 in
          let (same_id, number) = frame_of_inversion r id f made in
          let back =
            (resolve_point_id-resolve_bacnet config id r.object_type r.instance_no checked).1
              known in
          let whole : frames ≡ f ∷ tail = ground arith in
          rw whole (FramesFor.sent r f (rw same_id back) number (ih tail got))

      -- On a config without validation errors, each frame resolves, on the way down, to the object
      -- that was read, its value is of the kind of the object's type, and what the registry does not
      -- know is skipped.
      pub encode_telemetry_frames-FramesFor :
          (readings : List (Reading F T)) (frames : List (TelemetryFrame F))
          → encode_telemetry_frames fl iso gateway_id readings (init_registry config.objects) now
            ≡ ok frames
          → FramesFor (init_registry config.objects) readings frames
      unfolding encode_telemetry_frames
      encode_telemetry_frames-FramesFor [] [] h = FramesFor.none_left
      encode_telemetry_frames-FramesFor [] (f ∷ frames) h = ground arith
      encode_telemetry_frames-FramesFor (r ∷ readings) frames h =
          add_frame-FramesFor r readings _ _ frames refl
            (encode_telemetry_frames-FramesFor readings) h
