-- ===== src/Tests/Objects.antt =====
-- The property of the built objects at a concrete input.
use bacnet_sim_gateway.Common.{ℕ, ℤ, true, some, [], ◌∷◌, ok, ◌≡◌, refl}
use bacnet_sim_gateway.Models.{
  is_analog, is_binary, int_value, Value, BacnetObjectSpec, multi_state_value,
}
use bacnet_sim_gateway.Yaml.{is_true}
use bacnet_sim_gateway.BacnetObjects.{
  BuiltObject, state_start, clamp_state, states_of, base_object, build_multistate, build_object,
}
use bacnet_sim_gateway.BacnetObjects.PresentValue.{IsAccepted, build_object-IsAccepted}
use bacnet_sim_gateway.Tests.Samples.{ops, spec}

-- a multi-state object whose present value is beyond its states
abbrev mode : BacnetObjectSpec ℕ
mode = record (spec "mode" multi_state_value (ℤ.pos 1) ("off" ∷ "on" ∷ []) true) {
  present_value = Value.int (ℤ.pos 7);
}

abbrev built : BuiltObject ℕ
built = record (base_object ops mode (Value.int (ℤ.pos 2))) {
  number_of_states = some 2;
  state_text = some ("off" ∷ "on" ∷ []);
}

mode_built : build_object ops mode ≡ ok built
unfolding build_object build_multistate base_object is_analog is_binary state_start is_true
    int_value clamp_state states_of
mode_built = refl

build_object-IsAccepted_example : IsAccepted ops multi_state_value built
build_object-IsAccepted_example = build_object-IsAccepted ops mode built mode_built
