-- ===== src/BacnetObjects/PresentValue.antt =====
-- The present value that an object starts with is one that its class accepts.
use bacnet_sim_gateway.Common.{
  ℕ, ◌≤◌, String, string_eq, ℤ, true, some, List, [], ◌∷◌, Result, ok, >>=-eq-ok, length, ◌≡◌, ap,
  ◌∙◌, arith, ◌⊎◌, inl, inr,
}
use bacnet_sim_gateway.Models.{
  BacnetObjectType, object_type_family, is_analog, is_binary, is_multistate, Value, FloatOps,
  ConversionError, BacnetObjectSpec,
}
use bacnet_sim_gateway.BacnetObjects.Defs.{
  BuiltObject, clamp_state, binary_pv, base_object, build_analog, build_binary, states_of,
  state_start, build_multistate, build_object, analog_start,
}

clamp_state-le : (p : ℤ) (n : ℕ) → 1 ≤ n → (1 ≤ clamp_state p n) × (clamp_state p n ≤ n)
unfolding clamp_state
clamp_state-le (ℤ.negsuc p) n h = (omega arith, h)
clamp_state-le (ℤ.pos p) n h = (ground arith, ground arith)

length-states_of : {F : Type 0} (fl : FloatOps F) (l : List String) → 1 ≤ length (states_of fl l)
unfolding states_of
length-states_of fl [] = omega arith
length-states_of fl (s ∷ l) = omega arith

module _ {F : Type 0} (fl : FloatOps F) where
  -- a number, one of the two texts, or the number of a state
  abbrev pub IsAccepted : BacnetObjectType → BuiltObject F → Type 0
  IsAccepted ot o =
      (is_analog ot ≡ true → (x : F) × (o.present_value ≡ Value.real x))
      × (is_binary ot ≡ true
          → (o.present_value ≡ Value.text "active") ⊎ (o.present_value ≡ Value.text "inactive"))
      × (is_multistate ot ≡ true
          → (p n : ℕ) × (o.present_value ≡ Value.int (ℤ.pos p))
            × (o.number_of_states ≡ some n)
            × (1 ≤ p)
            × (p ≤ n))

  binary_pv-cases : (v : Value F) → (binary_pv fl v ≡ "active") ⊎ (binary_pv fl v ≡ "inactive")
  unfolding binary_pv
  binary_pv-cases (Value.text s) =
      ground (arith, string_eq.decides s "active", string_eq.decides s "inactive")
  binary_pv-cases _ = ground arith

  build_analog-real :
      (spec : BacnetObjectSpec F) (o : BuiltObject F)
      → build_analog fl spec ≡ ok o
      → (x : F) × (o.present_value ≡ Value.real x)
  unfolding build_analog base_object
  build_analog-real spec o h =
      let (x, got, built) = >>=-eq-ok (analog_start fl spec.present_value) _ h in (x, cc)

  build_binary-text :
      (spec : BacnetObjectSpec F) (o : BuiltObject F)
      (outcome : Result ConversionError (BuiltObject F))
      → outcome ≡ ok (build_binary fl spec)
      → outcome ≡ ok o
      → (o.present_value ≡ Value.text "active") ⊎ (o.present_value ≡ Value.text "inactive")
  unfolding build_binary base_object
  build_binary-text spec o outcome binary h =
      let built : o.present_value ≡ Value.text (binary_pv fl spec.present_value) = cc in
      elim (binary_pv-cases spec.present_value) [
        | inl active ↦ inl (built ∙ ap Value.text active)
        | inr inactive ↦ inr (built ∙ ap Value.text inactive)
      ]

  build_multistate-state :
      (spec : BacnetObjectSpec F) (o : BuiltObject F)
      → build_multistate fl spec ≡ ok o
      → (p n : ℕ) × (o.present_value ≡ Value.int (ℤ.pos p))
        × (o.number_of_states ≡ some n)
        × (1 ≤ p)
        × (p ≤ n)
  unfolding build_multistate base_object
  build_multistate-state spec o h =
      let (pv, got, built) = >>=-eq-ok (state_start fl spec.present_value) _ h in
      let states = length (states_of fl spec.state_text) in
      let within = clamp_state-le pv states (length-states_of fl spec.state_text) in
      (clamp_state pv states, states, cc, cc, within.0, within.1)

  -- Whatever the spec says, an object that is built starts with a present value of its family: an
  -- analog one with a number, a binary one with `active` or `inactive`, and a multi-state one with the
  -- number of one of its states.
  pub build_object-IsAccepted :
      (spec : BacnetObjectSpec F) (o : BuiltObject F)
      → build_object fl spec ≡ ok o
      → IsAccepted spec.object_type o
  unfolding build_object
  build_object-IsAccepted spec o h = elim (object_type_family spec.object_type) [
    | inl (a, b, m) ↦ (
      λ _. build_analog-real spec o (rw a at h),
      λ e. absurd (ground arith),
      λ e. absurd (ground arith),
    )
    | inr (inl (a, b, m)) ↦ (
      λ e. absurd (ground arith),
      λ _. build_binary-text spec o _ (rw (a, b)) h,
      λ e. absurd (ground arith),
    )
    | inr (inr (a, b, m)) ↦ (
      λ e. absurd (ground arith),
      λ e. absurd (ground arith),
      λ _. build_multistate-state spec o (rw (a, b) at h),
    )
  ]
