-- ===== src/Southbound/Commands.antt =====
-- Which objects forward commands, and that they accept writes.
use bacnet_sim_gateway.Common.{
  string_eq, int_eq, pair_eq, Bool, true, false, ◌&&◌, ◌||◌, Option, none, some, List, [], ◌∷◌,
  ◌==◌, contains, ◌≡◌, refl, arith, Bool-cases, inl, inr, All,
}
use bacnet_sim_gateway.Common.Dict.{keys, contains-keys-insert}
use bacnet_sim_gateway.Models.{FloatOps, BindingSpec, BacnetObjectSpec, SimulatorConfig}
use bacnet_sim_gateway.Validate.{takes_commands, has_command_binding, validate_config}
use bacnet_sim_gateway.Validate.Exact.{IsWellFormed, validate_config-IsValidModel}
use bacnet_sim_gateway.Runtime.App.{Oid, oid_key, writable_oids_of, compute_writable_oids}
use bacnet_sim_gateway.Southbound.Binding.{Manager, new_manager, bind, bind_spec, bind_all, start}

-- has one of the specs this key and a binding that takes commands?
abbrev pub is_commanded : {F : Type 0} → Oid → List (BacnetObjectSpec F) → Bool
is_commanded oid [] = false
is_commanded oid (s ∷ specs) =
    (has_command_binding s.binding && oid == oid_key s) || is_commanded oid specs

module _ {F : Type 0} (fl : FloatOps F) where
  bind_spec-oids :
      (oid : Oid) (s : BacnetObjectSpec F) (b : Option (BindingSpec F)) (m : Manager F)
      → contains (keys (bind_spec fl s b m).command_channel) oid
        ≡ ((has_command_binding b && oid == oid_key s) || contains (keys m.command_channel) oid)
  unfolding bind_spec bind has_command_binding
  bind_spec-oids oid s none m = refl
  bind_spec-oids oid s (some b) m = elim (Bool-cases (takes_commands b.direction)) [
    | inl takes ↦ rw (takes, contains-keys-insert oid (oid_key s) _ m.command_channel)
    | inr none_taken ↦ rw none_taken
  ]

  bind_all-oids :
      (oid : Oid) (specs : List (BacnetObjectSpec F)) (m : Manager F)
      → contains (keys (bind_all fl specs m).command_channel) oid
        ≡ (is_commanded oid specs || contains (keys m.command_channel) oid)
  unfolding bind_all
  bind_all-oids oid [] m = refl
  bind_all-oids oid (s ∷ specs) m =
      let first = bind_spec-oids oid s s.binding m in
      let rest = bind_all-oids oid specs (bind_spec fl s s.binding m) in ground arith

  commanded_writable :
      (oid : Oid) (specs : List (BacnetObjectSpec F))
      → All IsWellFormed specs
      → is_commanded oid specs ≡ true
      → contains (writable_oids_of specs) oid ≡ true
  unfolding writable_oids_of
  commanded_writable oid [] h c = c
  commanded_writable oid (s ∷ specs) h c =
      let accepts = h.0.1 in
      let rest = commanded_writable oid specs h.1 in
      elim (Bool-cases s.writable) [
        | inl writable ↦ rw (writable, writable_oids_of) (ground arith)
        | inr shut ↦ rw (shut, writable_oids_of) (ground arith)
      ]

  -- On a config without validation errors, every object that forwards commands accepts writes of its
  -- present value: the command hook is never out of reach.
  pub start-compute_writable_oids :
      (config : SimulatorConfig F) (oid : Oid)
      → validate_config config ≡ []
      → contains (start fl config).1 oid ≡ true
      → contains (compute_writable_oids config) oid ≡ true
  unfolding start compute_writable_oids
  start-compute_writable_oids config oid valid bound =
      let model = (validate_config-IsValidModel config).0 valid in
      let commanded : is_commanded oid config.objects ≡ true =
        ground (arith, bind_all-oids oid config.objects new_manager) in
      commanded_writable oid config.objects model.well_formed commanded
