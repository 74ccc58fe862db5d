-- ===== src/Generator/MultiDevice.antt =====
-- The config of several devices that is generated from a valid point list has no validation errors.
use bacnet_sim_gateway.Common.{
  ℕ, zero, suc, ◌+◌, ◌≤◌, String, string_eq, nat_eq, ℤ, int_eq, is_nonpositive, add_ℕ, false,
  Option, some, List, [], ◌∷◌, ◌++◌, ◌<>◌, contains, if◌then◌else◌, ◌==◌, ◌≡◌, refl, sym, arith,
  All, inl, inr, Option-cases,
}
use bacnet_sim_gateway.Common.Text.{is_blank}
use bacnet_sim_gateway.Common.Dict.{Dict}
use bacnet_sim_gateway.Models.{
  SbcoPoint, FloatOps, SimulatorConfig, MultiDeviceConfig, multi_device,
}
use bacnet_sim_gateway.PointList.{check_points}
use bacnet_sim_gateway.PointList.Issues.{check_points-HasDistinctIds}
use bacnet_sim_gateway.Mapping.{Warning}
use bacnet_sim_gateway.Validate.{validate_devices, validate_multi_device_config}
use bacnet_sim_gateway.Generator.Defs.{assign_instances}
use bacnet_sim_gateway.Generator.Build.{
  resolve_all, build_objects, point_names, generate_config, group_points, generate_devices,
  generate_multi_device_config,
}
use bacnet_sim_gateway.Generator.Groups.{AllValues, IsGroup, group_points-IsGroup}
use bacnet_sim_gateway.Generator.Valid.{IsLabelled, generate_config-valid}

-- `base + offset`, for a base that is positive
add_ℕ-distinct :
    (base : ℤ) (m n : ℕ)
    → is_nonpositive base ≡ false
    → suc n ≤ m
    → (add_ℕ base m == add_ℕ base n) ≡ false
add_ℕ-distinct (ℤ.pos zero) m n positive lt = absurd (ground arith)
add_ℕ-distinct (ℤ.pos (suc a)) m n positive lt = ground arith
add_ℕ-distinct (ℤ.negsuc a) m n positive lt = absurd (ground arith)

add_ℕ-positive :
    (base : ℤ) (n : ℕ) → is_nonpositive base ≡ false → is_nonpositive (add_ℕ base n) ≡ false
add_ℕ-positive (ℤ.pos zero) n positive = absurd (ground arith)
add_ℕ-positive (ℤ.pos (suc a)) n positive =
    let e : suc a + n ≡ suc (a + n) = omega arith in rw e refl
add_ℕ-positive (ℤ.negsuc a) n positive = absurd (ground arith)

module _ {F : Type 0} (fl : FloatOps F) (update_mode : Option String) where
  device_id-generate_config :
      (points : List (SbcoPoint F)) (bbc_id : String) (device_id : ℤ) (object_name : String)
      (config : SimulatorConfig F) (warnings : List Warning)
      → generate_config fl points bbc_id device_id object_name update_mode ≡ some (config, warnings)
      → config.bbc.device_id ≡ device_id
  unfolding generate_config
  device_id-generate_config points bbc_id device_id object_name config warnings h =
      elim (Option-cases (
        build_objects fl update_mode (point_names (resolve_all points).0)
          (assign_instances (resolve_all points).0).result (resolve_all points).0)) [
            | inl failed ↦ ground arith
            | inr (objects, built) ↦ ground arith
          ]

  -- no device id that is still to come was seen
  abbrev Unseen : List ℤ → ℤ → ℕ → Type 0
  Unseen seen base offset = (m : ℕ) → offset ≤ m → contains seen (add_ℕ base m) ≡ false

  generate_devices-valid :
      (base_bbc_id : String) (base : ℤ) (object_name : String)
      → is_nonpositive base ≡ false
      → (groups : Dict String (List (SbcoPoint F))) (ids : List String) (offset : ℕ) (seen : List ℤ)
      → AllValues (IsGroup ids) groups
      → Unseen seen base offset
      → (configs : List (SimulatorConfig F)) × (warnings : List Warning) × (generate_devices fl
            offset groups base_bbc_id base object_name update_mode
          ≡ some (configs, warnings))
        × (validate_devices offset seen configs ≡ [])
  unfolding generate_devices validate_devices
  generate_devices-valid base_bbc_id base object_name positive [] ids offset seen h unseen =
      ([], [], refl, refl)
  generate_devices-valid base_bbc_id base object_name positive ((key, group) ∷ groups) ids offset
        seen h unseen =
      let suffix = "-" <> fl.show_int (ℤ.pos offset) in
      let checked = (check_points-HasDistinctIds group).1 (h.0.named, h.0.distinct) in
      let (config, warnings, made, valid) =
        generate_config-valid fl update_mode group (base_bbc_id <> suffix) (add_ℕ base offset)
          (if is_blank key then object_name <> suffix else key) checked h.0.labelled
          (add_ℕ-positive base offset positive) in
      let own = device_id-generate_config group _ _ _ config warnings made in
      let (configs, more, rest, fine) =
        generate_devices-valid base_bbc_id base object_name positive groups ids (suc offset)
          (config.bbc.device_id ∷ seen) h.1
          (λ m above.
            let new = add_ℕ-distinct base m offset positive above in
            let old = unseen m (omega arith) in rw (own, new) old) in
      (
        config ∷ configs,
        warnings ++ more,
        rw (made, generate_devices, rest),
        rw (own, unseen offset (omega arith), valid) (rw (sym own) fine),
      )

  -- A point list that validates, with labels for every explicit multi-state point, and a positive base id:
  -- the generation of one device for each `device_id_bacnet` returns a config, and no device of it has
  -- validation errors, nor have two devices the same id.
  pub generate_multi_device_config-valid :
      (points : List (SbcoPoint F)) (base_bbc_id : String) (base : ℤ) (object_name : String)
      → check_points [] points ≡ []
      → All IsLabelled points
      → is_nonpositive base ≡ false
      → (config : MultiDeviceConfig F) × (warnings : List Warning) × (generate_multi_device_config
            fl points base_bbc_id base object_name update_mode
          ≡ some (config, warnings))
        × (validate_multi_device_config config ≡ [])
  unfolding generate_multi_device_config validate_multi_device_config
  generate_multi_device_config-valid points base_bbc_id base object_name checked labelled positive =
      let (ids, groups) = group_points-IsGroup points [] [] checked labelled tt in
      let (configs, warnings, made, fine) =
        generate_devices-valid base_bbc_id base object_name positive (group_points points []) ids 0
          [] groups (λ m above. refl) in
      (
        record { devices = configs; device_mapping = multi_device },
        warnings,
        rw (made, generate_multi_device_config),
        fine,
      )
