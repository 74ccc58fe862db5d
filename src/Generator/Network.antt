-- ===== src/Generator/Network.antt =====
-- The network of every config that is generated is the default one.
use bacnet_sim_gateway.Common.{
  ℕ, suc, String, ℤ, Option, some, List, [], ◌∷◌, ◌<>◌, add_ℕ, if◌then◌else◌, ◌≡◌, arith, sym, refl,
  All, inl, inr, Option-cases,
}
use bacnet_sim_gateway.Common.Text.{is_blank}
use bacnet_sim_gateway.Common.Dict.{Dict}
use bacnet_sim_gateway.Models.{
  SbcoPoint, FloatOps, default_network, SimulatorConfig, MultiDeviceConfig, multi_device,
}
use bacnet_sim_gateway.Mapping.{Warning}
use bacnet_sim_gateway.Generator.Defs.{assign_instances}
use bacnet_sim_gateway.Generator.Build.{
  resolve_all, build_objects, point_names, generate_config, group_points, generate_devices,
  generate_multi_device_config,
}

module _ {F : Type 0} (fl : FloatOps F) (update_mode : Option String) where
  pub network-generate_config :
      (points : List (SbcoPoint F)) (bbc_id : String) (device_id : ℤ) (object_name : String)
      (config : SimulatorConfig F) (warnings : List Warning)
      → generate_config fl points bbc_id device_id object_name update_mode ≡ some (config, warnings)
      → config.network ≡ default_network
  unfolding generate_config
  network-generate_config points bbc_id device_id object_name config warnings h =
      elim (Option-cases (
        build_objects fl update_mode (point_names (resolve_all points).0)
          (assign_instances (resolve_all points).0).result (resolve_all points).0)) [
            | inl failed ↦ ground arith
            | inr (objects, built) ↦ ground arith
          ]

  network-generate_devices :
      (offset : ℕ) (groups : Dict String (List (SbcoPoint F))) (base_bbc_id : String) (base : ℤ)
      (object_name : String) (configs : List (SimulatorConfig F)) (warnings : List Warning)
      → generate_devices fl offset groups base_bbc_id base object_name update_mode
        ≡ some (configs, warnings)
      → All (λ dev. dev.network ≡ default_network) configs
  unfolding generate_devices
  network-generate_devices offset [] base_bbc_id base object_name [] warnings h = tt
  network-generate_devices offset [] base_bbc_id base object_name (c ∷ configs) warnings h =
      absurd (ground arith)
  network-generate_devices offset ((key, group) ∷ groups) base_bbc_id base object_name configs
        warnings h =
      let suffix = "-" <> fl.show_int (ℤ.pos offset) in
      let one =
        generate_config fl group (base_bbc_id <> suffix) (add_ℕ base offset)
          (if is_blank key then object_name <> suffix else key) update_mode in
      let rest = generate_devices fl (suc offset) groups base_bbc_id base object_name update_mode in
      elim (Option-cases one) [
        | inl failed ↦ absurd (ground arith)
        | inr ((cfg, ws), made) ↦ elim (Option-cases rest) [
          | inl failed ↦ absurd (ground arith)
          | inr ((cfgs, more), built) ↦
              let first = network-generate_config group _ _ _ cfg ws made in
              let others =
                network-generate_devices (suc offset) groups base_bbc_id base object_name cfgs more
                  built in
              let same : cfg ∷ cfgs ≡ configs = ground arith in rw (sym same) (first, others)
        ]
      ]

  pub network-generate_multi_device_config :
      (points : List (SbcoPoint F)) (base_bbc_id : String) (base : ℤ) (object_name : String)
      (config : MultiDeviceConfig F) (warnings : List Warning)
      → generate_multi_device_config fl points base_bbc_id base object_name update_mode
        ≡ some (config, warnings)
      → All (λ dev. dev.network ≡ default_network) config.devices
        × (config ≡ record { devices = config.devices; device_mapping = multi_device })
  unfolding generate_multi_device_config
  network-generate_multi_device_config points base_bbc_id base object_name config warnings h =
      elim (Option-cases
        (generate_devices fl 0 (group_points points []) base_bbc_id base object_name update_mode)) [
          | inl failed ↦ absurd (ground arith)
          | inr ((cfgs, ws), made) ↦
              let all = network-generate_devices 0 _ base_bbc_id base object_name cfgs ws made in
              let same : record { devices = cfgs; device_mapping = multi_device } ≡ config =
                ground arith in
              rw (sym same) (all, refl)
        ]
