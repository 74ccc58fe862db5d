-- ===== src/Tests/Reload.antt =====
-- The properties of the reload, and of the YAML model, at concrete inputs.
use bacnet_sim_gateway.Common.{
  ℕ, nat_eq, String, string_eq, ℤ, int_eq, bool_eq, list_eq, pair_eq, true, false, none, some, [],
  ◌∷◌, ok, ◌≡◌, refl, inl,
}
use bacnet_sim_gateway.Common.Dict.{lookup, insert, from_items}
use bacnet_sim_gateway.Models.{
  analog_input, analog_value, BacnetObjectSpec, SimulatorConfig, object_type_eq, object_type_beq,
  is_multistate,
}
use bacnet_sim_gateway.Validate.{
  validate_config, validate_objects, object_errors, has_command_binding,
}
use bacnet_sim_gateway.Runtime.App.{compute_writable_oids}
use bacnet_sim_gateway.Yaml.{config_to_dict, dict_to_config}
use bacnet_sim_gateway.Yaml.RoundTrip.{dict_to_config-config_to_dict}
use bacnet_sim_gateway.Semantic.{sorted}
use bacnet_sim_gateway.Generator.{mark_used}
use bacnet_sim_gateway.Rest.Reload.{
  diff_maps, filter, is_added, spec_items, is_restart, is_structural, structural_cfg, apply_loaded,
  apply_checked, keep_identity, apply_valid, apply_diff, after_live, apply_live, after_objects,
  apply_objects, update_added, add_added, finish_live, compute_diff, spec_map, ReloadDiff,
  ObjectOps, LiveRuntime, Reloader, Status, apply,
}
use bacnet_sim_gateway.Rest.Reload.Diff.{IsDiff, compute_diff-IsDiff, compute_diff_no_restart}
use bacnet_sim_gateway.Rest.Reload.Validity.{IsSound, apply-IsSound}
use bacnet_sim_gateway.Tests.Samples.{ops, spec, config}
use bacnet_sim_gateway.Tests.Gateway.{config_valid}
use bacnet_sim_gateway.Tests.Simulation.{draws}

dict_to_config-config_to_dict_example : dict_to_config ops (config_to_dict config) ≡ ok config
dict_to_config-config_to_dict_example = dict_to_config-config_to_dict ops config (inl (refl, refl))

-- the config without its last object, and with a description
abbrev edited : SimulatorConfig ℕ
edited = record config {
  objects =
      spec "in" analog_input (ℤ.pos 1) [] false
      ∷ record (spec "set" analog_value (ℤ.pos 1) [] true) { description = "setpoint" }
      ∷ [];
}

compute_diff-IsDiff_example :
    IsDiff ops
      (compute_diff ops config edited).0
      "mode"
      (lookup "mode" (spec_map config.objects))
      (lookup "mode" (spec_map edited.objects))
compute_diff-IsDiff_example = compute_diff-IsDiff ops config edited "mode"

edited_no_restart : (compute_diff ops config edited).1 ≡ false
unfolding compute_diff diff_maps sorted filter spec_map from_items spec_items insert is_restart
    lookup is_structural object_type_beq structural_cfg
edited_no_restart = refl

compute_diff_no_restart_example :
    ((id : String) (o n : BacnetObjectSpec ℕ)
      → lookup id (spec_map config.objects) ≡ some o
      → lookup id (spec_map edited.objects) ≡ some n
      → (o.object_type ≡ n.object_type) × (o.object_instance ≡ n.object_instance))
    × (config.bbc.device_id ≡ edited.bbc.device_id)
    × (config.network.bind_address ≡ edited.network.bind_address)
    × (config.network.port ≡ edited.network.port)
compute_diff_no_restart_example = compute_diff_no_restart ops config edited edited_no_restart

abbrev object_ops : ObjectOps ℕ String
object_ops = record {
  build_object = λ s. ok s.description;
  add_object = λ o objects. ok tt;
  set_description = λ d o. d;
  set_tags = λ tags o. o;
}

abbrev running : LiveRuntime ℕ ℕ String
running = record {
  config = config;
  objects = [];
  writable_oids = compute_writable_oids config;
  engine = none;
}

abbrev reloader : Reloader ℕ
reloader = record { source = some "simulator.yaml"; last_reload_ts = none; last_result = none }

abbrev applied_diff : ReloadDiff
applied_diff = (compute_diff ops config edited).0

edited_applied :
    (apply ops draws object_ops 5 (ok edited) reloader running).0 ≡ ok (Status.applied applied_diff)
unfolding apply apply_loaded apply_checked validate_config keep_identity validate_objects
    object_errors is_multistate has_command_binding mark_used apply_valid apply_diff after_live
    apply_live after_objects apply_objects update_added add_added finish_live compute_diff diff_maps
    sorted filter spec_map from_items spec_items insert is_restart lookup is_structural
    object_type_beq structural_cfg is_added
edited_applied = refl

apply-IsSound_example : IsSound (apply ops draws object_ops 5 (ok edited) reloader running).1.1
apply-IsSound_example =
    apply-IsSound ops draws object_ops 5 (ok edited) reloader running (Status.applied applied_diff)
      (record { valid = config_valid; enforced = refl }) edited_applied
