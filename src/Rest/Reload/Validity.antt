-- ===== src/Rest/Reload/Validity.antt =====
-- A reload keeps the running config valid, and the writable objects those of the config.
use bacnet_sim_gateway.Common.{
  String, string_eq, int_eq, pair_eq, Bool, true, false, Option, none, some, List, [], ◌∷◌, Result,
  ok, raise, ◌≡◌, refl, Option-cases, inl, inr, arith,
}
use bacnet_sim_gateway.Common.Dict.{Dict}
use bacnet_sim_gateway.Models.{FloatOps, SimulatorConfig}
use bacnet_sim_gateway.Validate.{ConfigError, validate_config}
use bacnet_sim_gateway.Validate.Exact.{validate_config-IsValidModel}
use bacnet_sim_gateway.Runtime.App.{Oid, compute_writable_oids}
use bacnet_sim_gateway.Simulation.Generators.{Randomness, GeneratorError}
use bacnet_sim_gateway.Simulation.Engine.{Driven}
use bacnet_sim_gateway.Rest.Reload.Defs.{ReloadDiff}
use bacnet_sim_gateway.Rest.Reload.Apply.{
  ObjectOps, LiveRuntime, Reloader, Status, finish_live, after_objects, apply_live, keep_identity,
  after_live, apply_diff, apply_valid, apply_checked, apply_loaded, apply,
}

-- the config validates, and the application accepts writes for its writable objects
pub record IsSound {F R O : Type 0} (rt : LiveRuntime F R O) : Type 0 where
  pub valid : validate_config rt.config ≡ []
  pub enforced : rt.writable_oids ≡ compute_writable_oids rt.config

module _ {F R O : Type 0} (fl : FloatOps F) (rand : Randomness F R) (ops : ObjectOps F O) where
  -- the new objects under the running device
  valid_objects :
      (running new : SimulatorConfig F)
      → validate_config running ≡ []
      → validate_config new ≡ []
      → validate_config (record running { objects = new.objects }) ≡ []
  valid_objects running new old_valid new_valid =
      let old_model = (validate_config-IsValidModel running).0 old_valid in
      let new_model = (validate_config-IsValidModel new).0 new_valid in
      (validate_config-IsValidModel (record running { objects = new.objects })).1 (record {
        positive = old_model.positive;
        distinct_points = new_model.distinct_points;
        distinct_objects = new_model.distinct_objects;
        well_formed = new_model.well_formed;
      })

  after_live-IsSound :
      (diff : ReloadDiff) (rl : Reloader F) (new : SimulatorConfig F)
      (built : Option (Result GeneratorError (Unit {0}) × List (Driven F R)))
      (rt : LiveRuntime F R O) (status : Status)
      → validate_config rt.config ≡ []
      → validate_config new ≡ []
      → rt.writable_oids ≡ compute_writable_oids new
      → (after_live fl rand ops diff rl (finish_live fl rand ops new built rt)).0 ≡ ok status
      → IsSound (after_live fl rand ops diff rl (finish_live fl rand ops new built rt)).1.1
  unfolding after_live finish_live compute_writable_oids
  after_live-IsSound diff rl new none rt status valid new_valid writable h = record {
    valid = valid_objects rt.config new valid new_valid;
    enforced = writable;
  }
  after_live-IsSound diff rl new (some (ok _, g)) rt status valid new_valid writable h = record {
    valid = valid_objects rt.config new valid new_valid;
    enforced = writable;
  }
  after_live-IsSound diff rl new (some (raise e, g)) rt status valid new_valid writable h =
      absurd (ground arith)

  after_objects-IsSound :
      (diff : ReloadDiff) (rl : Reloader F) (new : SimulatorConfig F)
      (applied : Result String (Unit {0}) × Dict Oid O) (rt : LiveRuntime F R O) (status : Status)
      → validate_config rt.config ≡ []
      → validate_config new ≡ []
      → (after_live fl rand ops diff rl (after_objects fl rand ops new applied rt)).0 ≡ ok status
      → IsSound (after_live fl rand ops diff rl (after_objects fl rand ops new applied rt)).1.1
  unfolding after_objects after_live
  after_objects-IsSound diff rl new (raise e, objects) rt status valid new_valid h = absurd cc
  after_objects-IsSound diff rl new (ok _, objects) rt status valid new_valid h =
      after_live-IsSound diff rl new _ _ status valid new_valid refl h

  apply_diff-IsSound :
      (now : F) (new : SimulatorConfig F) (diff : ReloadDiff) (restart : Bool) (rl : Reloader F)
      (rt : LiveRuntime F R O) (status : Status)
      → IsSound rt
      → validate_config new ≡ []
      → (apply_diff fl rand ops now new diff restart rl rt).0 ≡ ok status
      → IsSound (apply_diff fl rand ops now new diff restart rl rt).1.1
  unfolding apply_diff apply_live
  apply_diff-IsSound now new diff true rl rt status sound valid h = sound
  apply_diff-IsSound now new diff false rl rt status sound valid h =
      after_objects-IsSound diff _ new _ rt status sound.valid valid h

  apply_checked-IsSound :
      (now : F) (new : SimulatorConfig F) (errors : List ConfigError) (rl : Reloader F)
      (rt : LiveRuntime F R O) (status : Status)
      → IsSound rt
      → validate_config new ≡ errors
      → (apply_checked fl rand ops now new errors rl rt).0 ≡ ok status
      → IsSound (apply_checked fl rand ops now new errors rl rt).1.1
  unfolding apply_checked apply_valid
  apply_checked-IsSound now new [] rl rt status sound valid h =
      apply_diff-IsSound now new _ _ rl rt status sound valid h
  apply_checked-IsSound now new (e ∷ errors) rl rt status sound valid h = sound

  apply_loaded-IsSound :
      (now : F) (load : Result String (SimulatorConfig F)) (rl : Reloader F)
      (rt : LiveRuntime F R O) (status : Status)
      → IsSound rt
      → (apply_loaded fl rand ops now load rl rt).0 ≡ ok status
      → IsSound (apply_loaded fl rand ops now load rl rt).1.1
  unfolding apply_loaded
  apply_loaded-IsSound now (raise text) rl rt status sound h = sound
  apply_loaded-IsSound now (ok new) rl rt status sound h =
      apply_checked-IsSound now (keep_identity fl rand ops rt.config new) _ rl rt status sound refl
        h

  -- A reload that returns a status, whatever the file holds, keeps a sound runtime sound: its config
  -- validates, and the writable objects of the application are those of its config.
  pub apply-IsSound :
      (now : F) (load : Result String (SimulatorConfig F)) (rl : Reloader F)
      (rt : LiveRuntime F R O) (status : Status)
      → IsSound rt
      → (apply fl rand ops now load rl rt).0 ≡ ok status
      → IsSound (apply fl rand ops now load rl rt).1.1
  unfolding apply
  apply-IsSound now load rl rt status sound h = elim (Option-cases rl.source) [
    | inl off ↦ rw (off, apply) sound
    | inr (path, on) ↦
        let loaded = apply_loaded-IsSound now load rl rt status sound in
        rw (on, apply) (loaded (rw (on, apply) at h))
  ]
