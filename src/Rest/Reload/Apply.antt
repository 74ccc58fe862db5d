-- ===== src/Rest/Reload/Apply.antt =====
-- `PointListReloader` and `_apply_live`. `load` is what `load_config` gives, and `now` is
-- `time.time()`. The objects of the application are a dict; what builds and describes one is the
-- record `ObjectOps`.
use bacnet_sim_gateway.Common.{
  String, string_eq, int_eq, pair_eq, Bool, true, false, Option, none, some, List, [], ◌∷◌, ◌==◌,
  list_eq, Result, ok, raise, if◌then◌else◌,
}
use bacnet_sim_gateway.Common.Dict.{Dict, lookup, insert}
use bacnet_sim_gateway.Models.{FloatOps, BacnetObjectSpec, SimulatorConfig}
use bacnet_sim_gateway.Validate.{ConfigError, validate_config}
use bacnet_sim_gateway.Runtime.App.{Oid, oid_key, compute_writable_oids}
use bacnet_sim_gateway.Simulation.Generators.{Randomness, GeneratorError}
use bacnet_sim_gateway.Simulation.Engine.{Driven, rebuild}
use bacnet_sim_gateway.Rest.Reload.Defs.{ReloadDiff, spec_map, compute_diff}

-- `build_object` and `add_object`, which may raise, and the assignments to `description` and `tags`
pub record ObjectOps (F O : Type 0) : Type 0 where
  pub build_object : BacnetObjectSpec F → Result String O
  pub add_object : O → Dict Oid O → Result String (Unit {0})
  pub set_description : String → O → O
  pub set_tags : List String → O → O

-- the runtime: its config, and what the application and the engine hold
pub record LiveRuntime (F R O : Type 0) : Type 0 where
  pub config : SimulatorConfig F
  pub objects : Dict Oid O
  pub writable_oids : List Oid
  pub engine : Option (List (Driven F R))

pub record Reloader (F : Type 0) : Type 0 where
  pub source : Option String
  pub last_reload_ts : Option F
  pub last_result : Option String

pub data Status : Type 0 where
  no_source : Status
  read_error : String → Status
  validation_failed : List ConfigError → Status
  restart_required : ReloadDiff → Status
  applied : ReloadDiff → Status

-- an exception that leaves `_apply_live`
pub data LiveError : Type 0 where
  object_failed : String → LiveError
  generator_failed : GeneratorError → LiveError

unfoldable pub delete_object : {O : Type 0} → Oid → Dict Oid O → Dict Oid O
delete_object oid [] = []
delete_object oid ((k, o) ∷ objects) =
    let rest = delete_object oid objects in if oid == k then rest else (k, o) ∷ rest

module _ {F O : Type 0} (ops : ObjectOps F O)
    (old_map new_map : Dict String (BacnetObjectSpec F)) where
  unfoldable pub delete_removed : List String → Dict Oid O → Dict Oid O
  delete_removed [] objects = objects
  delete_removed (id ∷ ids) objects = delete_removed ids (elim (lookup id old_map) [
    | none ↦ objects
    | some spec ↦ delete_object (oid_key spec) objects
  ])

  -- the objects before the one that cannot be built or added are there when it raises
  abbrev Added : Type 0
  Added = Result String (Unit {0}) × Dict Oid O

  unfoldable pub insert_object :
      Oid → O → Result String (Unit {0}) → Dict Oid O → (Dict Oid O → Added) → Added
  insert_object oid o (raise e) objects rest = (raise e, objects)
  insert_object oid o (ok _) objects rest = rest (insert oid o objects)

  unfoldable pub add_built : Oid → Result String O → Dict Oid O → (Dict Oid O → Added) → Added
  add_built oid (raise e) objects rest = (raise e, objects)
  add_built oid (ok o) objects rest = insert_object oid o (ops.add_object o objects) objects rest

  unfoldable pub add_added : List String → Dict Oid O → Added
  add_added [] objects = (ok tt, objects)
  add_added (id ∷ ids) objects = elim (lookup id new_map) [
    | none ↦ add_added ids objects
    | some spec ↦
        add_built (oid_key spec) (ops.build_object spec) objects (λ after. add_added ids after)
  ]

  -- the description, and the tags if they changed
  unfoldable pub update_object : BacnetObjectSpec F → Option (BacnetObjectSpec F) → O → O
  update_object spec none o = ops.set_description spec.description o
  update_object spec (some old) o =
      let described = ops.set_description spec.description o in
      if spec.tags == old.tags then described else ops.set_tags spec.tags described

  unfoldable pub update_live : List String → Dict Oid O → Dict Oid O
  update_live [] objects = objects
  update_live (id ∷ ids) objects = update_live ids (elim (lookup id new_map) [
    | none ↦ objects
    | some spec ↦ elim (lookup (oid_key spec) objects) [
      | none ↦ objects
      | some o ↦ insert (oid_key spec) (update_object spec (lookup id old_map) o) objects
    ]
  ])

  unfoldable pub update_added : List String → Added → Added
  update_added ids (raise e, objects) = (raise e, objects)
  update_added ids (ok _, objects) = (ok tt, update_live ids objects)

  unfoldable pub apply_objects : ReloadDiff → Dict Oid O → Added
  apply_objects diff objects =
      update_added diff.modified_live (add_added diff.added (delete_removed diff.removed objects))

module _ {F R O : Type 0} (fl : FloatOps F) (rand : Randomness F R) (ops : ObjectOps F O) where
  -- The engine is rebuilt before the config is replaced. A generator that cannot be built raises, and
  -- the engine is left with those before it.
  unfoldable pub finish_live :
      SimulatorConfig F
      → Option (Result GeneratorError (Unit {0}) × List (Driven F R))
      → LiveRuntime F R O
      → Result LiveError (Unit {0}) × LiveRuntime F R O
  finish_live new none rt =
      (ok tt, record rt { config = record rt.config { objects = new.objects } })
  finish_live new (some (raise e, generators)) rt =
      (raise (generator_failed e), record rt { engine = some generators })
  finish_live new (some (ok _, generators)) rt = (
    ok tt,
    record rt { config = record rt.config { objects = new.objects }; engine = some generators },
  )

  -- after the loops over the objects
  unfoldable pub after_objects :
      SimulatorConfig F
      → Result String (Unit {0}) × Dict Oid O
      → LiveRuntime F R O
      → Result LiveError (Unit {0}) × LiveRuntime F R O
  after_objects new (raise e, objects) rt =
      (raise (object_failed e), record rt { objects = objects })
  after_objects new (ok _, objects) rt =
      finish_live new
        (elim rt.engine [ none ↦ none | some generators ↦ some (rebuild fl rand new) ])
        (record rt { objects = objects; writable_oids = compute_writable_oids new })

  unfoldable pub apply_live :
      SimulatorConfig F
      → ReloadDiff
      → LiveRuntime F R O
      → Result LiveError (Unit {0}) × LiveRuntime F R O
  apply_live new diff rt =
      after_objects new
        (apply_objects ops (spec_map rt.config.objects) (spec_map new.objects) diff rt.objects) rt

  -- the running bbc_id is kept
  unfoldable pub keep_identity : SimulatorConfig F → SimulatorConfig F → SimulatorConfig F
  keep_identity running new = record new { bbc = record new.bbc { bbc_id = running.bbc.bbc_id } }

  -- the status, the reloader and the runtime after `apply`
  abbrev pub Reloaded : Type 0
  Reloaded = Result LiveError Status × (Reloader F × LiveRuntime F R O)

  unfoldable pub after_live :
      ReloadDiff → Reloader F → Result LiveError (Unit {0}) × LiveRuntime F R O → Reloaded
  after_live diff rl (ok _, rt) =
      (ok (applied diff), (record rl { last_result = some "applied" }, rt))
  after_live diff rl (raise e, rt) = (raise e, (rl, rt))

  -- by `needs_restart`
  unfoldable pub apply_diff :
      F → SimulatorConfig F → ReloadDiff → Bool → Reloader F → LiveRuntime F R O → Reloaded
  apply_diff now new diff true rl rt = (
    ok (restart_required diff),
    (record rl { last_reload_ts = some now; last_result = some "restart_required" }, rt),
  )
  apply_diff now new diff false rl rt =
      after_live diff (record rl { last_reload_ts = some now }) (apply_live new diff rt)

  unfoldable pub apply_valid : F → SimulatorConfig F → Reloader F → LiveRuntime F R O → Reloaded
  apply_valid now new rl rt =
      apply_diff now new (compute_diff fl rt.config new).0 (compute_diff fl rt.config new).1 rl rt

  unfoldable pub apply_checked :
      F → SimulatorConfig F → List ConfigError → Reloader F → LiveRuntime F R O → Reloaded
  apply_checked now new [] rl rt = apply_valid now new rl rt
  apply_checked now new (e ∷ errors) rl rt = (
    ok (validation_failed (e ∷ errors)),
    (record rl { last_result = some "validation_failed" }, rt),
  )

  unfoldable pub apply_loaded :
      F → Result String (SimulatorConfig F) → Reloader F → LiveRuntime F R O → Reloaded
  apply_loaded now (raise text) rl rt =
      (ok (read_error text), (record rl { last_result = some "read_error" }, rt))
  apply_loaded now (ok new) rl rt =
      let kept = keep_identity rt.config new in apply_checked now kept (validate_config kept) rl rt

  unfoldable pub apply :
      F → Result String (SimulatorConfig F) → Reloader F → LiveRuntime F R O → Reloaded
  apply now load rl rt = elim rl.source [
    | none ↦ (ok no_source, (rl, rt))
    | some path ↦ apply_loaded now load rl rt
  ]
