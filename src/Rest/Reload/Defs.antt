-- ===== src/Rest/Reload/Defs.antt =====
-- `ReloadDiff` and `_compute_diff`. The sets of point ids are the keys of the maps.
use bacnet_sim_gateway.Common.{
  String, string_eq, int_eq, bool_eq, list_eq, Bool, false, not, ◌&&◌, ◌||◌, Option, none, some,
  List, [], ◌∷◌, ◌==◌, is_some, is_empty, if◌then◌else◌,
}
use bacnet_sim_gateway.Common.Dict.{Dict, keys, lookup, from_items}
use bacnet_sim_gateway.Models.{
  object_type_eq, FloatOps, BacnetObjectSpec, SimulatorConfig, dict_eq, update_eq,
}
use bacnet_sim_gateway.Semantic.{sorted}

pub record ReloadDiff : Type 0 where
  pub added : List String
  pub removed : List String
  pub modified_live : List String
  pub modified_restart : List String

module _ {F : Type 0} where
  unfoldable pub is_structural : BacnetObjectSpec F → BacnetObjectSpec F → Bool
  is_structural old new =
      not (old.object_type == new.object_type) || not (old.object_instance == new.object_instance)

  -- `{s.point_id: s for s in objects}`
  unfoldable pub spec_items : List (BacnetObjectSpec F) → List (String × BacnetObjectSpec F)
  spec_items [] = []
  spec_items (s ∷ specs) = (s.point_id, s) ∷ spec_items specs

  unfoldable pub spec_map : List (BacnetObjectSpec F) → Dict String (BacnetObjectSpec F)
  spec_map specs = from_items (spec_items specs) []

-- a test of the objects of an id that is in both maps
abbrev pub both : {A : Type 0} → (A → A → Bool) → Option A → Option A → Bool
both p none n = false
both p (some o) none = false
both p (some o) (some n) = p o n

-- the elements that pass a test
unfoldable pub filter : (String → Bool) → List String → List String
filter p [] = []
filter p (x ∷ xs) = let rest = filter p xs in if p x then x ∷ rest else rest

module _ {F : Type 0} (fl : FloatOps F) where
  unfoldable pub needs_live_update : BacnetObjectSpec F → BacnetObjectSpec F → Bool
  needs_live_update old new =
      not (old.writable == new.writable)
      || not (old.description == new.description)
      || not (old.tags == new.tags)
      || not (dict_eq fl old.metadata new.metadata)
      || not (update_eq fl old.update new.update)

  module _ (old_map new_map : Dict String (BacnetObjectSpec F)) where
    -- the tests of the loops over `sorted(…)`; the id of a third loop is in both maps
    unfoldable pub is_added : String → Bool
    is_added id = is_some (lookup id new_map) && not (is_some (lookup id old_map))

    unfoldable pub is_removed : String → Bool
    is_removed id = is_some (lookup id old_map) && not (is_some (lookup id new_map))

    unfoldable pub is_restart : String → Bool
    is_restart id = both is_structural (lookup id old_map) (lookup id new_map)

    unfoldable pub is_live : String → Bool
    is_live id =
        both (λ old new. not (is_structural old new) && needs_live_update old new)
          (lookup id old_map) (lookup id new_map)

    unfoldable pub diff_maps : ReloadDiff
    diff_maps = record {
      added = sorted (filter is_added (keys new_map));
      removed = sorted (filter is_removed (keys old_map));
      modified_live = sorted (filter is_live (keys old_map));
      modified_restart = sorted (filter is_restart (keys old_map));
    }

  unfoldable pub structural_cfg : SimulatorConfig F → SimulatorConfig F → Bool
  structural_cfg old new =
      not (old.bbc.device_id == new.bbc.device_id)
      || not (old.network.bind_address == new.network.bind_address)
      || not (old.network.port == new.network.port)

  unfoldable pub compute_diff : SimulatorConfig F → SimulatorConfig F → ReloadDiff × Bool
  compute_diff old new =
      let diff = diff_maps (spec_map old.objects) (spec_map new.objects) in
      (diff, not (is_empty diff.modified_restart) || structural_cfg old new)
