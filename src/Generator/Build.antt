-- ===== src/Generator/Build.antt =====
-- `generate_config` and `generate_multi_device_config` of
-- src/bbc_sim/yaml_generator/generator.py. `none` is the KeyError of `instances[p.point_id]`.
use bacnet_sim_gateway.Common.{
  ℕ, suc, ◌+◌, String, string_eq, ◌<>◌, ℤ, int_eq, add_ℕ, false, Option, none, some, List, [], ◌∷◌,
  ◌++◌, ◌==◌, nat_eq, contains, if◌then◌else◌,
}
use bacnet_sim_gateway.Common.Text.{is_blank}
use bacnet_sim_gateway.Common.Dict.{Dict, lookup, insert}
use bacnet_sim_gateway.Models.{
  BacnetObjectType, is_analog, is_binary, is_multistate, SbcoPoint, Value, Fields, FloatOps,
  text_items, BacnetObjectSpec, SimulatorConfig, MultiDeviceConfig, multi_device, RuntimeMode,
  default_network, default_bbc,
}
use bacnet_sim_gateway.Units.{to_bacnet_units}
use bacnet_sim_gateway.Semantic.{derive_tags, has_mapping, get_or}
use bacnet_sim_gateway.Mapping.{Warning, unknown_unit, no_brick_mapping, resolve_object_type}
use bacnet_sim_gateway.Generator.Defs.{Pairs, assign_instances}

-- `list(dict.fromkeys(items))`: the first of equal items stays
unfoldable pub dedup_onto : List String → List String → List String
dedup_onto kept [] = kept
dedup_onto kept (t ∷ items) = dedup_onto (if contains kept t then kept else kept ++ t ∷ []) items

-- `Counter(names)[name]`
unfoldable pub count_name : String → List String → ℕ
count_name name [] = 0
count_name name (n ∷ names) = (if n == name then 1 else 0) + count_name name names

-- the texts of a binary object, `(inactive, active)`
unfoldable pub binary_texts : List String → Option String × Option String
binary_texts (inactive ∷ active ∷ []) = (some inactive, some active)
binary_texts _ = (none, none)

-- `p.point_name if count == 1 else f"{p.point_name} ({p.point_id})"`
unfoldable pub display_name : List String → String → String → String
display_name names name id = if count_name name names == 1 then name else name <> " (" <> id <> ")"

-- an empty `default_update_mode` is no mode
unfoldable pub mode_or_none : Option String → Option String
mode_or_none none = none
mode_or_none (some m) = if is_blank m then none else some m

module _ {F : Type 0} (fl : FloatOps F) where
  unfoldable pub clamp_low : Option F → F → F
  clamp_low none value = value
  clamp_low (some lo) value = if fl.lt value lo then lo else value

  unfoldable pub clamp_high : Option F → F → F
  clamp_high none value = value
  clamp_high (some hi) value = if fl.lt hi value then hi else value

  unfoldable pub default_present_value : BacnetObjectType → SbcoPoint F → Value F
  default_present_value ot point =
      if is_analog ot
      then Value.real
          (clamp_high point.max_pres_value (clamp_low point.min_pres_value (fl.of_int (ℤ.pos 0))))
      else if is_binary ot
      then Value.bool false
      else Value.int (ℤ.pos 1)

module _ {F : Type 0} where
  unfoldable pub point_metadata : SbcoPoint F → Fields F
  point_metadata p = Fields.field "gateway_id" (Value.text p.gateway_id) (
      Fields.field "device_id" (Value.text p.device_id) (
        Fields.field "device_name" (Value.text p.device_name) (
          Fields.field "device_type" (Value.text p.device_type) (
            Fields.field "point_type" (Value.text p.point_type) (
              Fields.field "building" (Value.text p.building) (
                Fields.field "floor" (Value.text p.floor) (
                  Fields.field "installation_area" (Value.text p.installation_area) (
                    Fields.field "local_id" (Value.text p.local_id) (
                      Fields.field "search_tags" (Value.arr (text_items (dedup_onto [] p.tags)))
                        Fields.end)))))))))

  -- the units of an analog object, with the warning of an unknown one
  unfoldable pub object_units : BacnetObjectType → SbcoPoint F → Option String × List Warning
  object_units ot p =
      if is_analog ot
      then (let (units, warning) = to_bacnet_units p.unit in
          (some units, elim warning [ none ↦ [] | some u ↦ unknown_unit p.point_id u ∷ [] ]))
      else (none, [])

  unfoldable pub object_warnings : BacnetObjectType → SbcoPoint F → List Warning
  object_warnings ot p =
      (object_units ot p).1
      ++ (if has_mapping p.device_type p.point_type
          then []
          else no_brick_mapping p.point_id p.device_type p.point_type ∷ [])

  -- the first pass over the points: types, and the warnings of the resolution
  unfoldable pub resolve_all : List (SbcoPoint F) → Pairs F × List Warning
  resolve_all [] = ([], [])
  resolve_all (p ∷ points) =
      let (ot, w) = resolve_object_type p in
      let (pairs, ws) = resolve_all points in ((p, ot) ∷ pairs, w ++ ws)

  unfoldable pub all_object_warnings : Pairs F → List Warning
  all_object_warnings [] = []
  all_object_warnings ((p, ot) ∷ pairs) = object_warnings ot p ++ all_object_warnings pairs

  -- `groups[p.device_id_bacnet].append(p)`
  unfoldable pub add_to_group :
      SbcoPoint F → Dict String (List (SbcoPoint F)) → Dict String (List (SbcoPoint F))
  add_to_group p groups =
      insert p.device_id_bacnet (get_or (lookup p.device_id_bacnet groups) [] ++ p ∷ []) groups

  unfoldable pub group_points :
      List (SbcoPoint F) → Dict String (List (SbcoPoint F)) → Dict String (List (SbcoPoint F))
  group_points [] groups = groups
  group_points (p ∷ points) groups = group_points points (add_to_group p groups)

  abbrev pub point_names : Pairs F → List String
  point_names [] = []
  point_names ((p, ot) ∷ pairs) = p.point_name ∷ point_names pairs

module _ {F : Type 0} (fl : FloatOps F) where
  unfoldable pub object_spec :
      Option String → List String → SbcoPoint F → BacnetObjectType → ℤ → BacnetObjectSpec F
  object_spec update_mode names p ot instance_no =
      let texts = if is_binary ot then binary_texts p.labels else (none, none) in
      record {
        point_id = p.point_id;
        object_type = ot;
        object_instance = instance_no;
        object_name = display_name names p.point_name p.point_id;
        present_value = default_present_value fl ot p;
        units = (object_units ot p).0;
        min_pres_value = p.min_pres_value;
        max_pres_value = p.max_pres_value;
        state_text = if is_multistate ot then p.labels else [];
        active_text = texts.1;
        inactive_text = texts.0;
        scale = p.scale;
        writable = p.writable;
        description = p.description;
        update = record {
          interval = p.interval;
          mode = mode_or_none update_mode;
          params = Fields.end;
        };
        metadata = point_metadata p;
        binding = none;
        tags = derive_tags p.device_type p.point_type;
      }

  unfoldable pub build_objects :
      Option String → List String → Dict String ℤ → Pairs F → Option (List (BacnetObjectSpec F))
  build_objects update_mode names instances [] = some []
  build_objects update_mode names instances ((p, ot) ∷ pairs) =
      let rest = build_objects update_mode names instances pairs in
      elim (lookup p.point_id instances) [
        | none ↦ none
        | some n ↦ elim rest [
          | none ↦ none
          | some objects ↦ some (object_spec update_mode names p ot n ∷ objects)
        ]
      ]

  unfoldable pub generate_config :
      List (SbcoPoint F)
      → String
      → ℤ
      → String
      → Option String
      → Option (SimulatorConfig F × List Warning)
  generate_config points bbc_id device_id object_name update_mode =
      let pairs = (resolve_all points).0 in
      let assigned = assign_instances pairs in
      elim (build_objects update_mode (point_names pairs) assigned.result pairs) [
        | none ↦ none
        | some objects ↦ some (
          record {
            bbc = default_bbc bbc_id device_id object_name;
            network = default_network;
            objects = objects;
            mode = RuntimeMode.simulator;
          },
          (resolve_all points).1 ++ (assigned.warnings ++ all_object_warnings pairs),
        )
      ]

  -- the loop over the groups; `offset` counts them, and `show` is `str` of a number
  unfoldable pub generate_devices :
      ℕ
      → Dict String (List (SbcoPoint F))
      → String
      → ℤ
      → String
      → Option String
      → Option (List (SimulatorConfig F) × List Warning)
  generate_devices offset [] base_bbc_id base_device_id object_name update_mode = some ([], [])
  generate_devices offset ((key, group) ∷ groups) base_bbc_id base_device_id object_name
        update_mode =
      let suffix = "-" <> fl.show_int (ℤ.pos offset) in
      let rest =
        generate_devices (suc offset) groups base_bbc_id base_device_id object_name update_mode in
      elim (generate_config group (base_bbc_id <> suffix) (add_ℕ base_device_id offset)
        (if is_blank key then object_name <> suffix else key) update_mode) [
          | none ↦ none
          | some (cfg, ws) ↦ elim rest [
            | none ↦ none
            | some (cfgs, more) ↦ some (cfg ∷ cfgs, ws ++ more)
          ]
        ]

  unfoldable pub generate_multi_device_config :
      List (SbcoPoint F)
      → String
      → ℤ
      → String
      → Option String
      → Option (MultiDeviceConfig F × List Warning)
  generate_multi_device_config points base_bbc_id base_device_id object_name update_mode =
      elim (generate_devices 0 (group_points points []) base_bbc_id base_device_id object_name
        update_mode) [
          | none ↦ none
          | some (cfgs, ws) ↦ some (record { devices = cfgs; device_mapping = multi_device }, ws)
        ]
