-- ===== src/Rest/Reload/Diff.antt =====
-- Which list of the diff a point id is in.
use bacnet_sim_gateway.Common.{
  String, string_eq, int_eq, bool_eq, list_eq, Bool, true, false, not, ◌&&◌, ◌||◌, Option, none,
  some, List, [], ◌∷◌, ◌==◌, is_some, is_empty, contains, ◌≡◌, refl, arith, Bool-cases, inl, inr,
  ◌∙◌, ap, sym, ◌↔◌,
}
use bacnet_sim_gateway.Common.Dict.{Dict, keys, lookup, contains-keys}
use bacnet_sim_gateway.Models.{
  object_type_eq, dict_eq, update_eq, FloatOps, BacnetObjectSpec, SimulatorConfig,
}
use bacnet_sim_gateway.Semantic.{sorted, insert_sorted}
use bacnet_sim_gateway.Rest.Reload.Defs.{
  ReloadDiff, is_structural, spec_map, filter, both, needs_live_update, is_added, is_removed,
  is_restart, is_live, diff_maps, structural_cfg, compute_diff,
}

contains-insert_sorted :
    (t : String) (xs : List String) (a : String)
    → contains (insert_sorted t xs) a ≡ (a == t || contains xs a)
unfolding insert_sorted
contains-insert_sorted t [] a = refl
contains-insert_sorted t (u ∷ xs) a = let ih = contains-insert_sorted t xs a in ground arith

contains-sorted : (xs : List String) (a : String) → contains (sorted xs) a ≡ contains xs a
unfolding sorted
contains-sorted [] a = refl
contains-sorted (x ∷ xs) a =
    contains-insert_sorted x (sorted xs) a ∙ ap (λ b. a == x || b) (contains-sorted xs a)

contains-filter :
    (p : String → Bool) (xs : List String) (a : String)
    → contains (filter p xs) a ≡ (contains xs a && p a)
unfolding filter
contains-filter p [] a = refl
contains-filter p (x ∷ xs) a =
    let ih = contains-filter p xs a in
    elim (Bool-cases (a == x)) [
      | inl same ↦
          let equal : p x ≡ p a = ap p (sym ((string_eq.decides a x).0 same)) in
          elim (Bool-cases (p x)) [ inl pass ↦ ground arith | inr fail ↦ ground arith ]
      | inr other ↦ elim (Bool-cases (p x)) [ inl pass ↦ ground arith | inr fail ↦ ground arith ]
    ]

-- an id that passes a test which holds only for keys of the map
contains-sorted-filter :
    {V : Type 0} (p : String → Bool) (d : Dict String V) (a : String)
    → (p a ≡ true → is_some (lookup a d) ≡ true)
    → contains (sorted (filter p (keys d))) a ≡ p a
contains-sorted-filter p d a known =
    contains-sorted (filter p (keys d)) a
    ∙ contains-filter p (keys d) a
    ∙ ground (arith, contains-keys a d)

is_empty-contains : (xs : List String) (a : String) → is_empty xs ≡ true → contains xs a ≡ false
is_empty-contains [] a h = refl
is_empty-contains (x ∷ xs) a h = absurd (ground arith)

same_slot :
    {F : Type 0} (o n : BacnetObjectSpec F)
    → is_structural o n ≡ false
    → (o.object_type ≡ n.object_type) × (o.object_instance ≡ n.object_instance)
unfolding is_structural
same_slot o n h = ground (
  arith,
  object_type_eq.decides o.object_type n.object_type,
  int_eq.decides o.object_instance n.object_instance,
)

both-some : {A : Type 0} (p : A → A → Bool) (o n : Option A) → both p o n ≡ true → is_some o ≡ true
both-some p none n h = h
both-some p (some o) n h = refl

-- the two objects have one type and number
abbrev pub IsSameSlot : {F : Type 0} → BacnetObjectSpec F → BacnetObjectSpec F → Type 0
IsSameSlot o n = (o.object_type ≡ n.object_type) × (o.object_instance ≡ n.object_instance)

is_structural-IsSameSlot :
    {F : Type 0} (o n : BacnetObjectSpec F) → (is_structural o n ≡ true) ↔ ¬ IsSameSlot o n
unfolding is_structural
is_structural-IsSameSlot o n =
    let types = object_type_eq.decides o.object_type n.object_type in
    let numbers = int_eq.decides o.object_instance n.object_instance in
    (
      λ h slot. let a = slot.0 in let b = slot.1 in ground arith,
      λ h. elim (Bool-cases (is_structural o n)) [
        | inl moved ↦ moved
        | inr stays ↦ absurd (h (same_slot o n stays))
      ],
    )

module _ {F : Type 0} (fl : FloatOps F) where
  -- the two objects agree in what a reload changes live
  abbrev pub IsSameLive : BacnetObjectSpec F → BacnetObjectSpec F → Type 0
  IsSameLive o n =
      (o.writable ≡ n.writable)
      × (o.description ≡ n.description)
      × (o.tags ≡ n.tags)
      × (dict_eq fl o.metadata n.metadata ≡ true)
      × (update_eq fl o.update n.update ≡ true)

  needs_live_update-IsSameLive :
      (o n : BacnetObjectSpec F) → (needs_live_update fl o n ≡ true) ↔ ¬ IsSameLive o n
  unfolding needs_live_update
  needs_live_update-IsSameLive o n =
      let w = bool_eq.decides o.writable n.writable in
      let d = string_eq.decides o.description n.description in
      let t = list_eq.decides o.tags n.tags in
      (
        λ h same. let (a, b, c, m, u) = same in ground arith,
        λ h. elim (Bool-cases (needs_live_update fl o n)) [
          | inl needs ↦ needs
          | inr none_differs ↦
              absurd (h (ground arith, ground arith, ground arith, ground arith, ground arith))
        ],
      )

  -- the objects of an id in the old and the new config
  abbrev Pair :
      (BacnetObjectSpec F → BacnetObjectSpec F → Type 0)
      → Option (BacnetObjectSpec F)
      → Option (BacnetObjectSpec F)
      → Type 0
  Pair P old new =
      (o : BacnetObjectSpec F) × (n : BacnetObjectSpec F) × (old ≡ some o) × (new ≡ some n) × P o n

  -- what the diff says of an id that has these objects in the old and the new config
  abbrev pub IsDiff :
      ReloadDiff → String → Option (BacnetObjectSpec F) → Option (BacnetObjectSpec F) → Type 0
  IsDiff diff id old new =
      ((contains diff.added id ≡ true) ↔ ((old ≡ none) × (n : BacnetObjectSpec F) × (new ≡ some n)))
      × ((contains diff.removed id ≡ true)
          ↔ ((new ≡ none) × (o : BacnetObjectSpec F) × (old ≡ some o)))
      × ((contains diff.modified_restart id ≡ true) ↔ Pair (λ o n. ¬ IsSameSlot o n) old new)
      × ((contains diff.modified_live id ≡ true)
          ↔ Pair (λ o n. IsSameSlot o n × ¬ IsSameLive o n) old new)

  restart_listed :
      (o n : Dict String (BacnetObjectSpec F)) (id : String)
      → contains (diff_maps fl o n).modified_restart id
        ≡ both is_structural (lookup id o) (lookup id n)
  unfolding diff_maps is_restart
  restart_listed o n id =
      contains-sorted-filter (is_restart fl o n) o id (both-some _ (lookup id o) (lookup id n))

  both-Pair :
      (p : BacnetObjectSpec F → BacnetObjectSpec F → Bool)
      (P : BacnetObjectSpec F → BacnetObjectSpec F → Type 0) (old new : Option (BacnetObjectSpec F))
      → ((o n : BacnetObjectSpec F) → (p o n ≡ true) ↔ P o n)
      → (both p old new ≡ true) ↔ Pair P old new
  both-Pair p P none new test = (λ h. absurd (ground arith), λ (o, n, e, f, h). absurd cc)
  both-Pair p P (some o) none test = (λ h. absurd (ground arith), λ (a, b, e, f, h). absurd cc)
  both-Pair p P (some o) (some n) test = (
    λ h. (o, n, refl, refl, (test o n).0 h),
    λ (a, b, e, f, h).
        let same : o ≡ a = cc in let same' : n ≡ b = cc in rw (same, same') ((test a b).1 h),
  )

  moved-or-live :
      (o n : BacnetObjectSpec F)
      → ((not (is_structural o n) && needs_live_update fl o n) ≡ true)
        ↔ (IsSameSlot o n × ¬ IsSameLive o n)
  moved-or-live o n =
      let live = needs_live_update-IsSameLive o n in
      let moved = is_structural-IsSameSlot o n in
      (
        λ h. (same_slot o n (ground arith), live.0 (ground arith)),
        λ h.
            let differs = live.1 h.1 in
            elim (Bool-cases (is_structural o n)) [
              | inl other ↦ absurd (moved.0 other h.0)
              | inr same ↦ ground arith
            ],
      )

  only_one :
      (old new : Option (BacnetObjectSpec F))
      → ((is_some new && not (is_some old)) ≡ true)
        ↔ ((old ≡ none) × (n : BacnetObjectSpec F) × (new ≡ some n))
  only_one none none = (λ h. absurd (ground arith), λ (e, n, f). absurd cc)
  only_one none (some n) = (λ h. (refl, n, refl), λ h. refl)
  only_one (some o) none = (λ h. absurd (ground arith), λ (e, n, f). absurd cc)
  only_one (some o) (some n) = (λ h. absurd (ground arith), λ (e, m, f). absurd cc)

  -- An id is added exactly if only the new config has it, removed exactly if only the old one has it,
  -- modified with a restart exactly if its objects have another type or number, and modified live
  -- exactly if they have not, and differ in the writable flag, the description, the tags, the metadata
  -- or the update.
  pub compute_diff-IsDiff :
      (old new : SimulatorConfig F) (id : String)
      → IsDiff
          (compute_diff fl old new).0
          id
          (lookup id (spec_map old.objects))
          (lookup id (spec_map new.objects))
  unfolding compute_diff diff_maps is_added is_removed is_restart is_live
  compute_diff-IsDiff old new id =
      let o = spec_map old.objects in
      let n = spec_map new.objects in
      let old_one = lookup id o in
      let new_one = lookup id n in
      (
        rw (contains-sorted-filter (is_added fl o n) n id (λ h. ground arith))
            (only_one old_one new_one),
        rw (contains-sorted-filter (is_removed fl o n) o id (λ h. ground arith))
            (only_one new_one old_one),
        rw (restart_listed o n id)
            (both-Pair is_structural _ old_one new_one is_structural-IsSameSlot),
        rw (contains-sorted-filter (is_live fl o n) o id (both-some _ old_one new_one))
            (both-Pair _ _ old_one new_one moved-or-live),
      )

  no_restart_list :
      (old new : SimulatorConfig F)
      → (compute_diff fl old new).1 ≡ false
      → is_empty (compute_diff fl old new).0.modified_restart ≡ true
  unfolding compute_diff
  no_restart_list old new h = ground arith

  no_restart_config :
      (old new : SimulatorConfig F)
      → (compute_diff fl old new).1 ≡ false
      → (old.bbc.device_id ≡ new.bbc.device_id)
        × (old.network.bind_address ≡ new.network.bind_address)
        × (old.network.port ≡ new.network.port)
  unfolding compute_diff structural_cfg
  no_restart_config old new h = ground (
    arith,
    int_eq.decides old.bbc.device_id new.bbc.device_id,
    string_eq.decides old.network.bind_address new.network.bind_address,
    int_eq.decides old.network.port new.network.port,
  )

  -- If no restart is needed, each object that both configs have keeps its type and number, and the
  -- device keeps its id, bind address and port.
  pub compute_diff_no_restart :
      (old new : SimulatorConfig F)
      → (compute_diff fl old new).1 ≡ false
      → ((id : String) (o n : BacnetObjectSpec F)
          → lookup id (spec_map old.objects) ≡ some o
          → lookup id (spec_map new.objects) ≡ some n
          → (o.object_type ≡ n.object_type) × (o.object_instance ≡ n.object_instance))
        × (old.bbc.device_id ≡ new.bbc.device_id)
        × (old.network.bind_address ≡ new.network.bind_address)
        × (old.network.port ≡ new.network.port)
  unfolding compute_diff diff_maps
  compute_diff_no_restart old new h =
      let keeps = no_restart_config old new h in
      (
        λ id o n found_old found_new.
            let listed = restart_listed (spec_map old.objects) (spec_map new.objects) id in
            let none_listed = is_empty-contains _ id (no_restart_list old new h) in
            let found : both is_structural (lookup id (spec_map old.objects))
                  (lookup id (spec_map new.objects))
                ≡ is_structural o n =
              rw (found_old, found_new) in
            same_slot o n (sym found ∙ sym listed ∙ none_listed),
        keeps.0,
        keeps.1,
        keeps.2,
      )
