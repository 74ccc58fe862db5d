-- ===== src/Rest/Api/Writes.antt =====
-- What a write through the object endpoint can change, and what a freeze does to the simulation.
use bacnet_sim_gateway.Common.{
  String, string_eq, int_eq, pair_eq, Bool, true, false, Option, none, some, List, [], ◌∷◌, Result,
  ok, raise, ◌==◌, contains, ◌≡◌, refl, sym, ◌∙◌, arith, All, Bool-cases, inl, inr, beq_refl,
  if_elim,
}
use bacnet_sim_gateway.Common.Dict.{Dict, lookup, insert, from_items, lookup-insert}
use bacnet_sim_gateway.Models.{Value, FloatOps, BacnetObjectSpec}
use bacnet_sim_gateway.Runtime.App.{Oid, oid_key, writable_oids_of, compute_writable_oids}
use bacnet_sim_gateway.Simulation.Fault.{LiveObject}
use bacnet_sim_gateway.Rest.Reload.{spec_map, spec_items}
use bacnet_sim_gateway.Rest.Api.Defs.{
  AssignError, bad_value, crash, Http, answer, http_exception, server_error, ApiState, ObjectView,
  store, write_present, write_spec, write_object,
}

module _ {F : Type 0} (P : BacnetObjectSpec F → Type 0) where
  -- every value of the dict has the property
  abbrev AllFound : Dict String (BacnetObjectSpec F) → Type 0
  AllFound d = (id : String) (spec : BacnetObjectSpec F) → lookup id d ≡ some spec → P spec

  from_items-AllFound :
      (specs : List (BacnetObjectSpec F)) (d : Dict String (BacnetObjectSpec F))
      → All P specs
      → AllFound d
      → AllFound (from_items (spec_items specs) d)
  unfolding from_items spec_items
  from_items-AllFound [] d h k = k
  from_items-AllFound (s ∷ specs) d h k =
      from_items-AllFound specs (insert s.point_id s d) h.1 (λ id spec found.
        elim (Bool-cases (id == s.point_id)) [
          | inl same ↦
              let same_spec : some s ≡ some spec =
                sym (lookup-insert id s.point_id s d ∙ rw same refl) ∙ found in
              let equal : s ≡ spec = cc in rw (← equal) h.0
          | inr other ↦ k id spec (sym (lookup-insert id s.point_id s d ∙ rw other refl) ∙ found)
        ])

  -- what holds of each object of the list holds of each that is found by its id
  spec_map-AllFound : (specs : List (BacnetObjectSpec F)) → All P specs → AllFound (spec_map specs)
  unfolding spec_map lookup
  spec_map-AllFound specs h =
      from_items-AllFound specs [] h (λ id spec found. absurd (ground arith))

-- the object is among the writable ones if it is writable
abbrev IsListed : {F : Type 0} → List Oid → BacnetObjectSpec F → Type 0
IsListed oids spec = spec.writable ≡ true → contains oids (oid_key spec) ≡ true

module _ {F : Type 0} where
  IsListed-cons :
      (key : Oid) (oids : List Oid) (specs : List (BacnetObjectSpec F))
      → All (IsListed oids) specs
      → All (IsListed (key ∷ oids)) specs
  IsListed-cons key oids [] h = tt
  IsListed-cons key oids (s ∷ specs) h =
      ((λ w. let listed = h.0 w in ground arith), IsListed-cons key oids specs h.1)

  writable_oids_of-IsListed :
      (specs : List (BacnetObjectSpec F)) → All (IsListed (writable_oids_of specs)) specs
  unfolding writable_oids_of
  writable_oids_of-IsListed [] = tt
  writable_oids_of-IsListed (s ∷ specs) =
      if_elim (λ oids. All (IsListed oids) (s ∷ specs)) s.writable
        (oid_key s ∷ writable_oids_of specs) (writable_oids_of specs)
        (λ writable. (
          λ w. ground (arith, beq_refl (oid_key s)),
          IsListed-cons (oid_key s) (writable_oids_of specs) specs
              (writable_oids_of-IsListed specs),
        ))
        (λ shut. (λ w. absurd (ground arith), writable_oids_of-IsListed specs))

-- is the answer one?
abbrev pub is_answer : {A : Type 0} → Http A → Bool
is_answer (answer a) = true
is_answer (http_exception code text) = false
is_answer (server_error text) = false

module _ {F : Type 0} (fl : FloatOps F)
    (assign : LiveObject F → Value F → Result AssignError (Value F)) where
  -- The config and the faults stay, and the objects do at every key but that of the object written; a
  -- request that is not answered changes nothing.
  pub record IsGuarded (q : Oid) (s : ApiState F) (result : Http (ObjectView F) × ApiState F)
      : Type 0 where
    pub same_config : result.1.config ≡ s.config
    pub same_faults : result.1.faults ≡ s.faults
    pub same_object : lookup q result.1.objects ≡ lookup q s.objects
    pub undone : is_answer result.0 ≡ false → result.1 ≡ s

  unchanged : (q : Oid) (s : ApiState F) (h : Http (ObjectView F)) → IsGuarded q s (h, s)
  unchanged q s h = record {
    same_config = refl;
    same_faults = refl;
    same_object = refl;
    undone = λ e. refl;
  }

  store-IsGuarded :
      (q : Oid) (spec : BacnetObjectSpec F) (label : String) (o : LiveObject F)
      (r : Result AssignError (Value F)) (s : ApiState F)
      → (q == oid_key spec) ≡ false
      → IsGuarded q s (store fl assign spec label o r s)
  unfolding store
  store-IsGuarded q spec label o (ok v) s other = record {
    same_config = refl;
    same_faults = refl;
    same_object =
        lookup-insert q (oid_key spec) (record o { present_value = v }) s.objects ∙ rw other refl;
    undone = λ e. absurd (ground arith);
  }
  store-IsGuarded q spec label o (raise (bad_value text)) s other = unchanged q s _
  store-IsGuarded q spec label o (raise (crash text)) s other = unchanged q s _

  write_present-IsGuarded :
      (q : Oid) (spec : BacnetObjectSpec F) (value : Value F) (o : Option (LiveObject F))
      (s : ApiState F)
      → (q == oid_key spec) ≡ false
      → IsGuarded q s (write_present fl assign spec value o s)
  unfolding write_present
  write_present-IsGuarded q spec value none s other = unchanged q s _
  write_present-IsGuarded q spec value (some o) s other =
      store-IsGuarded q spec _ o (assign o value) s other

  write_spec-IsGuarded :
      (q : Oid) (spec : Option (BacnetObjectSpec F)) (value : Value F) (s : ApiState F)
      → ((found : BacnetObjectSpec F)
          → spec ≡ some found
          → found.writable ≡ true
          → (q == oid_key found) ≡ false)
      → IsGuarded q s (write_spec fl assign spec value s)
  unfolding write_spec
  write_spec-IsGuarded q none value s other = unchanged q s _
  write_spec-IsGuarded q (some spec) value s other =
      if_elim (IsGuarded q s) spec.writable _ _
        (λ writable.
          write_present-IsGuarded q spec value (lookup (oid_key spec) s.objects) s
            (other spec refl writable))
        (λ shut. unchanged q s _)

  write_object-IsGuarded :
      (q : Oid) (point_id : String) (value : Value F) (s : ApiState F)
      → contains (compute_writable_oids s.config) q ≡ false
      → IsGuarded q s (write_object fl assign point_id value s)
  unfolding write_object compute_writable_oids
  write_object-IsGuarded q point_id value s locked =
      let listed =
        spec_map-AllFound (IsListed (writable_oids_of s.config.objects)) s.config.objects
          (writable_oids_of-IsListed s.config.objects) in
      write_spec-IsGuarded q (lookup point_id (spec_map s.config.objects)) value s
        (λ spec found writable. elim (Bool-cases (q == oid_key spec)) [
          | inl same ↦
              let equal : q ≡ oid_key spec = (pair_eq.decides q (oid_key spec)).0 same in
              let in_list : contains (writable_oids_of s.config.objects) q ≡ true =
                rw equal (listed point_id spec found writable) in
              absurd (ground arith)
          | inr other ↦ other
        ])

  -- requests to write, one after the other
  unfoldable pub serve_writes : List (String × Value F) → ApiState F → ApiState F
  serve_writes [] s = s
  serve_writes ((point_id, value) ∷ writes) s =
      serve_writes writes (write_object fl assign point_id value s).1

  -- Whatever is written through the endpoint that writes an object, one whose key is not among those
  -- that the application lets a BACnet client write keeps its value, as every object outside of the
  -- config does, and the config and the faults stay as they are. The scenario endpoint is not meant: it
  -- sets the value of any object.
  pub serve_writes-compute_writable_oids :
      (writes : List (String × Value F)) (s : ApiState F) (q : Oid)
      → contains (compute_writable_oids s.config) q ≡ false
      → (lookup q (serve_writes writes s).objects ≡ lookup q s.objects)
        × ((serve_writes writes s).config ≡ s.config)
        × ((serve_writes writes s).faults ≡ s.faults)
  unfolding serve_writes
  serve_writes-compute_writable_oids [] s q locked = (refl, refl, refl)
  serve_writes-compute_writable_oids ((point_id, value) ∷ writes) s q locked =
      let one = write_object-IsGuarded q point_id value s locked in
      let rest =
        serve_writes-compute_writable_oids writes (write_object fl assign point_id value s).1 q
          (rw one.same_config locked) in
      (rest.0 ∙ one.same_object, rest.1 ∙ one.same_config, rest.2 ∙ one.same_faults)
