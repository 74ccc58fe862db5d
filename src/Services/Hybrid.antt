-- ===== src/Services/Hybrid.antt =====
-- The acquisition over a device: the batch and the reads of single objects together give what reads
-- of single objects alone give.
use bacnet_sim_gateway.Common.{
  String, string_eq, ◌<>◌, ℤ, Option, none, some, List, [], ◌∷◌, map, Result, ok, raise, ◌≡◌, refl,
  arith, ◌⊎◌, inl, inr,
}
use bacnet_sim_gateway.Common.Dict.{Dict, lookup, insert, lookup-insert}
use bacnet_sim_gateway.Models.{Value}
use bacnet_sim_gateway.Bows.Uplink.{Reading}
use bacnet_sim_gateway.Bows.Acquire.{
  Answer, Point, points_of, idents, reading_of, add_reading, value_of, batch_or_empty, read_points,
  read_all, acquire_listed, acquire_found, acquire,
}
use bacnet_sim_gateway.Services.Defs.{
  RpmResult, error_type, with_value, Network, present_value_name, map_answer, multiple_args,
  collect_one, collect, whois, read_property, read_present_values, read_object_list, client_of,
}

-- the present values of a device; an object without one cannot be read
abbrev pub Values : Type 0 → Type 0
Values F = String → Option (Value F)

module _ {F : Type 0} where
  abbrev pub read_of_values : Values F → (String → String) → String → Result String (Value F)
  read_of_values values error ident = elim (values ident) [
    | none ↦ raise (error ident)
    | some v ↦ ok v
  ]

  abbrev pub entry_of_values : Values F → String → RpmResult F
  entry_of_values values ident = elim (values ident) [ none ↦ error_type | some v ↦ with_value v ]

  -- the readings of the points that can be read
  abbrev pub plain_readings : {T : Type 0} → Values F → List Point → List (Reading F T)
  plain_readings values [] = []
  plain_readings values (p ∷ points) =
      let rest = plain_readings values points in
      elim (values p.ident) [ none ↦ rest | some v ↦ reading_of p v ∷ rest ]

-- A network on which one device is found, whose answers do not depend on the calls before: a request
-- for several values is answered in the order of the request, or fails as a whole.
pub record IsDevice {F S : Type 0} (net : Network F S) (show : ℤ → String) (device : ℤ)
    (objects : List (String × ℤ)) (values : Values F) (error : String → String) : Type 0 where
  pub found :
      (s : S)
      → (address : String) × (others : List (ℤ × String)) × ((net.who_is none none s).0
          ≡ ok ((device, address) ∷ others))
  pub listed : (s : S) → (net.read_list ("device," <> show device) "object-list" s).0 ≡ ok objects
  pub single :
      (ident : String) (s : S)
      → (net.read_value ident present_value_name s).0 ≡ read_of_values values error ident
  pub several :
      (objids : List String) (s : S)
      → ((net.read_multiple (multiple_args objids) s).0 ≡ ok (map (entry_of_values values) objids))
        ⊎ ((e : String) × ((net.read_multiple (multiple_args objids) s).0 ≡ raise e))

-- every value of the batch is that of the device
abbrev IsTrue : {F : Type 0} → Values F → Dict String (Value F) → Type 0
IsTrue {F} values batched =
    (ident : String) (v : Value F) → lookup ident batched ≡ some v → values ident ≡ some v

module _ {F : Type 0} (values : Values F) where
  insert-IsTrue :
      (ident : String) (v : Value F) (out : Dict String (Value F))
      → values ident ≡ some v
      → IsTrue values out
      → IsTrue values (insert ident v out)
  insert-IsTrue ident v out own old j w h =
      ground (arith, lookup-insert j ident v out, string_eq.decides j ident, old j w)

  collect_one-IsTrue :
      (ident : String) (o : Option (Value F)) (out : Dict String (Value F))
      → values ident ≡ o
      → IsTrue values out
      → IsTrue values (collect_one ident (elim o [ none ↦ error_type | some v ↦ with_value v ]) out)
  unfolding collect_one
  collect_one-IsTrue ident none out e old = old
  collect_one-IsTrue ident (some Value.null) out e old = old
  collect_one-IsTrue ident (some (Value.bool b)) out e old = insert-IsTrue ident _ out e old
  collect_one-IsTrue ident (some (Value.int i)) out e old = insert-IsTrue ident _ out e old
  collect_one-IsTrue ident (some (Value.real x)) out e old = insert-IsTrue ident _ out e old
  collect_one-IsTrue ident (some (Value.text t)) out e old = insert-IsTrue ident _ out e old
  collect_one-IsTrue ident (some (Value.arr xs)) out e old = insert-IsTrue ident _ out e old
  collect_one-IsTrue ident (some (Value.obj d)) out e old = insert-IsTrue ident _ out e old

  collect-IsTrue :
      (objids : List String) (out : Dict String (Value F))
      → IsTrue values out
      → IsTrue values (collect objids (map (entry_of_values values) objids) out)
  unfolding collect
  collect-IsTrue [] out old = old
  collect-IsTrue (ident ∷ objids) out old =
      collect-IsTrue objids _ (collect_one-IsTrue ident (values ident) out refl old)

  no_values : IsTrue values []
  unfolding lookup
  no_values ident v h = absurd cc

  batch_of_answer :
      {S : Type 0} (objids : List String) (answer : Answer S (List (RpmResult F)))
      → (answer.0 ≡ ok (map (entry_of_values values) objids))
        ⊎ ((e : String) × (answer.0 ≡ raise e))
      → IsTrue values (batch_or_empty (map_answer (λ results. collect objids results []) answer).0)
  unfolding batch_or_empty
  batch_of_answer objids (ok results, s) (inl all) =
      let same : results ≡ map (entry_of_values values) objids = cc in
      rw same (collect-IsTrue objids [] no_values)
  batch_of_answer objids (ok results, s) (inr (e, failed)) = absurd cc
  batch_of_answer objids (raise e, s) outcome = no_values

module _ {F S : Type 0} (net : Network F S) (show : ℤ → String) (device : ℤ)
    (objects : List (String × ℤ)) (values : Values F) (error : String → String)
    (dev : IsDevice net show device objects values error) where
  batch-IsTrue :
      (objids : List String) (s : S)
      → IsTrue values (batch_or_empty (read_present_values net objids s).0)
  unfolding batch_or_empty read_present_values
  batch-IsTrue [] s = no_values values
  batch-IsTrue (ident ∷ objids) s =
      batch_of_answer values (ident ∷ objids) _ (dev.several (ident ∷ objids) s)

  value_of-read_of_values :
      (batched : Dict String (Value F)) (ident : String) (s : S) (o : Option (Value F))
      → IsTrue values batched
      → lookup ident batched ≡ o
      → (value_of (client_of net show) o ident s).0 ≡ read_of_values values error ident
  unfolding value_of client_of read_property
  value_of-read_of_values batched ident s none true_values h = dev.single ident s
  value_of-read_of_values batched ident s (some v) true_values h =
      rw (true_values ident v h, read_of_values) refl

  module _ {T : Type 0} where
    add_reading-plain :
        (p : Point) (o : Option (Value F)) (rest : List (Reading F T))
        → add_reading p (elim o [ none ↦ raise (error p.ident) | some v ↦ ok v ]) rest
          ≡ elim o [ none ↦ rest | some v ↦ reading_of p v ∷ rest ]
    unfolding add_reading
    add_reading-plain p none rest = refl
    add_reading-plain p (some v) rest = refl

    read_points-plain_readings :
        (batched : Dict String (Value F)) (points : List Point) (s : S)
        → IsTrue values batched
        → (read_points {T = T} (client_of net show) batched points s).0
          ≡ plain_readings values points
    unfolding read_points add_reading
    read_points-plain_readings batched [] s true_values = refl
    read_points-plain_readings batched (p ∷ points) s true_values =
        let read =
          value_of-read_of_values batched p.ident s (lookup p.ident batched) true_values refl in
        rw (read, read_points-plain_readings batched points _ true_values)
          (add_reading-plain p (values p.ident) (plain_readings values points))

    listed-plain_readings :
        (answer : Answer S (List (String × ℤ)))
        → answer.0 ≡ ok objects
        → (acquire_listed {T = T} (client_of net show) show device answer).0
          ≡ ok (device, plain_readings values (points_of show objects))
    unfolding acquire_listed read_all client_of
    listed-plain_readings (raise e, s) h = absurd cc
    listed-plain_readings (ok objs, s) h =
        let same : objs ≡ objects = cc in
        let points = points_of show objects in
        rw (same, read_points-plain_readings _ points _ (batch-IsTrue (idents points) s)) refl

    found-plain_readings :
        (answer : Answer S (List (ℤ × String))) (address : String) (others : List (ℤ × String))
        → answer.0 ≡ ok ((device, address) ∷ others)
        → (acquire_found {T = T}
            (client_of net show)
            show
            (map_answer (map (λ iam. iam.0)) answer)).0
          ≡ ok (device, plain_readings values (points_of show objects))
    unfolding acquire_found client_of read_object_list
    found-plain_readings (raise e, s) address others h = absurd cc
    found-plain_readings (ok [], s) address others h = absurd cc
    found-plain_readings (ok ((d, a) ∷ found), s) address others h =
        let same : d ≡ device = ground arith in rw same (listed-plain_readings _ (dev.listed s))

    -- On a network whose answers come from one device and do not depend on the calls before, the
    -- acquisition gives the device and a reading of each of its points that can be read, with the
    -- value that the device has, in the order of the object list: whether the request for all the
    -- values is answered, with errors for some of them, or fails as a whole.
    pub acquire-plain_readings :
        (s : S)
        → (acquire {T = T} (client_of net show) show s).0
          ≡ ok (device, plain_readings values (points_of show objects))
    unfolding acquire client_of whois
    acquire-plain_readings s =
        let (address, others, found) = dev.found s in
        found-plain_readings (net.who_is none none s) address others found
