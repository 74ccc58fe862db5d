-- ===== src/Generator/Totals.antt =====
-- `assign_instances` gives every point a number, an explicit one where no earlier point has it.
use mathlib.Core.Path.{subst}
use bacnet_sim_gateway.Common.{
  sym, ◌+◌, String, string_eq, ℤ, int_eq, ◌≡◌, refl, ap, false, inl, inr, Option-cases, Option,
  none, some, [], ◌∷◌, ◌++◌, arith, ◌==◌, contains, All, IsNodup,
}
use bacnet_sim_gateway.Common.Dict.{Dict, lookup, lookup-insert, lookup-insert_self}
use bacnet_sim_gateway.Models.{BacnetObjectType, object_type_eq, SbcoPoint}
use bacnet_sim_gateway.Generator.Defs.{
  Pairs, Assignment, no_assignment, record_instance, try_explicit, explicit_pass, Counters,
  set_counter, free_instance, auto_pass, assign_instances,
}
use bacnet_sim_gateway.Generator.Assignment.{
  type_of, ids, contains-mark_used, Known_of_Nodup, assign_instances-IsSound,
}

-- `explicit` for another id keeps what is there
lookup-try_explicit :
    (q : String) (n : ℤ) (id : String) (ot : BacnetObjectType) (inst : Option ℤ) (st : Assignment)
    → (q == id) ≡ false
    → lookup q st.result ≡ some n
    → lookup q (try_explicit id ot inst st).result ≡ some n
unfolding try_explicit record_instance
lookup-try_explicit q n id ot none st h found = found
lookup-try_explicit q n id ot (some m) st h found = ground (arith, lookup-insert q id m st.result)

try_explicit_unused :
    (ot : BacnetObjectType) (n : ℤ) (id : String) (t : BacnetObjectType) (inst : Option ℤ)
    (st : Assignment)
    → ¬ ((t ≡ ot) × (inst ≡ some n))
    → contains (st.used ot) n ≡ false
    → contains ((try_explicit id t inst st).used ot) n ≡ false
unfolding try_explicit record_instance
try_explicit_unused ot n id t none st other h = h
try_explicit_unused ot n id t (some m) st other h = ground (
  arith,
  contains-mark_used ot t n m st.used,
  object_type_eq.decides ot t,
  int_eq.decides n m,
  λ (e : t ≡ ot) (f : m ≡ n). other (e, ap some f),
)

try_explicit_takes :
    (id : String) (ot : BacnetObjectType) (n : ℤ) (inst : Option ℤ) (st : Assignment)
    → inst ≡ some n
    → contains (st.used ot) n ≡ false
    → lookup id (try_explicit id ot inst st).result ≡ some n
unfolding try_explicit record_instance
try_explicit_takes id ot n none st asks free = cc
try_explicit_takes id ot n (some m) st asks free = ground (arith, lookup-insert_self id m st.result)

lookup-record_instance :
    (id : String) (ot : BacnetObjectType) (n : ℤ) (st : Assignment)
    → lookup id (record_instance id ot n st).result ≡ some n
unfolding record_instance
lookup-record_instance id ot n st = lookup-insert_self id n st.result

-- the point has a number
abbrev pub Numbered : {F : Type 0} → Dict String ℤ → SbcoPoint F × BacnetObjectType → Type 0
Numbered result (p, ot) = (n : ℤ) × (lookup p.point_id result ≡ some n)

module _ {F : Type 0} where
  -- the second pass keeps what is there
  lookup-auto_pass :
      (q : String) (n : ℤ) (pairs : Pairs F) (st : Assignment) (counters : Counters)
      → lookup q st.result ≡ some n
      → lookup q (auto_pass pairs st counters).result ≡ some n
  unfolding auto_pass record_instance
  lookup-auto_pass q n [] st counters h = h
  lookup-auto_pass q n ((p, ot) ∷ pairs) st counters h =
      elim (Option-cases (lookup p.point_id st.result)) [
        | inl absent ↦
            rw (absent, auto_pass)
              (lookup-auto_pass q n pairs _ _ (
                ground (
                  arith,
                  lookup-insert q p.point_id (ℤ.pos (free_instance ot st counters)) st.result,
                  string_eq.decides q p.point_id,
                )))
        | inr (m, there) ↦ rw (there, auto_pass) (lookup-auto_pass q n pairs st counters h)
      ]

  module _ (p : SbcoPoint F) (ot : BacnetObjectType) (pairs : Pairs F) (st : Assignment)
      (counters : Counters) where
    auto_pass_absent :
        lookup p.point_id st.result ≡ none
        → auto_pass ((p, ot) ∷ pairs) st counters
          ≡ auto_pass pairs
              (record_instance p.point_id ot (ℤ.pos (free_instance ot st counters)) st)
              (set_counter ot (free_instance ot st counters + 1) counters)
    unfolding auto_pass
    auto_pass_absent absent = rw (absent, auto_pass)

    auto_pass_present :
        (m : ℤ)
        → lookup p.point_id st.result ≡ some m
        → auto_pass ((p, ot) ∷ pairs) st counters ≡ auto_pass pairs st counters
    unfolding auto_pass
    auto_pass_present m there = rw (there, auto_pass)

  auto_pass_total :
      (pairs : Pairs F) (st : Assignment) (counters : Counters)
      → All (Numbered (auto_pass pairs st counters).result) pairs
  auto_pass_total [] st counters = tt
  auto_pass_total ((p, ot) ∷ pairs) st counters =
      elim (Option-cases (lookup p.point_id st.result)) [
        | inl absent ↦
            let n = ℤ.pos (free_instance ot st counters) in
            moved (sym (auto_pass_absent p ot pairs st counters absent)) (
              (
                n,
                lookup-auto_pass p.point_id n pairs _ _ (lookup-record_instance p.point_id ot n st),
              ),
              auto_pass_total pairs _ _,
            )
        | inr (m, there) ↦ moved (sym (auto_pass_present p ot pairs st counters m there)) (
          (m, lookup-auto_pass p.point_id m pairs st counters there),
          auto_pass_total pairs st counters,
        )
      ]
    where
      moved :
          {a b : Assignment}
          → a ≡ b
          → All (Numbered a.result) ((p, ot) ∷ pairs)
          → All (Numbered b.result) ((p, ot) ∷ pairs)
      moved = subst (λ (a : Assignment). All (Numbered a.result) ((p, ot) ∷ pairs))

  -- the first pass, over points of other ids, keeps what is there
  lookup-explicit_pass :
      (q : String) (n : ℤ) (pairs : Pairs F) (st : Assignment)
      → contains (ids pairs) q ≡ false
      → lookup q st.result ≡ some n
      → lookup q (explicit_pass pairs st).result ≡ some n
  unfolding explicit_pass
  lookup-explicit_pass q n [] st h found = found
  lookup-explicit_pass q n ((p, ot) ∷ pairs) st h found =
      lookup-explicit_pass q n pairs _ (ground arith)
        (lookup-try_explicit q n p.point_id ot p.instance_no_bacnet st (ground arith) found)

  -- a number that no point of the type asks for is not used by the first pass
  abbrev Asks : BacnetObjectType → ℤ → SbcoPoint F × BacnetObjectType → Type 0
  Asks ot n (p, t) = (t ≡ ot) × (p.instance_no_bacnet ≡ some n)

  explicit_pass_unused :
      (ot : BacnetObjectType) (n : ℤ) (pairs : Pairs F) (st : Assignment)
      → All (λ pr. ¬ Asks ot n pr) pairs
      → contains (st.used ot) n ≡ false
      → contains ((explicit_pass pairs st).used ot) n ≡ false
  unfolding explicit_pass
  explicit_pass_unused ot n [] st none_asks h = h
  explicit_pass_unused ot n ((p, t) ∷ pairs) st none_asks h =
      explicit_pass_unused ot n pairs _ none_asks.1
        (try_explicit_unused ot n p.point_id t p.instance_no_bacnet st (λ e. none_asks.0 e) h)

  explicit_pass-append :
      (before after : Pairs F) (st : Assignment)
      → explicit_pass (before ++ after) st ≡ explicit_pass after (explicit_pass before st)
  unfolding explicit_pass
  explicit_pass-append [] after st = refl
  explicit_pass-append ((p, t) ∷ before) after st = explicit_pass-append before after _

  -- Every point of the list has a number.
  pub assign_instances_total :
      (pairs : Pairs F) → All (Numbered (assign_instances pairs).result) pairs
  unfolding assign_instances
  assign_instances_total pairs = auto_pass_total pairs _ _

  -- A point keeps its explicit number if no earlier point of its type asks for that number, and no
  -- later point has its id.
  pub assign_instances-explicit :
      (before : Pairs F) (p : SbcoPoint F) (ot : BacnetObjectType) (n : ℤ) (after : Pairs F)
      → p.instance_no_bacnet ≡ some n
      → All (λ pr. ¬ Asks ot n pr) before
      → contains (ids after) p.point_id ≡ false
      → lookup p.point_id (assign_instances (before ++ (p, ot) ∷ after)).result ≡ some n
  unfolding assign_instances explicit_pass
  assign_instances-explicit before p ot n after asks free later =
      lookup-auto_pass p.point_id n _ _ _ (
        rw explicit_pass-append (
          lookup-explicit_pass p.point_id n after _ later (
            try_explicit_takes p.point_id ot n p.instance_no_bacnet _ asks
              (explicit_pass_unused ot n before no_assignment free refl))))

-- If the points have different ids, two of them that are of one type and are given the same number
-- are one point.
pub assign_instances-distinct :
    {F : Type 0} (pairs : Pairs F)
    → IsNodup (ids pairs)
    → (q r : String) (ot : BacnetObjectType) (n : ℤ) → lookup q (type_of pairs) ≡ some ot
    → lookup r (type_of pairs) ≡ some ot
    → lookup q (assign_instances pairs).result ≡ some n
    → lookup r (assign_instances pairs).result ≡ some n
    → q ≡ r
assign_instances-distinct pairs distinct =
    (assign_instances-IsSound (type_of pairs) pairs (Known_of_Nodup pairs distinct)).distinct
