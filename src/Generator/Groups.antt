-- ===== src/Generator/Groups.antt =====
-- The points of a valid list in their groups: each group is valid by itself.
use bacnet_sim_gateway.Common.{
  String, string_eq, nat_eq, int_eq, true, false, ◌||◌, List, [], ◌∷◌, ◌++◌, contains, ◌==◌, ◌≡◌,
  refl, sym, ◌∙◌, ap, arith, All, All-append, IsNodup, contains-append, inl, inr, Bool-cases,
}
use bacnet_sim_gateway.Common.Text.{is_blank}
use bacnet_sim_gateway.Common.Dict.{Dict, lookup, insert}
use bacnet_sim_gateway.Semantic.{get_or}
use bacnet_sim_gateway.Models.{SbcoPoint}
use bacnet_sim_gateway.PointList.{check_points}
use bacnet_sim_gateway.PointList.Issues.{row_ids}
use bacnet_sim_gateway.Generator.Build.{add_to_group, group_points}
use bacnet_sim_gateway.Generator.Valid.{IsLabelled}

-- every value of the dict has the property
abbrev pub AllValues : {V : Type 0} → (V → Type 0) → Dict String V → Type 0
AllValues P [] = Unit
AllValues P ((k, v) ∷ d) = P v × AllValues P d

module _ {V : Type 0} (P : V → Type 0) where
  AllValues-insert :
      (k : String) (v : V) (d : Dict String V) → P v → AllValues P d → AllValues P (insert k v d)
  unfolding insert
  AllValues-insert k v [] h a = (h, tt)
  AllValues-insert k v ((j, w) ∷ d) h a = elim (Bool-cases (k == j)) [
    | inl same ↦ rw same (h, a.1)
    | inr other ↦ rw other (a.0, AllValues-insert k v d h a.1)
  ]

  AllValues-lookup :
      (k : String) (default : V) (d : Dict String V)
      → P default
      → AllValues P d
      → P (get_or (lookup k d) default)
  unfolding lookup
  AllValues-lookup k default [] h a = h
  AllValues-lookup k default ((j, w) ∷ d) h a = elim (Bool-cases (k == j)) [
    | inl same ↦ rw same a.0
    | inr other ↦ rw other (AllValues-lookup k default d h a.1)
  ]

AllValues-map :
    {V : Type 0} (P Q : V → Type 0) (d : Dict String V)
    → ((v : V) → P v → Q v)
    → AllValues P d
    → AllValues Q d
AllValues-map P Q [] f a = tt
AllValues-map P Q ((k, v) ∷ d) f a = (f v a.0, AllValues-map P Q d f a.1)

IsNodup-append :
    (ids : List String) (a : String)
    → IsNodup ids
    → contains ids a ≡ false
    → IsNodup (ids ++ a ∷ [])
IsNodup-append [] a h fresh = (refl, tt)
IsNodup-append (x ∷ ids) a h fresh =
    let e = string_eq.decides x a in
    let e' = string_eq.decides a x in
    (ground (arith, contains-append ids (a ∷ []) x), IsNodup-append ids a h.1 (ground arith))

module _ {F : Type 0} where
  -- a group of points whose ids were seen
  pub record IsGroup (seen : List String) (group : List (SbcoPoint F)) : Type 0 where
    pub named : All (λ (p : SbcoPoint F). is_blank p.point_id ≡ false) group
    pub distinct : IsNodup (row_ids group)
    pub labelled : All IsLabelled group
    pub among : (id : String) → contains (row_ids group) id ≡ true → contains seen id ≡ true

  row_ids-append :
      (xs : List (SbcoPoint F)) (p : SbcoPoint F)
      → row_ids (xs ++ p ∷ []) ≡ row_ids xs ++ p.point_id ∷ []
  row_ids-append [] p = refl
  row_ids-append (x ∷ xs) p = ap (◌∷◌ x.point_id) (row_ids-append xs p)

  IsGroup-append :
      (seen : List String) (group : List (SbcoPoint F)) (p : SbcoPoint F)
      → IsGroup seen group
      → is_blank p.point_id ≡ false
      → IsLabelled p
      → contains seen p.point_id ≡ false
      → IsGroup (p.point_id ∷ seen) (group ++ p ∷ [])
  IsGroup-append seen group p g named labelled fresh =
      let ids = row_ids-append group p in
      let unused : contains (row_ids group) p.point_id ≡ false =
        elim (Bool-cases (contains (row_ids group) p.point_id)) [
          | inl used ↦ let old = g.among p.point_id used in absurd (ground arith)
          | inr free ↦ free
        ] in
      record {
        named = All-append _ group (p ∷ []) g.named (named, tt);
        distinct = rw ids (IsNodup-append (row_ids group) p.point_id g.distinct unused);
        labelled = All-append IsLabelled group (p ∷ []) g.labelled (labelled, tt);
        among = λ id there.
            let split : (contains (row_ids group) id || contains (p.point_id ∷ []) id) ≡ true =
              sym (contains-append (row_ids group) (p.point_id ∷ []) id) ∙ rw ids at there in
            let old = g.among id in
            elim (Bool-cases (contains (row_ids group) id)) [
              | inl inside ↦ let was = old inside in ground arith
              | inr outside ↦ ground arith
            ];
      }

  -- the groups hold the points, each once
  pub group_points-IsGroup :
      (points : List (SbcoPoint F)) (seen : List String) (groups : Dict String (List (SbcoPoint F)))
      → check_points seen points ≡ []
      → All IsLabelled points
      → AllValues (IsGroup seen) groups
      → (all_seen : List String) × AllValues (IsGroup all_seen) (group_points points groups)
  unfolding group_points add_to_group check_points
  group_points-IsGroup [] seen groups checked labelled h = (seen, h)
  group_points-IsGroup (p ∷ points) seen groups checked labelled h =
      let fresh : contains seen p.point_id ≡ false = ground arith in
      let named : is_blank p.point_id ≡ false = ground arith in
      let rest : check_points (p.point_id ∷ seen) points ≡ [] = ground arith in
      let empty : IsGroup seen [] = record {
        named = tt;
        distinct = tt;
        labelled = tt;
        among = λ id e. absurd (ground arith);
      } in
      let group = AllValues-lookup (IsGroup seen) p.device_id_bacnet [] groups empty h in
      let wider =
        AllValues-map (IsGroup seen) (IsGroup (p.point_id ∷ seen)) groups
          (λ g ok. record {
            named = ok.named;
            distinct = ok.distinct;
            labelled = ok.labelled;
            among = λ id there. let was = ok.among id there in ground arith;
          })
          h in
      group_points-IsGroup points (p.point_id ∷ seen) _ rest labelled.1 (
        AllValues-insert (IsGroup (p.point_id ∷ seen)) p.device_id_bacnet _ groups
          (IsGroup-append seen _ p group named labelled.0 fresh) wider)
