-- ===== src/PointList/Issues.antt =====
-- What `validate_point_list` accepts, and what it lets escape.
use bacnet_sim_gateway.Common.{
  String, string_eq, false, List, [], ◌∷◌, contains, ◌≡◌, ◌↔◌, refl, arith, All, IsNodup, Result,
  ok, raise,
}
use bacnet_sim_gateway.Common.Text.{is_blank}
use bacnet_sim_gateway.Models.{SbcoPoint, FloatOps}
use bacnet_sim_gateway.PointList.Defs.{
  ReadError, missing_columns, bad_writable, value_error, Row, check_points, read_point_list,
  issues_of_read, validate_point_list,
}

abbrev pub row_ids : {F : Type 0} → List (SbcoPoint F) → List String
row_ids [] = []
row_ids (p ∷ points) = p.point_id ∷ row_ids points

-- Every row has an id, and no two rows the same.
abbrev pub HasDistinctIds : {F : Type 0} → List (SbcoPoint F) → Type 0
HasDistinctIds points = All (λ p. is_blank p.point_id ≡ false) points × IsNodup (row_ids points)

abbrev FreshRows : {F : Type 0} → List String → List (SbcoPoint F) → Type 0
FreshRows seen = All (λ p. contains seen p.point_id ≡ false)

FreshRows-cons :
    {F : Type 0} (id : String) (seen : List String) (points : List (SbcoPoint F))
    → FreshRows (id ∷ seen) points
      ↔ (FreshRows seen points × (contains (row_ids points) id ≡ false))
FreshRows-cons id seen [] = (λ h. (tt, refl), λ h. tt)
FreshRows-cons id seen (p ∷ points) =
    let ih = FreshRows-cons id seen points in
    let e = string_eq.decides id p.point_id in
    let e' = string_eq.decides p.point_id id in
    (
      λ h. let r = ih.0 h.1 in ((ground arith, r.0), ground (arith, r.1)),
      λ h. (ground arith, ih.1 (h.0.1, ground arith)),
    )

check_points_sound :
    {F : Type 0} (seen : List String) (points : List (SbcoPoint F))
    → check_points seen points ≡ []
    → FreshRows seen points × HasDistinctIds points
unfolding check_points
check_points_sound seen [] h = (tt, (tt, tt))
check_points_sound seen (p ∷ points) h =
    let rest : check_points (p.point_id ∷ seen) points ≡ [] = ground arith in
    let (fresh, ids) = check_points_sound (p.point_id ∷ seen) points rest in
    let r = (FreshRows-cons p.point_id seen points).0 fresh in
    ((ground arith, r.0), ((ground arith, ids.0), (r.1, ids.1)))

check_points_complete :
    {F : Type 0} (seen : List String) (points : List (SbcoPoint F))
    → FreshRows seen points
    → HasDistinctIds points
    → check_points seen points ≡ []
unfolding check_points
check_points_complete seen [] fresh h = refl
check_points_complete seen (p ∷ points) fresh h =
    rw (h.0.0, fresh.0)
      (check_points_complete (p.point_id ∷ seen) points
        ((FreshRows-cons p.point_id seen points).1 (fresh.1, h.1.0)) (h.0.1, h.1.1))

no_seen : {F : Type 0} (points : List (SbcoPoint F)) → FreshRows [] points
no_seen [] = tt
no_seen (p ∷ points) = (refl, no_seen points)

pub check_points-HasDistinctIds :
    {F : Type 0} (points : List (SbcoPoint F))
    → (check_points [] points ≡ []) ↔ HasDistinctIds points
check_points-HasDistinctIds points = (
  λ h. (check_points_sound [] points h).1,
  λ h. check_points_complete [] points (no_seen points) h,
)

module _ {F : Type 0} where
  no_issues :
      (r : Result ReadError (List (SbcoPoint F)))
      → (issues_of_read r ≡ ok [])
        ↔ ((points : List (SbcoPoint F)) × (r ≡ ok points) × HasDistinctIds points)
  unfolding issues_of_read
  no_issues (ok points) = (
    λ h. (points, refl, (check_points-HasDistinctIds points).0 (ground arith)),
    λ (ps, e, d).
        let same : points ≡ ps = ground arith in
        rw same (rw ((check_points-HasDistinctIds ps).1 d) refl),
  )
  no_issues (raise (missing_columns cs)) = (λ h. cc, λ (ps, e, d). cc)
  no_issues (raise (bad_writable v)) = (λ h. cc, λ (ps, e, d). cc)
  no_issues (raise (value_error v)) = (λ h. cc, λ (ps, e, d). cc)

module _ {F : Type 0} (fl : FloatOps F) (header : List String) (rows : List Row) where
  -- Validation reports no issue exactly when the list is read and every row has an id of its own.
  pub validate_point_list-HasDistinctIds : (validate_point_list fl header rows ≡ ok []) ↔ (
      (points : List (SbcoPoint F)) × (read_point_list fl header rows ≡ ok points)
      × HasDistinctIds points)
  unfolding validate_point_list
  validate_point_list-HasDistinctIds = no_issues (read_point_list fl header rows)
