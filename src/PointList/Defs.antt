-- ===== src/PointList/Defs.antt =====
-- The functions of src/bbc_sim/yaml_generator/pointlist.py.
use Prim.Native.Char.{Char, code}
use bacnet_sim_gateway.Common.{
  ℕ, String, ℤ, Bool, true, false, ◌&&◌, Option, none, some, List, [], ◌∷◌, ◌++◌, Result, ok, raise,
  ◌>>=◌, traverse, or_raise, ◌==◌, nat_eq, string_eq, list_eq, contains, if◌then◌else◌, is_empty,
}
use bacnet_sim_gateway.Common.Text.{codes, is_blank, strip, lower}
use bacnet_sim_gateway.Common.Dict.{Dict, lookup}
use bacnet_sim_gateway.Models.{SbcoPoint, FloatOps}

-- `PointListError` is the first two; the third is the ValueError of `int` and `float`.
pub data ReadError : Type 0 where
  missing_columns : List String → ReadError
  bad_writable : String → ReadError
  value_error : String → ReadError

abbrev pub Row : Type 0
Row = Dict String (Option String)

abbrev pub required_columns : List String
required_columns =
    "gateway_id" ∷ "point_id" ∷ "point_name" ∷ "point_type" ∷ "point_specification" ∷ "writable"
    ∷ "device_id" ∷ "device_name" ∷ "device_type" ∷ "site" ∷ "building" ∷ "floor"
    ∷ "installation_area" ∷ "local_id" ∷ []

abbrev true_words : List (List ℕ)
true_words = codes "true" ∷ codes "1" ∷ codes "yes" ∷ codes "y" ∷ codes "on" ∷ []

abbrev false_words : List (List ℕ)
false_words = codes "false" ∷ codes "0" ∷ codes "no" ∷ codes "n" ∷ codes "off" ∷ codes "" ∷ []

unfoldable pub norm_bool : String → Result ReadError Bool
norm_bool value =
    let v = lower (strip value) in
    if contains true_words v
    then ok true
    else if contains false_words v
    then ok false
    else raise (bad_writable value)

-- `s.split("&&")`
push_head : Char → List String → List String
push_head c [] = String.◌∷◌ c String.[] ∷ []
push_head c (s ∷ parts) = String.◌∷◌ c s ∷ parts

unfoldable pub split_sep : String → List String
unfolding push_head
split_sep String.[] = "" ∷ []
split_sep (String.◌∷◌ c String.[]) = String.◌∷◌ c String.[] ∷ []
split_sep (String.◌∷◌ c (String.◌∷◌ d s)) =
    let cut = "" ∷ split_sep s in
    let go_on = push_head c (split_sep (String.◌∷◌ d s)) in
    if code c == b'&' && code d == b'&' then cut else go_on

-- `[part.strip() for part in parts if part.strip()]`
unfoldable pub strip_parts : List String → List String
strip_parts [] = []
strip_parts (p ∷ parts) =
    if is_blank (strip p) then strip_parts parts else strip p ∷ strip_parts parts

unfoldable pub split_labels : String → List String
split_labels value = let v = strip value in if is_blank v then [] else strip_parts (split_sep v)

-- `(row.get(k) or "").strip()`
unfoldable pub cell : Row → String → String
cell row k = elim (lookup k row) [ none ↦ "" | some v ↦ elim v [ none ↦ "" | some s ↦ strip s ] ]

-- `[c for c in REQUIRED_COLUMNS if c not in header]`
unfoldable pub missing_in : List String → List String → List String
missing_in header [] = []
missing_in header (c ∷ cs) =
    if contains header c then missing_in header cs else c ∷ missing_in header cs

module _ {F : Type 0} (fl : FloatOps F) where
  unfoldable pub opt_int : String → Result ReadError (Option ℤ)
  opt_int value =
      let v = strip value in
      if is_blank v
      then ok none
      else (do i ← or_raise (fl.parse_int v) (value_error v); ok (some i))

  unfoldable pub opt_float : String → Result ReadError (Option F)
  opt_float value =
      let v = strip value in
      if is_blank v
      then ok none
      else (do x ← or_raise (fl.parse_float v) (value_error v); ok (some x))

  -- `float(scale_raw) if scale_raw else 1.0`
  unfoldable pub read_scale : String → Result ReadError F
  read_scale raw =
      if is_blank raw
      then ok (fl.of_int (ℤ.pos 1))
      else or_raise (fl.parse_float raw) (value_error raw)

  -- The keyword arguments are evaluated in the order of the fields.
  unfoldable pub row_to_point : Row → Result ReadError (SbcoPoint F)
  row_to_point row = do
    let g = cell row
    w ← norm_bool (g "writable")
    i ← opt_int (g "interval")
    hi ← opt_float (g "max_pres_value")
    lo ← opt_float (g "min_pres_value")
    sc ← read_scale (g "scale")
    inst ← opt_int (g "instance_no_bacnet")
    ok (record {
      gateway_id = g "gateway_id";
      device_id = g "device_id";
      device_name = g "device_name";
      device_type = g "device_type";
      site = g "site";
      building = g "building";
      floor = g "floor";
      installation_area = g "installation_area";
      target_area = g "target_area";
      panel = g "panel";
      point_type = g "point_type";
      point_specification = g "point_specification";
      point_id = g "point_id";
      point_name = g "point_name";
      writable = w;
      interval = i;
      unit = g "unit";
      max_pres_value = hi;
      min_pres_value = lo;
      labels = split_labels (g "labels");
      scale = sc;
      tags = split_labels (g "tags");
      supplier = g "supplier";
      owner = g "owner";
      description = g "description";
      local_id = g "local_id";
      device_id_bacnet = g "device_id_bacnet";
      instance_no_bacnet = inst;
      object_type_bacnet = g "object_type_bacnet";
    })

  unfoldable pub read_point_list : List String → List Row → Result ReadError (List (SbcoPoint F))
  read_point_list header rows =
      let missing = missing_in header required_columns in
      if is_empty missing then traverse row_to_point rows else raise (missing_columns missing)

-- the messages of `validate_point_list`
pub data PointIssue : Type 0 where
  structural : ReadError → PointIssue
  empty_point_id : PointIssue
  duplicate_point_id : String → PointIssue

module _ {F : Type 0} where
  -- the loop, with the set `seen`
  unfoldable pub check_points : List String → List (SbcoPoint F) → List PointIssue
  check_points seen [] = []
  check_points seen (p ∷ points) =
      if is_blank p.point_id
      then empty_point_id ∷ check_points seen points
      else (if contains seen p.point_id then duplicate_point_id p.point_id ∷ [] else [])
        ++ check_points (p.point_id ∷ seen) points

  unfoldable pub issues_of_read :
      Result ReadError (List (SbcoPoint F)) → Result ReadError (List PointIssue)
  issues_of_read (ok points) = ok (check_points [] points)
  -- only PointListError is caught
  issues_of_read (raise (missing_columns cs)) = ok (structural (missing_columns cs) ∷ [])
  issues_of_read (raise (bad_writable v)) = ok (structural (bad_writable v) ∷ [])
  issues_of_read (raise (value_error v)) = raise (value_error v)

module _ {F : Type 0} (fl : FloatOps F) where
  unfoldable pub validate_point_list : List String → List Row → Result ReadError (List PointIssue)
  validate_point_list header rows = issues_of_read (read_point_list fl header rows)
