-- ===== src/Models/Values.antt =====
-- The values of a dynamic language that the program stores and serialises (`Any`), and the float
-- operations that it uses. A dict is a list of fields in insertion order.
use bacnet_sim_gateway.Common.{
  String, ℤ, Bool, Option, none, some, ◌==◌, string_eq, if◌then◌else◌, List, [], ◌∷◌,
}

mutual
  pub data Value (F : Type 0) : Type 0 where
    null : Value F
    bool : Bool → Value F
    int : ℤ → Value F
    real : F → Value F
    text : String → Value F
    arr : Items F → Value F
    obj : Fields F → Value F

  pub data Items (F : Type 0) : Type 0 where
    nil : Items F
    cons : Value F → Items F → Items F

  pub data Fields (F : Type 0) : Type 0 where
    end : Fields F
    field : String → Value F → Fields F → Fields F

-- Python's float, a parameter of every definition that computes with it. `none` is a ValueError,
-- an OverflowError or a TypeError of the conversion.
pub record FloatOps (F : Type 0) : Type 0 where
  -- the float of a number, and `float(i)`, which a number out of range makes raise
  pub of_int : ℤ → F
  pub float_of_int : ℤ → Option F
  pub lt : F → F → Bool
  pub le : F → F → Bool
  pub add : F → F → F
  pub sub : F → F → F
  pub mul : F → F → F
  pub div : F → F → F
  pub is_zero : F → Bool
  -- `int(x)` and `int(round(x))`
  pub trunc : F → Option ℤ
  pub round : F → Option ℤ
  -- `round(x, 4)`
  pub round4 : F → F
  pub half : F
  pub thousand : F
  pub abnormal : F
  -- `float(text)`, `int(text)` and `str(x)`
  pub parse_float : String → Option F
  pub parse_int : String → Option ℤ
  pub show : F → String
  pub show_int : ℤ → String
  -- `str` of a list and of a dict
  pub show_items : Items F → String
  pub show_fields : Fields F → String

module _ {F : Type 0} where
  -- `d.get(k)`
  unfoldable pub get_field : String → Fields F → Option (Value F)
  get_field k end = none
  get_field k (field j v d) = if k == j then some v else get_field k d

  unfoldable pub is_no_fields : Fields F → Bool
  is_no_fields end = Bool.true
  is_no_fields (field k v d) = Bool.false

  -- a list of texts as a value
  unfoldable pub text_items : List String → Items F
  text_items [] = nil
  text_items (s ∷ l) = cons (text s) (text_items l)
