-- ===== src/Common/Equality.antt =====
-- Python's `==` and `in` for the types whose equality the program tests.
use Prim.Native.Nat.{ℕ}
use Prim.Native.String.{String}
use mathlib.Core.Path.{◌≡◌, refl}
use mathlib.Core.Logic.{◌↔◌}
use mathlib.Core.Bool.{Bool, true, false, ◌&&◌, ◌||◌}
use mathlib.Core.List.{List, [], ◌∷◌, ◌++◌}
use native.Mathlib.Omega.{arith}
use text.Mathlib.Text.{◌==◌ as str_eq}
use text.Mathlib.TextEquality.{eq_iff}
use bacnet_sim_gateway.Common.Tests.{nat_beq, nat_beq_iff}
use bacnet_sim_gateway.Common.Int.{ℤ, int_beq, int_beq_iff}

pub record Eq {ℓ} (A : Type ℓ) : Type ℓ where
  pub test : A → A → Bool
  pub decides : (a b : A) → (test a b ≡ true) ↔ (a ≡ b)

instance abbrev pub nat_eq : Eq ℕ
nat_eq = record { test = nat_beq; decides = nat_beq_iff }

abbrev pub bool_beq : Bool → Bool → Bool
bool_beq true b = b
bool_beq false true = false
bool_beq false false = true

pub bool_beq_iff : (a b : Bool) → (bool_beq a b ≡ true) ↔ (a ≡ b)
bool_beq_iff a b = ground arith

instance abbrev pub bool_eq : Eq Bool
bool_eq = record { test = bool_beq; decides = bool_beq_iff }

instance abbrev pub int_eq : Eq ℤ
int_eq = record { test = int_beq; decides = int_beq_iff }

instance abbrev pub string_eq : Eq String
string_eq = record { test = str_eq; decides = eq_iff }

-- `a == b`
infix 50 ◌==◌
abbrev pub ◌==◌ {ℓ} : {A : Type ℓ} ⦃eq : Eq A⦄ → A → A → Bool
◌==◌ ⦃eq⦄ = eq.test

abbrev pub pair_beq {ℓ κ} : {A : Type ℓ} {B : Type κ} ⦃e : Eq A⦄ ⦃f : Eq B⦄ → A × B → A × B → Bool
pair_beq ⦃e⦄ ⦃f⦄ (a, b) (c, d) = e.test a c && f.test b d

pub pair_beq_iff {ℓ κ} :
    {A : Type ℓ} {B : Type κ} ⦃e : Eq A⦄ ⦃f : Eq B⦄ (p q : A × B) → (pair_beq p q ≡ true) ↔ (p ≡ q)
pair_beq_iff ⦃e⦄ ⦃f⦄ (a, b) (c, d) = ground (arith, e.decides a c, f.decides b d)

instance abbrev pub pair_eq {ℓ κ} : {A : Type ℓ} {B : Type κ} ⦃e : Eq A⦄ ⦃f : Eq B⦄ → Eq (A × B)
pair_eq = record { test = pair_beq; decides = pair_beq_iff }

abbrev pub list_beq {ℓ} : {A : Type ℓ} ⦃e : Eq A⦄ → List A → List A → Bool
list_beq [] [] = true
list_beq [] (y ∷ ys) = false
list_beq (x ∷ xs) [] = false
list_beq ⦃e⦄ (x ∷ xs) (y ∷ ys) = e.test x y && list_beq ⦃e = e⦄ xs ys

pub list_beq_iff {ℓ} :
    {A : Type ℓ} ⦃e : Eq A⦄ → (xs ys : List A) → (list_beq xs ys ≡ true) ↔ (xs ≡ ys)
list_beq_iff [] [] = ground arith
list_beq_iff [] (y ∷ ys) = ground arith
list_beq_iff (x ∷ xs) [] = ground arith
list_beq_iff ⦃e⦄ (x ∷ xs) (y ∷ ys) = ground (arith, e.decides x y, list_beq_iff ⦃e = e⦄ xs ys)

instance abbrev pub list_eq {ℓ} : {A : Type ℓ} ⦃e : Eq A⦄ → Eq (List A)
list_eq ⦃e⦄ = record { test = list_beq ⦃e = e⦄; decides = list_beq_iff ⦃e = e⦄ }

module _ {ℓ} {A : Type ℓ} ⦃e : Eq A⦄ where
  -- `a in xs`
  abbrev pub contains : List A → A → Bool
  contains [] a = false
  contains (x ∷ xs) a = a == x || contains xs a

  -- no value stands twice
  abbrev pub IsNodup : List A → Type 0
  IsNodup [] = Unit
  IsNodup (x ∷ xs) = (contains xs x ≡ false) × IsNodup xs

  pub beq_refl : (a : A) → (a == a) ≡ true
  beq_refl a = (e.decides a a).1 refl

  pub contains-append :
      (xs ys : List A) (a : A) → contains (xs ++ ys) a ≡ (contains xs a || contains ys a)
  contains-append [] ys a = refl
  contains-append (x ∷ xs) ys a = ground (arith, contains-append xs ys a)
