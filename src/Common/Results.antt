-- ===== src/Common/Results.antt =====
-- A call that returns or raises: the error is a value of the model's own.
use mathlib.Core.Path.{◌≡◌, refl}
use mathlib.Core.Option.{Option, none, some}
use mathlib.Core.List.{List, [], ◌∷◌}

pub data Result {ℓ κ} (E : Type ℓ) (A : Type κ) : Type (ℓ ⊔ κ) where
  ok : A → Result E A
  raise : E → Result E A

infixl 5 ◌>>=◌ ◌>>◌
abbrev pub ◌>>=◌ {ℓ κ μ} :
    {E : Type ℓ} {A : Type κ} {B : Type μ} → Result E A → (A → Result E B) → Result E B
ok a >>= f = f a
raise e >>= f = raise e

abbrev pub ◌>>◌ {ℓ κ μ} :
    {E : Type ℓ} {A : Type κ} {B : Type μ} → Result E A → Result E B → Result E B
m >> k = m >>= λ _. k

module _ {ℓ κ} {E : Type ℓ} {A : Type κ} where
  abbrev pub or_raise : Option A → E → Result E A
  or_raise none e = raise e
  or_raise (some a) e = ok a

  pub >>=-eq-ok {μ} :
      {B : Type μ} (call : Result E A) (next : A → Result E B) {result : B}
      → (call >>= next) ≡ ok result
      → (value : A) × (call ≡ ok value) × (next value ≡ ok result)
  >>=-eq-ok (raise e) next h = cc
  >>=-eq-ok (ok value) next h = (value, refl, h)

-- a list comprehension whose element may raise; the first error ends it
unfoldable pub traverse {ℓ κ μ} :
    {E : Type ℓ} {A : Type κ} {B : Type μ} → (A → Result E B) → List A → Result E (List B)
traverse f [] = ok []
traverse f (x ∷ xs) = do y ← f x; ys ← traverse f xs; ok (y ∷ ys)
