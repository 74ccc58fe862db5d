-- ===== src/Simulation/Generators/Walk.antt =====
-- A random walk stays within the bounds of its object.
use bacnet_sim_gateway.Common.{true, false, List, [], ◌∷◌, All, ◌≡◌, refl, Bool-cases, inl, inr}
use bacnet_sim_gateway.Models.{Value, FloatOps}
use bacnet_sim_gateway.Simulation.Generators.Defs.{
  random_walk, Randomness, min_float, max_float, clamp, next, run,
}

-- What Python's `<` and `<=` of floats that are not NaN have in common.
pub record FloatOrder {F : Type 0} (fl : FloatOps F) : Type 0 where
  pub le_of_not_lt : (a b : F) → fl.lt a b ≡ false → fl.le b a ≡ true
  pub le_of_lt : (a b : F) → fl.lt a b ≡ true → fl.le a b ≡ true
  pub le_self : (a : F) → fl.le a a ≡ true

module _ {F : Type 0} (fl : FloatOps F) (order : FloatOrder fl) where
  min_float-le : (a b : F) → fl.le (min_float fl a b) b ≡ true
  unfolding min_float
  min_float-le a b = elim (Bool-cases (fl.lt b a)) [
    | inl less ↦ rw less (order.le_self b)
    | inr more ↦ rw more (order.le_of_not_lt b a more)
  ]

  -- the clamped value lies between the bounds
  clamp-le :
      (x lo hi : F)
      → fl.le lo hi ≡ true
      → (fl.le lo (clamp fl x lo hi) ≡ true) × (fl.le (clamp fl x lo hi) hi ≡ true)
  unfolding clamp max_float
  clamp-le x lo hi ordered = elim (Bool-cases (fl.lt lo (min_float fl x hi))) [
    | inl above ↦ rw above (order.le_of_lt _ _ above, min_float-le x hi)
    | inr below ↦ rw below (order.le_self lo, ordered)
  ]

  -- the value is a number between the bounds, rounded to four places
  abbrev pub IsWithin : F → F → Value F → Type 0
  IsWithin lo hi v =
      (x : F) × (v ≡ Value.real (fl.round4 x)) × (fl.le lo x ≡ true) × (fl.le x hi ≡ true)

  -- Every value of a random walk with ordered bounds is a number between the bounds, rounded, whatever
  -- the draws, the step and the start are.
  pub run-IsWithin :
      {R : Type 0} (rand : Randomness F R) (lo hi step : F)
      → fl.le lo hi ≡ true
      → (times : List F) (rng : R) (value : F)
      → All (IsWithin lo hi) (run fl rand times (random_walk lo hi step rng value)).0
  unfolding run next
  run-IsWithin rand lo hi step ordered [] rng value = tt
  run-IsWithin rand lo hi step ordered (t ∷ times) rng value =
      let within = clamp-le _ lo hi ordered in
      ((_, refl, within.0, within.1), run-IsWithin rand lo hi step ordered times _ _)
