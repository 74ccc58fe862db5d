-- ===== src/Simulation/Generators/Sequence.antt =====
-- A replay gives the values of its sequence in a cycle.
use native.Mathlib.Nat.{mod-lt}
use bacnet_sim_gateway.Common.{
  ℕ, zero, suc, ◌+◌, ◌%◌, ◌<◌, false, some, List, [], ◌∷◌, length, get_elem?, is_empty, ◌≡◌, refl,
  ap, arith, ◌∙◌,
}
use bacnet_sim_gateway.Semantic.{get_or}
use bacnet_sim_gateway.Models.{Value, FloatOps}
use bacnet_sim_gateway.Simulation.Generators.Defs.{replay, Randomness, next, run}

get_elem?-some {ℓ} :
    {A : Type ℓ} (xs : List A) (i : ℕ) → i < length xs → (v : A) × (get_elem? xs i ≡ some v)
get_elem?-some [] i h = absurd (omega arith)
get_elem?-some (x ∷ xs) zero h = (x, refl)
get_elem?-some (x ∷ xs) (suc i) h = get_elem?-some xs i (omega arith)

length_positive {ℓ} : {A : Type ℓ} (xs : List A) → is_empty xs ≡ false → 0 < length xs
length_positive [] h = absurd (ground arith)
length_positive (x ∷ xs) h = omega arith

module _ {F R : Type 0} (fl : FloatOps F) (rand : Randomness F R) (seq : List (Value F)) where
  replay-from :
      (times : List F) (start i : ℕ)
      → i < length times
      → get_elem? (run fl rand times (replay seq start)).0 i
        ≡ some (get_or (get_elem? seq ((start + i) % length seq)) Value.null)
  unfolding run next
  replay-from [] start i h = absurd (omega arith)
  replay-from (t ∷ times) start zero h =
      let shift : start ≡ start + 0 = omega arith in
      ap (λ k. some (get_or (get_elem? seq (k % length seq)) Value.null)) shift
  replay-from (t ∷ times) start (suc i) h =
      let shift : (start + 1) + i ≡ start + suc i = omega arith in
      replay-from times (start + 1) i (omega arith)
      ∙ ap (λ k. some (get_or (get_elem? seq (k % length seq)) Value.null)) shift

  -- The value of tick `i` of a new replay is the element of its sequence at `i` modulo the length.
  pub replay-get_elem? :
      (times : List F) (i : ℕ)
      → is_empty seq ≡ false
      → i < length times
      → (v : Value F) × (get_elem? seq (i % length seq) ≡ some v)
        × (get_elem? (run fl rand times (replay seq 0)).0 i ≡ some v)
  replay-get_elem? times i filled h =
      let (v, found) =
        get_elem?-some seq (i % length seq) (mod-lt i (length_positive seq filled)) in
      let shift : 0 + i ≡ i = omega arith in
      (
        v,
        found,
        replay-from times 0 i h
            ∙ ap (λ k. some (get_or (get_elem? seq (k % length seq)) Value.null)) shift
            ∙ ap (λ o. some (get_or o Value.null)) found,
      )
