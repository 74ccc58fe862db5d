-- ===== src/Generator/Search.antt =====
-- The search for a free instance number ends by its test, at the least number that is free.
use native.Mathlib.Decide.{dec_lt}
use bacnet_sim_gateway.Common.{
  ℕ, zero, suc, ◌+◌, ◌≤◌, ◌<◌, ℤ, int_eq, ◌≡◌, true, false, inl, inr, Bool-cases, List, [], ◌∷◌,
  arith, contains, length, leb, if◌then◌else◌,
}
use bacnet_sim_gateway.Generator.Defs.{next_free}

-- how many used numbers the search can still meet
abbrev count_from : ℕ → List ℤ → ℕ
count_from n [] = 0
count_from n (ℤ.pos m ∷ used) = (if leb n m then 1 else 0) + count_from n used
count_from n (ℤ.negsuc m ∷ used) = count_from n used

count_from-le-length : (n : ℕ) (used : List ℤ) → count_from n used ≤ length used
count_from-le-length n [] = omega arith
count_from-le-length n (ℤ.pos m ∷ used) = ground (arith, count_from-le-length n used)
count_from-le-length n (ℤ.negsuc m ∷ used) = omega (arith, count_from-le-length n used)

count_from-suc-le : (n : ℕ) (used : List ℤ) → count_from (suc n) used ≤ count_from n used
count_from-suc-le n [] = omega arith
count_from-suc-le n (ℤ.pos m ∷ used) = ground (arith, count_from-suc-le n used)
count_from-suc-le n (ℤ.negsuc m ∷ used) = count_from-suc-le n used

count_from_used :
    (n : ℕ) (used : List ℤ)
    → contains used (ℤ.pos n) ≡ true
    → count_from (suc n) used < count_from n used
count_from_used n [] h = absurd (ground arith)
count_from_used n (ℤ.pos m ∷ used) h =
    ground (arith, count_from_used n used, count_from-suc-le n used)
count_from_used n (ℤ.negsuc m ∷ used) h = count_from_used n used h

-- what the search promises: a free number, the least from `n` on
pub record IsLeastFree (n : ℕ) (used : List ℤ) (k : ℕ) : Type 0 where
  pub free : contains used (ℤ.pos k) ≡ false
  pub from : n ≤ k
  pub least : (m : ℕ) → n ≤ m → m < k → contains used (ℤ.pos m) ≡ true

IsLeastFree-skip :
    (n : ℕ) (used : List ℤ) (k : ℕ)
    → contains used (ℤ.pos n) ≡ true
    → IsLeastFree (suc n) used k
    → IsLeastFree n used k
IsLeastFree-skip n used k h r = record {
  free = r.free;
  from = omega (arith, r.from);
  least = λ m lo hi. elim (dec_lt n m) [
    | yes above ↦ r.least m above hi
    | no not_above ↦ let same : m ≡ n = omega arith in rw same h
  ];
}

next_free_search :
    (fuel n : ℕ) (used : List ℤ)
    → count_from n used < fuel
    → IsLeastFree n used (next_free fuel n used)
unfolding next_free
next_free_search zero n used h = absurd (omega arith)
next_free_search (suc fuel) n used h = elim (Bool-cases (contains used (ℤ.pos n))) [
  | inl taken ↦
      rw (taken, next_free)
        (IsLeastFree-skip n used _ taken
          (next_free_search fuel (suc n) used (omega (arith, count_from_used n used taken))))
  | inr free ↦
      rw (free, next_free)
        (record { free = free; from = omega arith; least = λ m lo hi. absurd (omega arith) })
]

-- One round more than there are used numbers is enough.
pub next_free-IsLeastFree :
    (n : ℕ) (used : List ℤ) → IsLeastFree n used (next_free (suc (length used)) n used)
next_free-IsLeastFree n used =
    next_free_search (suc (length used)) n used (omega (arith, count_from-le-length n used))
