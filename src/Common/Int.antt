-- ===== src/Common/Int.antt =====
-- Python's `int`, over the native numbers: `negsuc n` is -(n + 1).
use Prim.Native.Nat.{ℕ, zero, suc, ◌+◌, ◌-◌}
use mathlib.Core.Path.{◌≡◌}
use mathlib.Core.Logic.{◌↔◌}
use mathlib.Core.Bool.{Bool, true, false}
use native.Mathlib.Omega.{arith}
use bacnet_sim_gateway.Common.Tests.{ltb, nat_beq, if◌then◌else◌}

pub data ℤ : Type 0 where
  pos : ℕ → ℤ
  negsuc : ℕ → ℤ

abbrev pub int_beq : ℤ → ℤ → Bool
int_beq (pos a) (pos b) = nat_beq a b
int_beq (pos a) (negsuc b) = false
int_beq (negsuc a) (pos b) = false
int_beq (negsuc a) (negsuc b) = nat_beq a b

pub int_beq_iff : (a b : ℤ) → (int_beq a b ≡ true) ↔ (a ≡ b)
int_beq_iff (pos a) (pos b) = ground arith
int_beq_iff (pos a) (negsuc b) = ground arith
int_beq_iff (negsuc a) (pos b) = ground arith
int_beq_iff (negsuc a) (negsuc b) = ground arith

-- `i <= 0`
abbrev pub is_nonpositive : ℤ → Bool
is_nonpositive (pos zero) = true
is_nonpositive (pos (suc n)) = false
is_nonpositive (negsuc n) = true

-- `i + n` for a count `n`
abbrev pub add_ℕ : ℤ → ℕ → ℤ
add_ℕ (pos a) n = pos (a + n)
add_ℕ (negsuc a) n = if ltb a n then pos (n - a - 1) else negsuc (a - n)
