-- ===== src/Common/Text.antt =====
-- `str.strip` and `str.lower` of Python. A text is a native string; lowering yields the code points
-- of the result, which the program only compares. White space and case are those of ASCII; a code
-- point outside of ASCII is neither stripped nor lowered.
use Prim.Native.Nat.{ℕ, ◌+◌, ◌-◌}
use Prim.Native.Char.{Char, code}
use Prim.Native.String.{String}
use mathlib.Core.Bool.{Bool, true, false, ◌&&◌, ◌||◌}
use mathlib.Core.List.{List, [], ◌∷◌}
use bacnet_sim_gateway.Common.Tests.{leb, nat_beq, if◌then◌else◌}

-- the code points of a text
abbrev pub codes : String → List ℕ
codes String.[] = []
codes (String.◌∷◌ c s) = code c ∷ codes s

-- The truth value of a text is `not is_blank`.
abbrev pub is_blank : String → Bool
is_blank String.[] = true
is_blank (String.◌∷◌ c s) = false

unfoldable pub is_space : ℕ → Bool
is_space c = nat_beq c 32 || (leb 9 c && leb c 13) || (leb 28 c && leb c 31)

unfoldable pub lstrip : String → String
unfolding is_space
lstrip String.[] = String.[]
lstrip (String.◌∷◌ c s) = let rest = lstrip s in if is_space (code c) then rest else String.◌∷◌ c s

-- a white character is dropped if nothing is left behind it
unfoldable pub push_unless_trailing : Char → String → String
unfolding is_space
push_unless_trailing c String.[] = if is_space (code c) then String.[] else String.◌∷◌ c String.[]
push_unless_trailing c (String.◌∷◌ d s) = String.◌∷◌ c (String.◌∷◌ d s)

unfoldable pub rstrip : String → String
unfolding push_unless_trailing
rstrip String.[] = String.[]
rstrip (String.◌∷◌ c s) = push_unless_trailing c (rstrip s)

unfoldable pub strip : String → String
strip s = rstrip (lstrip s)

unfoldable pub lower_code : ℕ → ℕ
lower_code c = if leb b'A' c && leb c b'Z' then c + 32 else c

unfoldable pub lower : String → List ℕ
unfolding lower_code
lower String.[] = []
lower (String.◌∷◌ c s) = lower_code (code c) ∷ lower s

unfoldable pub upper_code : ℕ → ℕ
upper_code c = if leb b'a' c && leb c b'z' then c - 32 else c

unfoldable pub upper : String → List ℕ
unfolding upper_code
upper String.[] = []
upper (String.◌∷◌ c s) = upper_code (code c) ∷ upper s
