-- ===== src/Float.antt =====
-- The comparisons that C++ makes on `float`, on IEEE 754 single-precision bit patterns: a NaN is
-- unequal to everything and unordered, and the two zeros are equal.
use u_actor.Prelude.{
  ℕ, zero, suc, ◌%◌, ◌^◌, Bool, not, ◌&&◌, ℤ, pos, negsuc, int_ltb, int_beq, ltb, leb,
  if◌then◌else◌,
}

abbrev pub magnitude : ℕ → ℕ
magnitude x = x % 2 ^ 31

abbrev pub is_nan : ℕ → Bool
is_nan x = ltb 0x7f800000 (magnitude x)

abbrev pub negated : ℕ → ℤ
negated zero = pos 0
negated (suc n) = negsuc n

-- The numbers that are not NaN, in their order.
unfoldable pub rank : ℕ → ℤ
rank x = if leb (2 ^ 31) x then negated (magnitude x) else pos (magnitude x)

unfoldable pub float_beq : ℕ → ℕ → Bool
float_beq a b = not (is_nan a) && not (is_nan b) && int_beq (rank a) (rank b)

unfoldable pub float_ltb : ℕ → ℕ → Bool
float_ltb a b = not (is_nan a) && not (is_nan b) && int_ltb (rank a) (rank b)

unfoldable pub float_leb : ℕ → ℕ → Bool
float_leb a b = not (is_nan a) && not (is_nan b) && not (int_ltb (rank b) (rank a))
