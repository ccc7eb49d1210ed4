-- ===== src/Prelude/Bytes.antt =====
-- Texts as lists of bytes: `std::string`, `std::string_view` and `AString` of the program, with the
-- comparisons that `std::char_traits<char>` makes.
use Prim.Native.Nat.{ℕ}
use Prim.Native.Char.{code}
use Prim.Native.String.{String}
use mathlib.Core.Path.{◌≡◌, refl}
use mathlib.Core.Logic.{◌↔◌}
use mathlib.Core.Bool.{Bool, true, false, ◌&&◌, ◌||◌}
use mathlib.Core.List.{List, [], ◌∷◌}
use native.Mathlib.Omega.{arith}
use u_actor.Prelude.Tests.{ltb, nat_beq}
use u_actor.Prelude.Equality.{Eq}

abbrev pub Text : Type 0
Text = List ℕ

-- The bytes of an ASCII literal.
abbrev pub codes : (literal : String) → Text
codes String.[] = []
codes (String.◌∷◌ letter others) = code letter ∷ codes others

unfoldable pub text_beq : Text → Text → Bool
text_beq [] [] = true
text_beq [] (y ∷ ys) = false
text_beq (x ∷ xs) [] = false
text_beq (x ∷ xs) (y ∷ ys) = nat_beq x y && text_beq xs ys

pub text_beq_iff : (a b : Text) → (text_beq a b ≡ true) ↔ (a ≡ b)
unfolding text_beq
text_beq_iff [] [] = ground arith
text_beq_iff [] (y ∷ ys) = ground arith
text_beq_iff (x ∷ xs) [] = ground arith
text_beq_iff (x ∷ xs) (y ∷ ys) = ground (arith, text_beq_iff xs ys)

instance abbrev pub text_eq : Eq Text
text_eq = record { beq = text_beq; beq_iff = text_beq_iff }

-- Lexicographic order on bytes.
unfoldable pub text_ltb : Text → Text → Bool
text_ltb [] [] = false
text_ltb [] (y ∷ ys) = true
text_ltb (x ∷ xs) [] = false
text_ltb (x ∷ xs) (y ∷ ys) = ltb x y || (nat_beq x y && text_ltb xs ys)

pub text_ltb_irrefl : (a : Text) → text_ltb a a ≡ false
unfolding text_ltb
text_ltb_irrefl [] = refl
text_ltb_irrefl (x ∷ xs) = ground (arith, text_ltb_irrefl xs)

pub text_ltb_trans :
    (a b c : Text) → text_ltb a b ≡ true → text_ltb b c ≡ true → text_ltb a c ≡ true
unfolding text_ltb
text_ltb_trans [] [] c h k = ground arith
text_ltb_trans [] (y ∷ ys) [] h k = ground arith
text_ltb_trans [] (y ∷ ys) (z ∷ zs) h k = refl
text_ltb_trans (x ∷ xs) [] c h k = ground arith
text_ltb_trans (x ∷ xs) (y ∷ ys) [] h k = ground arith
text_ltb_trans (x ∷ xs) (y ∷ ys) (z ∷ zs) h k = ground (arith, text_ltb_trans xs ys zs)

-- Two texts neither of which is below the other are equal.
pub text_ltb_total :
    (a b : Text) → text_ltb a b ≡ false → text_beq a b ≡ false → text_ltb b a ≡ true
unfolding text_ltb text_beq
text_ltb_total [] [] h k = ground arith
text_ltb_total [] (y ∷ ys) h k = ground arith
text_ltb_total (x ∷ xs) [] h k = refl
text_ltb_total (x ∷ xs) (y ∷ ys) h k = ground (arith, text_ltb_total xs ys)
