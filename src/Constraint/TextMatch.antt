-- ===== src/Constraint/TextMatch.antt =====
-- The prefix, suffix and substring tests of `Container<AString>::match`.
use u_actor.Prelude.{
  ℕ, zero, suc, ◌+◌, ◌-◌, ◌%◌, ◌^◌, ◌≤◌, ◌<◌, ltb, if◌then◌else◌, Option, none, some, false, subst,
  length-drop, ◌≡◌, refl, sym, ap, ◌∙◌, Text, Bool, true, ◌&&◌, ◌||◌, [], ◌∷◌, ◌++◌, ◌==◌, text_eq,
  text_beq_iff, text_beq, length, take, drop, leb, arith, ◌↔◌, take-append-drop, take-append,
  drop-append, length-append, Bool-cases, &&_parts, inl, inr,
}
use u_actor.Publication.{is_some}

-- `input.size() >= operand.size() && 0 == input.compare(0, operand.size(), operand)`
unfoldable pub starts_with : Text → Text → Bool
starts_with input s = leb (length s) (length input) && take (length s) input == s

-- `a - b` for two values of `size_t`
abbrev pub size_difference : ℕ → ℕ → ℕ
size_difference a b = (a + 2 ^ 64 - b) % 2 ^ 64

-- `0 == input.compare(position, operand.size(), operand)`; a position behind the end of the input
-- throws `std::out_of_range`, and there is no value.
unfoldable pub compare_equals : ℕ → Text → Text → Option Bool
compare_equals position input s =
    if ltb (length input) position then none else some (take (length s) (drop position input) == s)

-- The test of SF: the comparison at `input.size() - operand.size()`, behind its guard.
unfoldable pub suffix_test : Text → Text → Option Bool
unfolding compare_equals
suffix_test input s =
    if leb (length s) (length input)
    then compare_equals (size_difference (length input) (length s)) input s
    else some false

-- The value of that test; where it throws, the input is not accepted.
unfoldable pub ends_with : Text → Text → Bool
unfolding suffix_test
ends_with input s = elim (suffix_test input s) [ none ↦ false | some b ↦ b ]

-- `input.find(operand) != npos`, by the documented behaviour of `std::string::find`: some position
-- of the input has the operand.
unfoldable pub contains : Text → Text → Bool
contains [] s = starts_with [] s
contains (c ∷ rest) s = starts_with (c ∷ rest) s || contains rest s

==-true : (a b : Text) → (a == b) ≡ true → a ≡ b
==-true a b h = (text_beq_iff a b).0 h

==-same : (a : Text) → (a == a) ≡ true
==-same a = (text_beq_iff a a).1 refl

drop-length : (s rest : Text) → leb (length s) (length (s ++ rest)) ≡ true
drop-length s rest = ground (arith, length-append s rest)

-- An input passes exactly when it is the operand followed by some text.
pub starts_with_iff :
    (input s : Text) → (starts_with input s ≡ true) ↔ ((rest : Text) × (input ≡ s ++ rest))
unfolding starts_with
starts_with_iff input s = (forward, λ (rest, e). rw e (backward rest))
  where
    forward : starts_with input s ≡ true → (rest : Text) × (input ≡ s ++ rest)
    forward h =
        let p = &&_parts (leb (length s) (length input)) (take (length s) input == s) h in
        (
          drop (length s) input,
          sym (take-append-drop (length s) input)
              ∙ ap (λ t. t ++ drop (length s) input) (==-true (take (length s) input) s p.1),
        )

    backward : (rest : Text) → starts_with (s ++ rest) s ≡ true
    backward rest = rw (drop-length s rest) (rw (take-append s rest) (==-same s))

take_all : (n : ℕ) (xs : Text) → length xs ≤ n → take n xs ≡ xs
take_all zero [] l = refl
take_all (suc n) [] l = refl
take_all zero (x ∷ xs) l = absurd (omega (arith, l))
take_all (suc n) (x ∷ xs) l = ap (λ t. x ∷ t) (take_all n xs (omega (arith, l)))

module _ (input s : Text) (small : length input < 2 ^ 64) where
  -- Behind the guard the difference of the sizes does not wrap.
  behind_guard :
      length s ≤ length input → size_difference (length input) (length s) ≡ length input - length s
  behind_guard l = omega (arith, small, l)

  suffix_test-value :
      suffix_test input s
      ≡ some (
          leb (length s) (length input)
          && take (length s) (drop (length input - length s) input) == s)
  unfolding suffix_test compare_equals
  suffix_test-value = elim (Bool-cases (leb (length s) (length input))) [
    | inl e ↦ rw e (rw (behind_guard (ground (arith, e))) (ground arith))
    | inr e ↦ rw e refl
  ]

  suffix_forward :
      (leb (length s) (length input) && take (length s) (drop (length input - length s) input) == s)
        ≡ true
      → (before : Text) × (input ≡ before ++ s)
  suffix_forward h =
      let n = length input - length s in
      let p = &&_parts (leb (length s) (length input)) (take (length s) (drop n input) == s) h in
      (
        take n input,
        sym (take-append-drop n input)
            ∙ ap (λ t. take n input ++ t)
                (sym (take_all (length s) (drop n input) (rest_length (ground (arith, p.0))))
                  ∙ ==-true (take (length s) (drop n input)) s p.1),
      )
    where
      rest_length :
          length s ≤ length input → length (drop (length input - length s) input) ≤ length s
      rest_length l = omega (arith, l, length-drop (length input - length s) input)

suffix_backward :
    (before s : Text)
    → (leb (length s) (length (before ++ s))
        && take (length s) (drop (length (before ++ s) - length s) (before ++ s)) == s)
      ≡ true
suffix_backward before s = rw cut (
    rw (drop-append before s) (
      rw (take_all (length s) s (omega arith))
        (rw (==-same s) (ground (arith, length-append before s)))))
  where
    cut : length (before ++ s) - length s ≡ length before
    cut = omega (arith, length-append before s)

-- The test throws nothing, and an input passes exactly when it is some text followed by the
-- operand.
pub suffix_test_iff :
    (input s : Text)
    → length input < 2 ^ 64
    → (is_some (suffix_test input s) ≡ true)
      × ((ends_with input s ≡ true) ↔ ((before : Text) × (input ≡ before ++ s)))
unfolding ends_with
suffix_test_iff input s small = subst Goal (sym (suffix_test-value input s small)) (
  refl,
  (
    suffix_forward input s small,
    λ (before, e).
        subst
          (λ t.
            (leb (length s) (length t) && take (length s) (drop (length t - length s) t) == s)
            ≡ true)
          (sym e) (suffix_backward before s),
  ),
)
  where
    Goal : Option Bool → Type 0
    Goal o =
        (is_some o ≡ true)
        × (((elim o [ none ↦ false | some b ↦ b ]) ≡ true)
            ↔ ((before : Text) × (input ≡ before ++ s)))

contains_sound :
    (input s : Text)
    → contains input s ≡ true
    → (before after : Text) × (input ≡ before ++ (s ++ after))
unfolding contains
contains_sound [] s h = let (rest, e) = (starts_with_iff [] s).0 h in ([], rest, e)
contains_sound (c ∷ rest) s h = elim (Bool-cases (starts_with (c ∷ rest) s)) [
  | inl here ↦ let (after, e) = (starts_with_iff (c ∷ rest) s).0 here in ([], after, e)
  | inr later ↦
      let (before, after, e) = contains_sound rest s (rw later at h) in
      (c ∷ before, after, ap (λ t. c ∷ t) e)
]

contains_empty : (input : Text) → contains input [] ≡ true
unfolding contains starts_with text_beq
contains_empty [] = refl
contains_empty (c ∷ rest) = ground arith

contains_complete : (before after s : Text) → contains (before ++ (s ++ after)) s ≡ true
unfolding contains
contains_complete [] after [] = contains_empty after
contains_complete [] after (c ∷ s) =
    rw ((starts_with_iff (c ∷ (s ++ after)) (c ∷ s)).1 (after, refl)) refl
contains_complete (c ∷ before) after s = ground (arith, contains_complete before after s)

-- An input passes exactly when the operand stands somewhere in it.
pub contains_iff :
    (input s : Text)
    → (contains input s ≡ true) ↔ ((before after : Text) × (input ≡ before ++ (s ++ after)))
contains_iff input s =
    (contains_sound input s, λ (before, after, e). rw e (contains_complete before after s))
