-- ===== src/Constraint/Affixes.antt =====
-- What the predicates PF, SF and CT of a string constraint accept: `operator()(std::string_view)` and
-- `Container<AString>::match` of uActor/include/pubsub/constraint.hpp.
use u_actor.Prelude.{◌^◌, ◌<◌, ◌≡◌, Text, true, ◌++◌, length, ◌↔◌}
use u_actor.Publication.{is_some}
use u_actor.Constraint.Predicates.{pf, sf, ct}
use u_actor.Constraint.TextMatch.{suffix_test, starts_with_iff, suffix_test_iff, contains_iff}
use u_actor.Constraint.{text, match_text, accepts_str}

-- A constraint with PF accepts exactly the strings that are its operand followed by some text, and one
-- with CT exactly the strings in which its operand stands somewhere.
pub accepts_str-pf_ct :
    (s input : Text)
    → ((accepts_str (text s pf) input ≡ true) ↔ ((rest : Text) × (input ≡ s ++ rest)))
      × ((accepts_str (text s ct) input ≡ true)
          ↔ ((before after : Text) × (input ≡ before ++ (s ++ after))))
unfolding accepts_str match_text
accepts_str-pf_ct s input = (starts_with_iff input s, contains_iff input s)

-- For an input shorter than 2^64 bytes, a constraint with SF accepts exactly the strings that are some
-- text followed by its operand, and its comparison, whose position is a wrapping difference of the
-- two sizes, never throws.
pub accepts_str-sf :
    (s input : Text)
    → length input < 2 ^ 64
    → ((accepts_str (text s sf) input ≡ true) ↔ ((before : Text) × (input ≡ before ++ s)))
      × (is_some (suffix_test input s) ≡ true)
unfolding accepts_str match_text
accepts_str-sf s input small = let (total, same) = suffix_test_iff input s small in (same, total)
