-- ===== src/Constraint/Predicates.antt =====
-- `ConstraintPredicates`: the predicates of constraints, their names and numbers.
use u_actor.Prelude.{
  ℕ, ◌≡◌, refl, Text, Bool, true, Option, none, some, ◌==◌, text_eq, text_beq, text_beq_iff, nat_eq,
  if◌then◌else◌, codes, arith, ◌↔◌,
}

pub data Predicate : Type 0 where
  eq ne lt gt ge le pf sf ct map_all : Predicate

-- The values of the enumeration.
unfoldable pub tag : Predicate → ℕ
tag eq = 1
tag ne = 2
tag lt = 3
tag gt = 4
tag ge = 5
tag le = 6
tag pf = 7
tag sf = 8
tag ct = 9
tag map_all = 10

unfoldable pub predicate_beq : Predicate → Predicate → Bool
unfolding tag
predicate_beq p q = tag p == tag q

-- `ConstraintPredicates::name`; `none` is the null pointer.
unfoldable pub name : ℕ → Option Text
name t =
    if t == 1
    then some (codes "EQ")
    else if t == 2
    then some (codes "NE")
    else if t == 3
    then some (codes "LT")
    else if t == 4
    then some (codes "GT")
    else if t == 5
    then some (codes "GE")
    else if t == 6
    then some (codes "LE")
    else if t == 7
    then some (codes "PF")
    else if t == 8
    then some (codes "SF")
    else if t == 9
    then some (codes "CT")
    else if t == 10
    then some (codes "MAP_ALL")
    else none

-- `ConstraintPredicates::from_string`
unfoldable pub from_string : Text → Option Predicate
from_string s =
    if s == codes "EQ"
    then some eq
    else if s == codes "NE"
    then some ne
    else if s == codes "LT"
    then some lt
    else if s == codes "GT"
    then some gt
    else if s == codes "GE"
    then some ge
    else if s == codes "LE"
    then some le
    else if s == codes "PF"
    then some pf
    else if s == codes "SF"
    then some sf
    else if s == codes "CT"
    then some ct
    else if s == codes "MAP_ALL"
    then some map_all
    else none

pub predicate_beq_iff : (p q : Predicate) → (predicate_beq p q ≡ true) ↔ (p ≡ q)
unfolding predicate_beq
predicate_beq_iff p q = ground arith

abbrev pub and_then {ℓ κ} : {A : Type ℓ} {B : Type κ} → Option A → (A → Option B) → Option B
and_then none f = none
and_then (some a) f = f a

-- The name of each predicate of the enumeration is read back as that predicate.
pub from_string-name : (p : Predicate) → and_then (name (tag p)) from_string ≡ some p
unfolding name from_string tag text_beq
from_string-name eq = refl
from_string-name ne = refl
from_string-name lt = refl
from_string-name gt = refl
from_string-name ge = refl
from_string-name le = refl
from_string-name pf = refl
from_string-name sf = refl
from_string-name ct = refl
from_string-name map_all = refl

-- A text that is read as a predicate is the name of that predicate, so no other text is accepted.
pub name-from_string : (s : Text) (p : Predicate) → from_string s ≡ some p → name (tag p) ≡ some s
unfolding name from_string tag
name-from_string s p h = ground (
  arith,
  text_beq_iff s (codes "EQ"),
  text_beq_iff s (codes "NE"),
  text_beq_iff s (codes "LT"),
  text_beq_iff s (codes "GT"),
  text_beq_iff s (codes "GE"),
  text_beq_iff s (codes "LE"),
  text_beq_iff s (codes "PF"),
  text_beq_iff s (codes "SF"),
  text_beq_iff s (codes "CT"),
  text_beq_iff s (codes "MAP_ALL"),
)
