-- ===== src/Constraint.antt =====
-- Constraints on attributes: uActor/include/pubsub/constraint.hpp, uActor/src/pubsub/constraint.cpp.
pub mod Predicates
pub mod TextMatch
pub mod Plain
pub mod Affixes
use u_actor.Prelude.{
  ℕ, ◌≡◌, Text, ℤ, Bool, true, false, not, ◌&&◌, ◌||◌, Option, none, some, List, [], ◌∷◌, ◌==◌,
  text_eq, text_ltb, nat_eq, int_eq, int_ltb, if◌then◌else◌, codes,
}
use u_actor.Float.{float_beq, float_ltb, float_leb}
use u_actor.Publication.{
  Value, Map, has_attr, is_some, get_str_attr, get_int_attr, get_float_attr, get_nested_component,
}
use u_actor.Publication
use Predicates.{Predicate, eq, ne, lt, gt, ge, le, pf, sf, ct, map_all, predicate_beq}
use TextMatch.{starts_with, ends_with, contains}

-- `Constraint`: attribute, operand with its `Container`, and the optional flag.
mutual
  pub data Constraint : Type 0 where
    constraint : Text → Operand → Bool → Constraint

  pub data Operand : Type 0 where
    monostate : Operand
    text : Text → Predicate → Operand
    number : ℤ → Predicate → Operand
    real : ℕ → Predicate → Operand
    group : Constraints → Predicate → Operand

  pub data Constraints : Type 0 where
    nil : Constraints
    cons : Constraint → Constraints → Constraints

abbrev pub attribute : Constraint → Text
attribute (constraint a o b) = a

abbrev pub operand : Constraint → Operand
operand (constraint a o b) = o

abbrev pub optional : Constraint → Bool
optional (constraint a o b) = b

-- `Constraint::predicate`
abbrev pub operand_predicate : Operand → Predicate
operand_predicate monostate = eq
operand_predicate (text s p) = p
operand_predicate (number n p) = p
operand_predicate (real x p) = p
operand_predicate (group cs p) = p

unfoldable pub predicate : Constraint → Predicate
predicate (constraint a o b) = operand_predicate o

question_mark : ℕ
question_mark = b'?'

-- The constructors: a leading `?` makes the constraint optional; `at(0)` throws on an empty name.
unfoldable pub make_constraint : Text → Operand → Bool → Option Constraint
unfolding question_mark
make_constraint [] o opt = none
make_constraint (c ∷ rest) o opt =
    if c == question_mark then some (constraint rest o true) else some (constraint (c ∷ rest) o opt)

-- `Container<T>::match` for `int32_t`.
unfoldable pub match_int : Predicate → ℤ → ℤ → Bool
match_int eq input n = input == n
match_int lt input n = int_ltb input n
match_int gt input n = int_ltb n input
match_int ge input n = not (int_ltb input n)
match_int le input n = not (int_ltb n input)
match_int ne input n = not (input == n)
match_int _ input n = false

-- `Container<T>::match` for `float`.
unfoldable pub match_float : Predicate → ℕ → ℕ → Bool
match_float eq input x = float_beq input x
match_float lt input x = float_ltb input x
match_float gt input x = float_ltb x input
match_float ge input x = float_leb x input
match_float le input x = float_leb input x
match_float ne input x = not (float_beq input x)
match_float _ input x = false

-- `Container<AString>::match`
unfoldable pub match_text : Predicate → Text → Text → Bool
match_text eq input s = input == s
match_text lt input s = text_ltb input s
match_text gt input s = text_ltb s input
match_text ge input s = not (text_ltb input s)
match_text le input s = not (text_ltb s input)
match_text ne input s = not (input == s)
match_text pf input s = starts_with input s
match_text sf input s = ends_with input s
match_text ct input s = contains input s
match_text map_all input s = false

-- `Constraint::operator()(std::string_view)`
unfoldable pub accepts_str : Operand → Text → Bool
accepts_str (text s p) input = match_text p input s
accepts_str _ input = false

-- `Constraint::operator()(int32_t)`
unfoldable pub accepts_int : Operand → ℤ → Bool
accepts_int (number n p) input = match_int p input n
accepts_int _ input = false

-- `Constraint::operator()(float)`
unfoldable pub accepts_float : Operand → ℕ → Bool
accepts_float (real x p) input = match_float p input x
accepts_float _ input = false

-- One round of the loop of the map `match`: an attribute of the operand's type is tested; where
-- there is none, the constraint passes only if it is optional and the attribute is absent.
abbrev pub tested {ℓ} : {A : Type ℓ} → Option A → Bool → (A → Bool) → Bool
tested none absent_passes test = absent_passes
tested (some a) absent_passes test = test a

-- `Container<std::vector<Constraint>>::match`, and `operator()(const Publication::Map&)`.
unfoldable mutual
  pub match_map : Constraints → Map → Bool
  match_map nil input = true
  match_map (cons c cs) input = match_one c input && match_map cs input

  pub match_one : Constraint → Map → Bool
  match_one (constraint a o opt) input = match_operand o a (opt && not (has_attr a input)) input

  pub match_operand : Operand → Text → Bool → Map → Bool
  match_operand monostate a absent input = false
  match_operand (text s p) a absent input =
      tested (get_str_attr a input) absent (λ v. match_text p v s)
  match_operand (number n p) a absent input =
      tested (get_int_attr a input) absent (λ v. match_int p v n)
  match_operand (real x p) a absent input =
      tested (get_float_attr a input) absent (λ v. match_float p v x)
  match_operand (group cs map_all) a absent input =
      tested (get_nested_component a input) absent (match_map cs)
  match_operand (group cs p) a absent input =
      tested (get_nested_component a input) absent (λ _. false)

-- `Constraint::operator()(const Publication::Map&)`
unfoldable pub accepts_map : Operand → Map → Bool
accepts_map (group cs map_all) input = match_map cs input
accepts_map _ input = false

-- `std::find(...) != end()`
abbrev found_by : (Constraint → Bool) → Constraints → Bool
found_by test nil = false
found_by test (cons d ds) = test d || found_by test ds

-- `other._operand == _operand` of `Constraint::operator==`, with the comparison of two containers:
-- each constraint of the first group is looked up in the second. The optional flag is not compared.
unfoldable mutual
  pub operand_beq : Operand → Operand → Bool
  operand_beq monostate monostate = true
  operand_beq (text s p) (text t q) = (s == t) && predicate_beq p q
  operand_beq (number m p) (number n q) = (m == n) && predicate_beq p q
  operand_beq (real x p) (real y q) = float_beq x y && predicate_beq p q
  operand_beq (group cs p) (group ds q) =
      predicate_beq p q && predicate_beq p map_all && all_found cs ds
  operand_beq _ _ = false

  pub all_found : Constraints → Constraints → Bool
  all_found nil ds = true
  all_found (cons c cs) ds = found_by (is_equal_to c) ds && all_found cs ds

  -- `it == c`, by recursion on `c`
  pub is_equal_to : Constraint → Constraint → Bool
  is_equal_to (constraint a o opt) it = (a == attribute it) && operand_beq o (operand it)

-- `c == d`
abbrev pub constraint_beq : Constraint → Constraint → Bool
constraint_beq c d = is_equal_to d c
