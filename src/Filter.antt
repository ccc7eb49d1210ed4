-- ===== src/Filter.antt =====
-- Filters: `Filter` of uActor/src/pubsub/filter.cpp and uActor/include/pubsub/filter.hpp, and
-- `InternalFilter` of uActor/include/pubsub/internal_filter.hpp. The shared pointers to constraints
-- that an `InternalFilter` holds are pointers to constants, so the constraints stand in their place.
pub mod Agreement
pub mod Encoding
use u_actor.Prelude.{
  ℕ, ◌≡◌, Text, Bool, true, false, not, ◌&&◌, ◌||◌, Option, none, some, List, [], ◌∷◌, ◌++◌, ◌==◌,
  nat_eq, if◌then◌else◌, length, any, all,
}
use u_actor.Publication.{Value, str, int, flt, bin, nested, Map, get_attr}
use u_actor.Constraint.{
  Constraint, Operand, attribute, operand, optional, accepts_str, accepts_int, accepts_float,
  accepts_map, constraint_beq,
}

pub record Filter : Type 0 where
  pub required_constraints : List Constraint
  pub optional_constraints : List Constraint

-- The constructors from a range of constraints: the optional ones are kept apart.
unfoldable pub make_filter : List Constraint → Filter
make_filter [] = record { required_constraints = []; optional_constraints = [] }
make_filter (c ∷ cs) =
    let f = make_filter cs in
    if optional c
    then record f { optional_constraints = c ∷ f.optional_constraints }
    else record f { required_constraints = c ∷ f.required_constraints }

-- `Filter::clear`
unfoldable pub clear : Filter → Filter
clear f = record { required_constraints = []; optional_constraints = [] }

-- The tests of an attribute that is there, in `Filter`: one for each type but the binary one.
unfoldable pub passes : Operand → Value → Bool
passes o (str s) = accepts_str o s
passes o (int n) = accepts_int o n
passes o (flt x) = accepts_float o x
passes o (bin b) = true
passes o (nested m) = accepts_map o m

-- `Filter::check_required`
unfoldable pub check_required : List Constraint → Map → Bool
check_required [] p = true
check_required (c ∷ cs) p =
    (elim (get_attr (attribute c) p) [ none ↦ false | some v ↦ passes (operand c) v ])
    && check_required cs p

-- `Filter::check_optionals`
unfoldable pub check_optionals : List Constraint → Map → Bool
check_optionals [] p = true
check_optionals (c ∷ cs) p =
    (elim (get_attr (attribute c) p) [ none ↦ true | some v ↦ passes (operand c) v ])
    && check_optionals cs p

-- `Filter::matches`
unfoldable pub matches : Filter → Map → Bool
unfolding check_required check_optionals
matches f p =
    if not (check_required f.required_constraints p)
    then false
    else check_optionals f.optional_constraints p

-- `std::find(cs.begin(), cs.end(), c) != cs.end()`
abbrev pub found : Constraint → List Constraint → Bool
found c cs = any (λ it. constraint_beq it c) cs

-- `Filter::operator==`, and the comparison of an `InternalFilter` with a `Filter`.
unfoldable pub filter_beq : Filter → Filter → Bool
filter_beq f g =
    if not (length f.required_constraints == length g.required_constraints)
      || not (length f.optional_constraints == length g.optional_constraints)
    then false
    else all (λ c. found c g.required_constraints) f.required_constraints
      && all (λ c. found c g.optional_constraints) f.optional_constraints

pub record InternalFilter : Type 0 where
  pub required : List Constraint
  pub optional : List Constraint
  pub initialized : Bool

-- `InternalFilter()`
unfoldable pub new_internal : InternalFilter
new_internal = record { required = []; optional = []; initialized = false }

-- `set_constraints`
unfoldable pub set_constraints : List Constraint → List Constraint → InternalFilter → InternalFilter
set_constraints req opt f = record { required = req; optional = opt; initialized = true }

-- `to_filter`
unfoldable pub to_filter : InternalFilter → Filter
to_filter f = record { required_constraints = f.required; optional_constraints = f.optional }

-- The tests of an attribute that is there, in `InternalFilter`: a map is not tested either.
unfoldable pub internal_passes : Operand → Value → Bool
internal_passes o (str s) = accepts_str o s
internal_passes o (int n) = accepts_int o n
internal_passes o (flt x) = accepts_float o x
internal_passes o (bin b) = true
internal_passes o (nested m) = true

-- `InternalFilter::check_required`
unfoldable pub internal_check_required : List Constraint → Map → Bool
internal_check_required [] p = true
internal_check_required (c ∷ cs) p =
    (elim (get_attr (attribute c) p) [ none ↦ false | some v ↦ internal_passes (operand c) v ])
    && internal_check_required cs p

-- `InternalFilter::check_optionals`; its callers hold initialised filters, so that the assertion
-- passes.
unfoldable pub internal_check_optionals : List Constraint → Map → Bool
internal_check_optionals [] p = true
internal_check_optionals (c ∷ cs) p =
    (elim (get_attr (attribute c) p) [ none ↦ true | some v ↦ internal_passes (operand c) v ])
    && internal_check_optionals cs p

-- `InternalFilter::matches`
unfoldable pub internal_matches : InternalFilter → Map → Bool
unfolding internal_check_required internal_check_optionals
internal_matches f p = internal_check_required f.required p && internal_check_optionals f.optional p

-- `InternalFilter::operator==(const Filter&)`
unfoldable pub internal_beq : InternalFilter → Filter → Bool
unfolding filter_beq to_filter
internal_beq f g = filter_beq (to_filter f) g
