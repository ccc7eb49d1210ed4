-- ===== src/Filter/Encoding.antt =====
-- Filters as publication maps: `add_constraint_to_map` and `to_publication_map` of
-- uActor/src/pubsub/filter.cpp. Constraints on one attribute share an entry of the map: the first is
-- stored itself, and from the second on they stand in a container that is marked by `_m`.
use u_actor.Prelude.{
  ℕ, zero, suc, ◌+◌, ◌-◌, ◌/◌, ◌%◌, Text, pos, Bool, true, false, Option, none, some, List, [], ◌∷◌,
  ◌++◌, if◌then◌else◌, ltb, codes,
}
use u_actor.Publication.{
  Value, str, int, flt, nested, Map, empty, size, has_attr, get_nested_component, set_attr,
}
use u_actor.Constraint.Predicates.{Predicate, tag, name}
use u_actor.Constraint.{
  Constraint, constraint, Operand, monostate, text, number, real, group, Constraints, nil, cons,
}
use u_actor.Filter.{Filter}

digits_of : ℕ → ℕ → Text
digits_of zero n = []
digits_of (suc fuel) n =
    let rest = digits_of fuel (n / 10) in
    let digit : Text = (48 + n % 10) ∷ [] in if ltb n 10 then digit else rest ++ digit

-- `std::to_string(size_t)`; a number has fewer digits than its value and one.
unfoldable pub to_string : ℕ → Text
unfolding digits_of
to_string n = digits_of (suc n) n

abbrev or_empty_text : Option Text → Text
or_empty_text none = []
or_empty_text (some s) = s

abbrev or_empty : Option Map → Map
or_empty none = empty
or_empty (some m) = m

-- `operator`, with the name of the predicate.
abbrev operator_map : Predicate → Map
operator_map p = set_attr (codes "operator") (str (or_empty_text (name (tag p)))) empty

abbrev flag : Bool → Value
flag true = int (pos 1)
flag false = int (pos 0)

-- The end of `add_constraint_to_map`: the encoded constraint goes to its attribute. Every entry of
-- the map that is built is a nested map, so that the handle is not null.
unfoldable pub store_encoded : Text → Map → Map → Map
store_encoded a current m =
    let handle = or_empty (get_nested_component a m) in
    if has_attr a m
    then if has_attr (codes "_m") handle
      then set_attr a (nested (set_attr (to_string (size handle - 1)) (nested current) handle)) m
      else set_attr a
          (nested (
            set_attr (codes "1") (nested current)
              (set_attr (codes "0") (nested handle) (set_attr (codes "_m") (int (pos 1)) empty))))
          m
    else set_attr a (nested current) m

-- `add_constraint_to_map`; a constraint without operand adds nothing.
unfoldable mutual
  pub add_constraint_to_map : Constraint → Map → Map
  add_constraint_to_map (constraint a o opt) m = elim (encoded_operand o) [
    | none ↦ m
    | some current ↦ store_encoded a (set_attr (codes "optional") (flag opt) current) m
  ]

  pub encoded_operand : Operand → Option Map
  encoded_operand monostate = none
  encoded_operand (text s p) = some (set_attr (codes "operand") (str s) (operator_map p))
  encoded_operand (number n p) = some (set_attr (codes "operand") (int n) (operator_map p))
  encoded_operand (real x p) = some (set_attr (codes "operand") (flt x) (operator_map p))
  encoded_operand (group cs p) =
      some (set_attr (codes "operand") (nested (add_constraints_to_map cs empty)) (operator_map p))

  pub add_constraints_to_map : Constraints → Map → Map
  add_constraints_to_map nil m = m
  add_constraints_to_map (cons c cs) m = add_constraints_to_map cs (add_constraint_to_map c m)

add_list_to_map : List Constraint → Map → Map
add_list_to_map [] m = m
add_list_to_map (c ∷ cs) m = add_list_to_map cs (add_constraint_to_map c m)

-- `to_publication_map`
unfoldable pub to_publication_map : Filter → Map
unfolding add_list_to_map add_constraint_to_map
to_publication_map f =
    add_list_to_map f.optional_constraints (add_list_to_map f.required_constraints empty)
