-- ===== src/Index.antt =====
-- The index of the constraints on one attribute: uActor/include/pubsub/constraint_index.hpp. A
-- `Subscription*` is the identifier of the subscription, which the router keeps in a node of a map.
pub mod Tally
pub mod Insertion
use u_actor.Prelude.{
  ℕ, zero, suc, ◌+◌, ◌≡◌, Text, ℤ, Bool, true, false, not, ◌&&◌, ◌||◌, Option, none, some, List, [],
  ◌∷◌, ◌++◌, ◌==◌, nat_eq, text_eq, text_ltb, if◌then◌else◌, length, any,
}
use u_actor.Prelude.Assoc.{lookup, insert}
use u_actor.Publication.{Map}
use u_actor.Constraint.Predicates.{Predicate, eq, predicate_beq}
use u_actor.Constraint.{
  Constraint, Operand, monostate, text, number, real, group, operand, accepts_str, accepts_int,
  accepts_float, accepts_map, constraint_beq,
}

pub record SubscriptionCounter : Type 0 where
  pub required : ℕ
  pub optional : ℕ

-- `Counter`: an `unordered_map` from subscriptions to their counts.
abbrev pub Counter : Type 0
Counter = List (ℕ × SubscriptionCounter)

-- `ConstraintItem`: a stored constraint, and the subscriptions that have it, each with a flag that
-- says whether it is optional there.
pub record ConstraintItem : Type 0 where
  pub stored_constraint : Constraint
  pub relevant_subscriptions : List (ℕ × Bool)

pub record ConstraintIndex : Type 0 where
  pub string_equal : List ConstraintItem
  pub index : List ConstraintItem

-- `ConstraintIndex()`
pub new_index : ConstraintIndex
new_index = record { string_equal = []; index = [] }

-- The alternatives of the argument of `check`.
pub data Probe : Type 0 where
  of_str : Text → Probe
  of_int : ℤ → Probe
  of_float : ℕ → Probe
  of_map : Map → Probe

-- The operand of a constraint that belongs into the string index, `string ==`.
unfoldable pub string_operand : Operand → Option Text
string_operand (text s p) = if predicate_beq p eq then some s else none
string_operand _ = none

-- `std::get<std::string_view>` of the operand of a constraint of the string index.
unfoldable pub key_of : Operand → Text
key_of (text s p) = s
key_of _ = []

-- The value that the comparison of `std::lower_bound` reads.
abbrev pub item_key : ConstraintItem → Text
item_key it = key_of (operand it.stored_constraint)

-- `find_if` on the subscriptions of an item.
abbrev pub has_subscription : ℕ → List (ℕ × Bool) → Bool
has_subscription sub [] = false
has_subscription sub ((s, o) ∷ rest) = s == sub || has_subscription sub rest

-- The subscription is added to an item, unless it is there already.
unfoldable pub add_subscription_to : ℕ → Bool → ConstraintItem → ConstraintItem
add_subscription_to sub opt it =
    if has_subscription sub it.relevant_subscriptions
    then it
    else record it { relevant_subscriptions = it.relevant_subscriptions ++ (sub, opt) ∷ [] }

abbrev new_item : Constraint → ℕ → Bool → ConstraintItem
new_item c sub opt = record { stored_constraint = c; relevant_subscriptions = (sub, opt) ∷ [] }

-- `insert` into the string index: at the place that `lower_bound` finds in the sorted vector, which
-- is the first item whose operand is not below the new one.
unfoldable pub insert_string :
    Text → Constraint → ℕ → Bool → List ConstraintItem → List ConstraintItem × Constraint
unfolding add_subscription_to
insert_string v c sub opt [] = (new_item c sub opt ∷ [], c)
insert_string v c sub opt (it ∷ rest) =
    let (rest', stored) = insert_string v c sub opt rest in
    if text_ltb (item_key it) v
    then (it ∷ rest', stored)
    else if not (v == item_key it)
    then (new_item c sub opt ∷ it ∷ rest, c)
    else (add_subscription_to sub opt it ∷ rest, it.stored_constraint)

-- `insert` into the fallback index.
unfoldable pub insert_fallback :
    Constraint → ℕ → Bool → List ConstraintItem → List ConstraintItem × Constraint
unfolding add_subscription_to
insert_fallback c sub opt [] = (new_item c sub opt ∷ [], c)
insert_fallback c sub opt (it ∷ rest) =
    let (rest', stored) = insert_fallback c sub opt rest in
    if constraint_beq it.stored_constraint c
    then (add_subscription_to sub opt it ∷ rest, it.stored_constraint)
    else (it ∷ rest', stored)

-- `ConstraintIndex::insert`: the index after it, and the stored constraint.
unfoldable pub insert_constraint :
    Constraint → ℕ → Bool → ConstraintIndex → ConstraintIndex × Constraint
unfolding insert_string insert_fallback string_operand
insert_constraint c sub opt ix = elim (string_operand (operand c)) [
  | some v ↦
      let (items, stored) = insert_string v c sub opt ix.string_equal in
      (record ix { string_equal = items }, stored)
  | none ↦
      let (items, stored) = insert_fallback c sub opt ix.index in
      (record ix { index = items }, stored)
]

-- `erase` of the first pair of the subscription.
unfoldable pub erase_subscription : ℕ → List (ℕ × Bool) → List (ℕ × Bool)
erase_subscription sub [] = []
erase_subscription sub ((s, o) ∷ rest) =
    if s == sub then rest else (s, o) ∷ erase_subscription sub rest

-- An item that `remove` has found: it goes if it has one subscription, whichever that is.
unfoldable pub remove_from : ℕ → ConstraintItem → List ConstraintItem → List ConstraintItem
unfolding erase_subscription
remove_from sub it rest =
    if length it.relevant_subscriptions == 1
    then rest
    else record it { relevant_subscriptions = erase_subscription sub it.relevant_subscriptions }
      ∷ rest

-- `remove` from the string index.
unfoldable pub remove_string : Text → ℕ → List ConstraintItem → List ConstraintItem
unfolding remove_from
remove_string v sub [] = []
remove_string v sub (it ∷ rest) =
    let rest' = remove_string v sub rest in
    if text_ltb (item_key it) v
    then it ∷ rest'
    else if item_key it == v
    then remove_from sub it rest
    else it ∷ rest

-- `remove` from the fallback index.
unfoldable pub remove_fallback : Constraint → ℕ → List ConstraintItem → List ConstraintItem
unfolding remove_from
remove_fallback c sub [] = []
remove_fallback c sub (it ∷ rest) =
    let rest' = remove_fallback c sub rest in
    if constraint_beq it.stored_constraint c then remove_from sub it rest else it ∷ rest'

abbrev pub is_empty : ConstraintIndex → Bool
is_empty ix = length ix.index == 0 && length ix.string_equal == 0

-- `ConstraintIndex::remove`: the index after it, and whether that is empty.
unfoldable pub remove_constraint : Constraint → ℕ → ConstraintIndex → ConstraintIndex × Bool
unfolding remove_string remove_fallback string_operand
remove_constraint c sub ix =
    let ix' : ConstraintIndex = elim (string_operand (operand c)) [
      | some v ↦ record ix { string_equal = remove_string v sub ix.string_equal }
      | none ↦ record ix { index = remove_fallback c sub ix.index }
    ] in
    (ix', is_empty ix')

-- `try_emplace` and the increment of one of the two counts.
abbrev pub or_zero : Option SubscriptionCounter → SubscriptionCounter
or_zero none = record { required = 0; optional = 0 }
or_zero (some n) = n

abbrev pub increment : Bool → SubscriptionCounter → SubscriptionCounter
increment true n = record n { optional = n.optional + 1 }
increment false n = record n { required = n.required + 1 }

unfoldable pub bump : ℕ → Bool → Counter → Counter
bump sub opt counter = insert sub (increment opt (or_zero (lookup sub counter))) counter

unfoldable pub bump_all : List (ℕ × Bool) → Counter → Counter
unfolding bump
bump_all [] counter = counter
bump_all ((sub, opt) ∷ rest) counter = bump_all rest (bump sub opt counter)

-- `operator()` of the stored constraint, for the alternative that the value holds.
unfoldable pub accepts : Operand → Probe → Bool
accepts o (of_str s) = accepts_str o s
accepts o (of_int n) = accepts_int o n
accepts o (of_float x) = accepts_float o x
accepts o (of_map m) = accepts_map o m

-- The lookup in the string index.
unfoldable pub check_string : Text → List ConstraintItem → Counter → Counter
unfolding bump_all
check_string v [] counter = counter
check_string v (it ∷ rest) counter =
    let later = check_string v rest counter in
    if text_ltb (item_key it) v
    then later
    else if item_key it == v
    then bump_all it.relevant_subscriptions counter
    else counter

-- The scan of the fallback index.
unfoldable pub check_fallback : Probe → List ConstraintItem → Counter → Counter
unfolding bump_all accepts
check_fallback value [] counter = counter
check_fallback value (it ∷ rest) counter = check_fallback value rest (
    if accepts (operand it.stored_constraint) value
    then bump_all it.relevant_subscriptions counter
    else counter)

-- `ConstraintIndex::check`
unfoldable pub check : Probe → ConstraintIndex → Counter → Counter
unfolding check_string check_fallback
check (of_str s) ix counter =
    check_fallback (of_str s) ix.index (check_string s ix.string_equal counter)
check value ix counter = check_fallback value ix.index counter
