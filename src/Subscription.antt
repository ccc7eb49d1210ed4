-- ===== src/Subscription.antt =====
-- Subscriptions and their receivers: uActor/include/pubsub/subscription.hpp. A `Receiver*` is a number.
use u_actor.Prelude.{
  ℕ, Bool, true, false, not, ◌||◌, Option, none, some, List, [], ◌∷◌, ◌++◌, ◌==◌, nat_eq,
  if◌then◌else◌, length,
}
use u_actor.Prelude.Assoc.{lookup, insert, erase}
use u_actor.Constraint.{Constraint}
use u_actor.Filter.{InternalFilter, new_internal, set_constraints}
use u_actor.Arguments.{SubscriptionArguments}

-- `NodeList`: a set of node numbers.
abbrev pub NodeList : Type 0
NodeList = List ℕ

abbrev pub member : ℕ → NodeList → Bool
member n [] = false
member n (m ∷ rest) = m == n || member n rest

-- `std::set::emplace`
unfoldable pub emplace_node : ℕ → NodeList → NodeList
emplace_node n ns = if member n ns then ns else ns ++ n ∷ []

-- `std::set::erase`
unfoldable pub erase_node : ℕ → NodeList → NodeList
erase_node n [] = []
erase_node n (m ∷ rest) = if m == n then rest else m ∷ erase_node n rest

abbrev pub Receivers : Type 0
Receivers = List (ℕ × NodeList)

pub record Subscription : Type 0 where
  pub subscription_id : ℕ
  pub filter : InternalFilter
  pub arguments : SubscriptionArguments
  pub receivers : Receivers

-- The constructor.
unfoldable pub make_subscription : ℕ → ℕ → ℕ → SubscriptionArguments → Subscription
unfolding new_internal
make_subscription id r node_id args = record {
  subscription_id = id;
  filter = new_internal;
  arguments = args;
  receivers = (r, node_id ∷ []) ∷ [];
}

-- The node list that `try_emplace` finds or makes.
abbrev pub or_none : Option NodeList → NodeList
or_none none = []
or_none (some ns) = ns

-- `add_receiver`: the subscription after it, and whether the node was not known at the receiver.
unfoldable pub add_receiver : ℕ → ℕ → Subscription → Subscription × Bool
unfolding emplace_node
add_receiver receiver source_node_id sub =
    let ns = or_none (lookup receiver sub.receivers) in
    (
      record sub { receivers = insert receiver (emplace_node source_node_id ns) sub.receivers },
      not (member source_node_id ns),
    )

-- `set_constraints`
unfoldable pub set_subscription_constraints :
    List Constraint → List Constraint → Subscription → Subscription
unfolding set_constraints
set_subscription_constraints req opt sub = record sub {
  filter = set_constraints req opt sub.filter;
}

emplace_all : NodeList → NodeList → NodeList
emplace_all [] ns = ns
emplace_all (n ∷ rest) ns = emplace_all rest (emplace_node n ns)

nodes_of : Receivers → NodeList → NodeList
nodes_of [] ns = ns
nodes_of ((r, list) ∷ rest) ns = nodes_of rest (emplace_all list ns)

-- `nodes`: the nodes of all receivers, each once.
unfoldable pub nodes : Subscription → NodeList
unfolding nodes_of emplace_all emplace_node
nodes sub = nodes_of sub.receivers []

abbrev pub no_entries : Receivers → Bool
no_entries [] = true
no_entries (r ∷ rest) = false

-- `remove_receiver`: the subscription after it, whether it has no receiver left, and how many nodes
-- the receiver has left. The node number 0 stands for every node of the receiver.
unfoldable pub remove_receiver : ℕ → ℕ → Subscription → Subscription × Bool × ℕ
unfolding erase_node
remove_receiver receiver source_node_id sub =
    let without = erase receiver sub.receivers in
    let gone : Subscription × Bool × ℕ =
      (record sub { receivers = without }, no_entries without, 0) in
    elim (lookup receiver sub.receivers) [
      | none ↦ (sub, no_entries sub.receivers, 0)
      | some ns ↦
          if source_node_id == 0
          then gone
          else let left = erase_node source_node_id ns in
            if length left == 0
            then gone
            else (record sub { receivers = insert receiver left sub.receivers }, false, length left)
    ]

-- `count_required`, `count_optional`
abbrev pub count_required : Subscription → ℕ
count_required sub = length sub.filter.required

abbrev pub count_optional : Subscription → ℕ
count_optional sub = length sub.filter.optional
