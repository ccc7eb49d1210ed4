-- ===== src/Router/Change.antt =====
-- Adding and removing subscriptions: add_subscription and remove_subscription of
-- uActor/src/pubsub/router.cpp.
pub mod Indexing
pub mod Adding
pub mod Replay
use u_actor.Prelude.{
  ℕ, suc, ◌+◌, ◌≡◌, Text, Bool, true, false, not, ◌&&◌, ◌||◌, Option, none, some, List, [], ◌∷◌,
  ◌++◌, ◌==◌, nat_eq, text_eq, if◌then◌else◌, length, codes,
}
use u_actor.Prelude.Assoc.{lookup, insert, erase}
use u_actor.Publication.{Value, str, nested, Map, empty, set_attr, is_some}
use u_actor.Constraint.Predicates.{eq, predicate_beq}
use u_actor.Constraint.{
  Constraint, Operand, text, monostate, number, real, group, attribute, operand, accepts_map,
}
use u_actor.Filter.{Filter, InternalFilter, to_filter, internal_beq}
use u_actor.Filter.Encoding.{to_publication_map}
use u_actor.Arguments.{
  SubscriptionArguments, FetchPolicy, no_policy, fetch, fetch_future, future, arguments_beq, to_map,
  policy_beq,
}
use u_actor.ActorIdentifier.{ActorIdentifier, actor_to_map}
use u_actor.Index.{ConstraintIndex, new_index, insert_constraint, remove_constraint}
use u_actor.Subscription.{
  Subscription, NodeList, member, erase_node, make_subscription, add_receiver, remove_receiver,
  nodes, set_subscription_constraints, count_required,
}
use u_actor.Router.{Router, Delivery, publish}
use u_actor.Router.Meta.{
  Result, subscription_added, subscription_removed, find_subscription, is_fetch_meta_subscription,
  publish_each, handle_meta_subscription,
}

abbrev pub or_new : Option ConstraintIndex → ConstraintIndex
or_new none = record { string_equal = []; index = [] }
or_new (some ix) = ix

-- One constraint goes into the index of its attribute, which `try_emplace` finds or makes.
unfoldable pub index_constraint :
    Constraint
    → ℕ
    → Bool
    → List (Text × ConstraintIndex)
    → List (Text × ConstraintIndex) × Constraint
index_constraint c id opt constraints =
    let (ix, stored) = insert_constraint c id opt (or_new (lookup (attribute c) constraints)) in
    (insert (attribute c) ix constraints, stored)

-- The two loops of the index maintenance; the second part is the list of stored constraints.
unfoldable pub index_constraints :
    List Constraint
    → ℕ
    → Bool
    → List (Text × ConstraintIndex)
    → List (Text × ConstraintIndex) × List Constraint
unfolding index_constraint
index_constraints [] id opt constraints = (constraints, [])
index_constraints (c ∷ cs) id opt constraints =
    let (one, stored) = index_constraint c id opt constraints in
    let (all', rest) = index_constraints cs id opt one in (all', stored ∷ rest)

-- The entry of a new subscription, without the message that announces it.
unfoldable pub register : Filter → ℕ → ℕ → SubscriptionArguments → Router → Router
unfolding index_constraints
register f receiver internal_node_id args r =
    let id = r.next_sub_id in
    let (with_required, required) =
      index_constraints f.required_constraints id false r.constraints in
    let (with_optional, optional) =
      index_constraints f.optional_constraints id true with_required in
    let sub =
      set_subscription_constraints required optional
        (make_subscription id receiver internal_node_id args) in
    record r {
      next_sub_id = suc id;
      subscriptions = insert id sub r.subscriptions;
      constraints = with_optional;
      no_requirements =
          if count_required sub == 0 then r.no_requirements ++ id ∷ [] else r.no_requirements;
    }

-- `peer_node_ids.try_emplace`: the number of a peer, new if the peer is. The next number is used up
-- either way.
unfoldable pub peer_number : Text → Router → Router × ℕ
peer_number peer r = elim (lookup peer r.peer_node_ids) [
  | some known ↦ (record r { next_node_id = suc r.next_node_id }, known.1)
  | none ↦ (
    record r {
      next_node_id = suc r.next_node_id;
      peer_node_ids = insert peer (false, r.next_node_id) r.peer_node_ids;
    },
    r.next_node_id,
  )
]

-- The last node of a set that is not the given one, 0 if there is none.
other_node : ℕ → NodeList → ℕ → ℕ
other_node n [] found = found
other_node n (m ∷ rest) found = other_node n rest (if m == n then found else m)

-- The peer with a number; the caller's number belongs to a peer.
peer_name : ℕ → List (Text × (Bool × ℕ)) → Text
peer_name n [] = []
peer_name n ((name, (b, m)) ∷ rest) = if m == n then name else peer_name n rest

exclude_of : Text → Router → Text
exclude_of source_peer r = if source_peer == r.node_id then [] else source_peer

-- What is announced when a subscription gets another node: its message, if there is one.
unfoldable pub announcement :
    Filter → SubscriptionArguments → ActorIdentifier → Text → ℕ → NodeList → Router → List Map
unfolding other_node peer_name exclude_of
announcement f args subscriber source_peer internal_node_id all_nodes r =
    if length all_nodes == 2
    then subscription_added f args subscriber []
        (peer_name (other_node internal_node_id all_nodes 0) r.peer_node_ids)
      ∷ []
    else if policy_beq args.fetch_policy fetch_future
    then subscription_added f args subscriber (exclude_of source_peer r) [] ∷ []
    else if source_peer == r.node_id
    then subscription_added f args subscriber [] r.node_id ∷ []
    else []

-- The subscription is known: its receiver or node is added.
unfoldable pub extend :
    Filter
    → SubscriptionArguments
    → ActorIdentifier
    → Text
    → ℕ
    → ℕ
    → ℕ
    → Subscription
    → Router
    → Result ℕ
unfolding announcement publish_each
extend f args subscriber source_peer receiver internal_node_id id sub r =
    let (sub', updated) = add_receiver receiver internal_node_id sub in
    let r1 = record r { subscriptions = insert id sub' r.subscriptions } in
    let (r2, out) =
      publish_each
        (if updated
          then announcement f args subscriber source_peer internal_node_id (nodes sub') r1
          else [])
        r1 in
    (r2, out, sub.subscription_id)

-- `add_subscription`, after the handling of meta subscriptions.
unfoldable pub subscribe :
    Filter → ℕ → ActorIdentifier → Text → SubscriptionArguments → Router → Result ℕ
unfolding exclude_of peer_number find_subscription register extend
subscribe f receiver subscriber source_peer args r =
    if policy_beq args.fetch_policy fetch
    then (let (r1, out) =
          publish (subscription_added f args subscriber (exclude_of source_peer r) []) r in
        (r1, out, 1))
    else (let (r1, internal_node_id) = peer_number source_peer r in
        elim (find_subscription f args r1.subscriptions) [
          | some (id, sub) ↦
              extend f args subscriber source_peer receiver internal_node_id id sub r1
          | none ↦
              let r2 = register f receiver internal_node_id args r1 in
              let (r3, out) =
                publish (subscription_added f args subscriber (exclude_of source_peer r) []) r2 in
              (r3, out, r1.next_sub_id)
        ])

-- `add_subscription`
unfoldable pub add_subscription :
    Filter → ℕ → ActorIdentifier → Text → SubscriptionArguments → Router → Result ℕ
unfolding handle_meta_subscription is_fetch_meta_subscription subscribe
add_subscription f receiver subscriber source_peer args r =
    let (r1, told) : Router × List Delivery =
      if is_fetch_meta_subscription f args
      then handle_meta_subscription f subscriber r
      else (r, []) in
    let (r2, out, id) = subscribe f receiver subscriber source_peer args r1 in (r2, told ++ out, id)

-- A constraint leaves the index of its attribute, which goes when it is empty.
unfoldable pub unindex_constraint :
    Constraint → ℕ → List (Text × ConstraintIndex) → List (Text × ConstraintIndex)
unindex_constraint c id constraints = elim (lookup (attribute c) constraints) [
  | none ↦ constraints
  | some ix ↦
      let (ix', gone) = remove_constraint c id ix in
      if gone then erase (attribute c) constraints else insert (attribute c) ix' constraints
]

unfoldable pub unindex_constraints :
    List Constraint → ℕ → List (Text × ConstraintIndex) → List (Text × ConstraintIndex)
unfolding unindex_constraint
unindex_constraints [] id constraints = constraints
unindex_constraints (c ∷ cs) id constraints =
    unindex_constraints cs id (unindex_constraint c id constraints)

-- A subscription without receivers leaves the router.
unfoldable pub unregister : ℕ → Subscription → Router → Router
unfolding unindex_constraints
unregister id sub r = record r {
  no_requirements =
      if count_required sub == 0 then erase_node id r.no_requirements else r.no_requirements;
  constraints =
      unindex_constraints sub.filter.optional id
        (unindex_constraints sub.filter.required id r.constraints);
  subscriptions = erase sub.subscription_id r.subscriptions;
}

abbrev number_of : Option (Bool × ℕ) → ℕ
number_of none = 0
number_of (some known) = known.1

-- Where one node is left that is not this one, that node is told.
left_alone : NodeList → Text → InternalFilter → SubscriptionArguments → Router → List Map
unfolding peer_name
left_alone (n ∷ []) node_id f args r =
    if n == 1 then [] else subscription_removed node_id f args [] (peer_name n r.peer_node_ids) ∷ []
left_alone _ node_id f args r = []

-- `remove_subscription`; returns how many nodes the receiver has left.
unfoldable pub remove_subscription : ℕ → ℕ → Text → Router → Result ℕ
unfolding unregister left_alone publish_each
remove_subscription sub_id receiver node r =
    let internal_node_id = number_of (lookup node r.peer_node_ids) in
    elim (lookup sub_id r.subscriptions) [
      | none ↦ (r, [], 0)
      | some sub ↦
          let (sub', empty_sub, left) = remove_receiver receiver internal_node_id sub in
          if empty_sub
          then (let (r1, out) =
                publish (subscription_removed r.node_id sub'.filter sub'.arguments [] [])
                  (unregister sub_id sub' r) in
              (r1, out, left))
          else (let r1 = record r { subscriptions = insert sub_id sub' r.subscriptions } in
              let (r2, out) =
                publish_each (left_alone (nodes sub') r.node_id sub'.filter sub'.arguments r1) r1 in
              (r2, out, left))
    ]
