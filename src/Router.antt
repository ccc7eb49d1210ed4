-- ===== src/Router.antt =====
-- The router: uActor/include/pubsub/router.hpp and uActor/src/pubsub/router.cpp. Each method holds
-- the router's lock, so that methods are atomic and take the state to a new state and to the
-- messages that they hand to receivers, in order. Identifiers of subscriptions and nodes do not wrap.
pub mod Matching
pub mod Invariant
pub mod Meta
pub mod Change
use u_actor.Prelude.{
  ℕ, zero, suc, ◌+◌, ◌-◌, ◌%◌, ◌^◌, ◌≡◌, Text, ℤ, Bool, true, false, not, ◌&&◌, ◌||◌, Option, none,
  some, List, [], ◌∷◌, ◌++◌, ◌==◌, nat_eq, text_eq, if◌then◌else◌, ltb, length, map, codes,
}
use u_actor.Prelude.Assoc.{lookup, insert, erase}
use u_actor.Publication.{
  Value, str, int, flt, bin, nested, Map, entries, has_attr, get_str_attr, set_attr, copy_map,
  has_map_attrs, is_some,
}
use u_actor.Constraint.{Constraint, attribute, Operand}
use u_actor.Filter.{Filter, internal_check_optionals}
use u_actor.Arguments.{SubscriptionArguments, to_int32}
use u_actor.Index.{
  Counter, ConstraintIndex, Probe, of_str, of_int, of_float, of_map, SubscriptionCounter, check,
  new_index, insert_constraint, remove_constraint,
}
use u_actor.Subscription.{Subscription, Receivers, NodeList, count_required, count_optional}

pub record Router : Type 0 where
  -- `BoardFunctions::NODE_ID`, `BoardFunctions::epoch`
  pub node_id : Text
  pub epoch : ℤ
  -- `SequenceNumberForwardingStrategy::sequence_number`, an atomic 32-bit counter
  pub sequence_number : ℕ
  pub next_sub_id : ℕ
  pub subscriptions : List (ℕ × Subscription)
  pub constraints : List (Text × ConstraintIndex)
  pub no_requirements : List ℕ
  pub peer_node_ids : List (Text × (Bool × ℕ))
  pub next_node_id : ℕ

-- The member initialisers, and the counter's.
unfoldable pub new_router : Text → ℤ → Router
new_router node_id epoch = record {
  node_id = node_id;
  epoch = epoch;
  sequence_number = 1;
  next_sub_id = 11;
  subscriptions = [];
  constraints = [];
  no_requirements = [];
  peer_node_ids = (node_id, (true, 1)) ∷ [];
  next_node_id = 2;
}

-- `MatchedPublication`, with the receiver that it goes to.
pub record Delivery : Type 0 where
  pub receiver : ℕ
  pub publication : Map
  pub subscription_id : ℕ

abbrev pub is_text : Option Text → Text → Bool
is_text none s = false
is_text (some t) s = t == s

-- A publication of this node gets the next sequence number, unless it has one.
unfoldable pub stamp : Router → Map → Router × Map
unfolding to_int32
stamp r p =
    if is_text (get_str_attr (codes "publisher_node_id") p) r.node_id
      && not (has_attr (codes "_internal_sequence_number") p)
    then (
      record r { sequence_number = (r.sequence_number + 1) % 2 ^ 32 },
      set_attr (codes "_internal_epoch") (int r.epoch)
          (set_attr (codes "_internal_sequence_number") (int (to_int32 r.sequence_number)) p),
    )
    else (r, p)

-- The argument of `check` for a value; no check is made for a binary one.
unfoldable pub probe : Value → Option Probe
probe (str s) = some (of_str s)
probe (int n) = some (of_int n)
probe (flt x) = some (of_float x)
probe (bin b) = none
probe (nested m) = some (of_map m)

-- One round of the loop over the attributes of a publication.
unfoldable pub count_attribute : List (Text × ConstraintIndex) → Text → Value → Counter → Counter
unfolding probe
count_attribute constraints a v counter = elim (lookup a constraints) [
  | none ↦ counter
  | some ix ↦ elim (probe v) [ none ↦ counter | some value ↦ check value ix counter ]
]

unfoldable pub count_matches :
    List (Text × ConstraintIndex) → List (Text × Value) → Counter → Counter
unfolding count_attribute
count_matches constraints [] counter = counter
count_matches constraints ((a, v) ∷ rest) counter =
    count_matches constraints rest (count_attribute constraints a v counter)

-- `current_priority`, an 8-bit number, and `current_receivers`.
pub record Selection : Type 0 where
  pub current_priority : ℕ
  pub current_receivers : List (ℕ × ℕ)

unfoldable pub no_selection : Selection
no_selection = record { current_priority = 0; current_receivers = [] }

abbrev pub receivers_of : Subscription → List (ℕ × ℕ)
receivers_of sub = map (λ r. (r.0, sub.subscription_id)) sub.receivers

-- A subscription that matches: a higher priority than the current one starts the list anew, a lower
-- one is passed over.
unfoldable pub consider : Subscription → Selection → Selection
consider sub sel =
    let priority = sub.arguments.priority in
    if ltb sel.current_priority priority
    then record { current_priority = priority % 2 ^ 8; current_receivers = receivers_of sub }
    else if ltb priority sel.current_priority
    then sel
    else record sel { current_receivers = sel.current_receivers ++ receivers_of sub }

-- The test on the counts of a subscription.
unfoldable pub counts_match : Subscription → SubscriptionCounter → Map → Bool
counts_match sub counts p =
    counts.required == count_required sub
    && (counts.optional == count_optional sub || internal_check_optionals sub.filter.optional p)

consider_counted : Option Subscription → SubscriptionCounter → Map → Selection → Selection
unfolding consider counts_match
consider_counted none counts p sel = sel
consider_counted (some sub) counts p sel =
    if counts_match sub counts p then consider sub sel else sel

-- The loop over the counters. A pointer to a subscription that is gone would be read here; the
-- invariant of the router excludes it.
unfoldable pub select_counted : List (ℕ × Subscription) → Map → Counter → Selection → Selection
unfolding consider_counted
select_counted subs p [] sel = sel
select_counted subs p ((id, counts) ∷ rest) sel =
    select_counted subs p rest (consider_counted (lookup id subs) counts p sel)

consider_remaining : Option Subscription → Bool → Map → Selection → Selection
unfolding consider
consider_remaining none counted p sel = sel
consider_remaining (some sub) counted p sel =
    if counted
    then sel
    else if internal_check_optionals sub.filter.optional p
    then consider sub sel
    else sel

-- The loop over the subscriptions without required constraints that have no counter.
unfoldable pub select_remaining :
    List (ℕ × Subscription) → Map → Counter → List ℕ → Selection → Selection
unfolding consider_remaining
select_remaining subs p counter [] sel = sel
select_remaining subs p counter (id ∷ rest) sel =
    select_remaining subs p counter rest
      (consider_remaining (lookup id subs) (is_some (lookup id counter)) p sel)

-- `Publication(publication)` for a receiver: a map with nested maps is copied, any other shared.
abbrev pub copied_publication : Map → Map
copied_publication p = if has_map_attrs p then copy_map p else p

-- Each receiver but the last gets a copy, the last the publication itself.
unfoldable pub deliver : Map → List (ℕ × ℕ) → List Delivery
deliver p [] = []
deliver p ((r, id) ∷ []) = record { receiver = r; publication = p; subscription_id = id } ∷ []
deliver p ((r, id) ∷ (next ∷ rest)) =
    record { receiver = r; publication = copied_publication p; subscription_id = id }
    ∷ deliver p (next ∷ rest)

-- The receivers that the matching part of `publish_internal` finds.
unfoldable pub select : Router → Map → Selection
unfolding count_matches select_counted select_remaining no_selection
select r p =
    let counter = count_matches r.constraints (entries p) [] in
    select_remaining r.subscriptions p counter r.no_requirements
      (select_counted r.subscriptions p counter no_selection)

-- `publish_internal`, and `publish`, which takes the lock.
unfoldable pub publish : Map → Router → Router × List Delivery
unfolding stamp select deliver
publish publication r =
    let (r', p) = stamp r publication in (r', deliver p (select r' p).current_receivers)
