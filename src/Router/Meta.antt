-- ===== src/Router/Meta.antt =====
-- Messages about subscriptions, and meta subscriptions: find_sub_id, handle_meta_subscription,
-- is_fetch_meta_subscription, find_subscriptions_for_meta_filter and the two methods that publish
-- changes of uActor/src/pubsub/router.cpp.
use u_actor.Prelude.{
  ℕ, Text, Bool, false, not, ◌&&◌, ◌||◌, Option, none, some, List, [], ◌∷◌, ◌++◌, ◌==◌, nat_eq,
  text_eq, if◌then◌else◌, codes,
}
use u_actor.Publication.{str, nested, Map, empty, set_attr}
use u_actor.Constraint.Predicates.{eq, predicate_beq}
use u_actor.Constraint.{Constraint, Operand, text, attribute, operand, accepts_map}
use u_actor.Filter.{Filter, InternalFilter, to_filter, internal_beq}
use u_actor.Filter.Encoding.{to_publication_map}
use u_actor.Arguments.{
  SubscriptionArguments, fetch, fetch_future, arguments_beq, to_map, policy_beq,
}
use u_actor.ActorIdentifier.{ActorIdentifier, actor_to_map}
use u_actor.Subscription.{Subscription}
use u_actor.Router.{Router, Delivery, publish}

-- A method that hands out messages and returns a value.
abbrev pub Result : Type 0 → Type 0
Result A = Router × List Delivery × A

-- `Publication(node_id, actor_type, instance_id)`
unfoldable pub new_publication : Text → Text → Text → Map
new_publication node_id actor_type instance_id =
    set_attr (codes "publisher_actor_type") (str actor_type) (
      set_attr (codes "publisher_instance_id") (str instance_id)
        (set_attr (codes "publisher_node_id") (str node_id) empty))

-- An attribute that is set unless its text is empty.
abbrev set_unless_empty : Text → Text → Map → Map
set_unless_empty name [] m = m
set_unless_empty name (c ∷ rest) m = set_attr name (str (c ∷ rest)) m

-- The message of `publish_subscription_added`.
unfoldable pub subscription_added :
    Filter → SubscriptionArguments → ActorIdentifier → Text → Text → Map
unfolding new_publication
subscription_added f args actor exclude include =
    set_unless_empty (codes "include_node_id") include (
      set_unless_empty (codes "exclude_node_id") exclude (
        set_attr (codes "subscription") (nested (to_publication_map f)) (
          set_attr (codes "subscription_arguments") (nested (to_map args)) (
            set_attr (codes "subscriber") (nested (actor_to_map actor)) (
              set_attr (codes "type") (str (codes "local_subscription_added"))
                (new_publication actor.node_id actor.actor_type actor.instance_id))))))

-- The message of `publish_subscription_removed`.
unfoldable pub subscription_removed :
    Text → InternalFilter → SubscriptionArguments → Text → Text → Map
unfolding new_publication
subscription_removed node_id f args exclude include =
    set_unless_empty (codes "include_node_id") include (
      set_unless_empty (codes "exclude_node_id") exclude (
        set_attr (codes "subscription_arguments") (nested (to_map args)) (
          set_attr (codes "subscription") (nested (to_publication_map (to_filter f))) (
            set_attr (codes "type") (str (codes "local_subscription_removed"))
              (new_publication node_id (codes "router") (codes "1"))))))

-- `find_if` over the subscriptions, in the order of their numbers.
unfoldable pub find_subscription :
    Filter → SubscriptionArguments → List (ℕ × Subscription) → Option (ℕ × Subscription)
find_subscription f args [] = none
find_subscription f args ((id, sub) ∷ rest) =
    if internal_beq sub.filter f && arguments_beq sub.arguments args
    then some (id, sub)
    else find_subscription f args rest

-- `find_sub_id`
unfoldable pub find_sub_id : Filter → SubscriptionArguments → Router → ℕ
unfolding find_subscription
find_sub_id f args r = elim (find_subscription f args r.subscriptions) [
  | none ↦ 0
  | some found ↦ found.0
]

-- The required constraint of `is_fetch_meta_subscription`.
is_meta_operand : Operand → Bool
is_meta_operand (text s p) = predicate_beq p eq && (s == codes "local_subscription_added")
is_meta_operand _ = false

has_meta_constraint : List Constraint → Bool
has_meta_constraint [] = false
has_meta_constraint (c ∷ cs) =
    ((attribute c == codes "type") && is_meta_operand (operand c)) || has_meta_constraint cs

-- `is_fetch_meta_subscription`
unfoldable pub is_fetch_meta_subscription : Filter → SubscriptionArguments → Bool
unfolding has_meta_constraint is_meta_operand
is_fetch_meta_subscription f args =
    if not (policy_beq args.fetch_policy fetch || policy_beq args.fetch_policy fetch_future)
    then false
    else has_meta_constraint f.required_constraints

meta_constraint : List Constraint → Option Constraint
meta_constraint [] = none
meta_constraint (c ∷ cs) =
    if attribute c == codes "subscription" then some c else meta_constraint cs

matching_meta : Constraint → List (ℕ × Subscription) → List Subscription
matching_meta c [] = []
matching_meta c ((id, sub) ∷ rest) =
    let others = matching_meta c rest in
    if accepts_map (operand c) (to_publication_map (to_filter sub.filter))
    then sub ∷ others
    else others

-- `find_subscriptions_for_meta_filter`
unfoldable pub find_subscriptions_for_meta_filter : Filter → Router → List Subscription
unfolding meta_constraint matching_meta
find_subscriptions_for_meta_filter meta r = elim (meta_constraint meta.required_constraints) [
  | none ↦ []
  | some c ↦ matching_meta c r.subscriptions
]

-- The message that tells a subscriber of one subscription.
unfoldable pub meta_message : Text → ActorIdentifier → Subscription → Map
unfolding new_publication
meta_message node_id subscriber sub =
    set_attr (codes "__wrapped")
      (nested (
        set_attr (codes "subscription_arguments") (nested (to_map sub.arguments)) (
          set_attr (codes "subscription") (nested (to_publication_map (to_filter sub.filter)))
            (set_attr (codes "type") (str (codes "local_subscription_added")) empty))))
      (set_attr (codes "type") (str (codes "__unicast_wrapper")) (
        set_attr (codes "instance_id") (str subscriber.instance_id) (
          set_attr (codes "actor_type") (str subscriber.actor_type) (
            set_attr (codes "node_id") (str subscriber.node_id)
              (new_publication node_id (codes "router") (codes "1"))))))

-- Messages published one after the other.
unfoldable pub publish_each : List Map → Router → Router × List Delivery
publish_each [] r = (r, [])
publish_each (p ∷ ps) r =
    let (r1, out) = publish p r in let (r2, rest) = publish_each ps r1 in (r2, out ++ rest)

abbrev messages_for : Text → ActorIdentifier → List Subscription → List Map
messages_for node_id subscriber [] = []
messages_for node_id subscriber (sub ∷ rest) =
    meta_message node_id subscriber sub ∷ messages_for node_id subscriber rest

-- `handle_meta_subscription`
unfoldable pub handle_meta_subscription : Filter → ActorIdentifier → Router → Router × List Delivery
unfolding publish_each
handle_meta_subscription f subscriber r =
    publish_each (messages_for r.node_id subscriber (find_subscriptions_for_meta_filter f r)) r
