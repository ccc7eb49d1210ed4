-- ===== src/Router/Change/Replay.antt =====
-- The subscriptions that a new peer is told of: `subscription_lists_for` of
-- uActor/src/pubsub/router.cpp. The chain of processors is a parameter; it may change its own state
-- and the filter. The subscriptions are visited in the order of their entries.
use u_actor.Prelude.{
  ℕ, ◌||◌, ◌&&◌, not, Text, Bool, true, false, List, [], ◌∷◌, ◌++◌, if◌then◌else◌, ltb, leb, length,
  codes,
}
use u_actor.Publication.{Map, empty, nested, set_attr, size}
use u_actor.Filter.{Filter, to_filter}
use u_actor.Filter.Encoding.{to_publication_map, to_string}
use u_actor.Arguments.{SubscriptionArguments, to_map}
use u_actor.ActorIdentifier.{actor_to_map}
use u_actor.Subscription.{Subscription, nodes, member}
use u_actor.Router.{Router}
use u_actor.Router.Change.{peer_number}

-- The lists that are full, and the one at the back.
pub record Lists : Type 0 where
  pub full : List Map
  pub back : Map

unfoldable pub replay_entry : Text → Filter → SubscriptionArguments → Map
replay_entry node_id f args =
    set_attr (codes "subscriber")
      (nested (
        actor_to_map
          (record { node_id = node_id; actor_type = codes "replay"; instance_id = codes "1" })))
      (set_attr (codes "subscription_arguments") (nested (to_map args))
        (set_attr (codes "subscription") (nested (to_publication_map f)) empty))

unfoldable pub append_entry : ℕ → Map → Lists → Lists
append_entry num_subs current_sub lists =
    let lists' : Lists =
      if ltb 0 num_subs && leb num_subs (size lists.back)
      then record { full = lists.full ++ lists.back ∷ []; back = empty }
      else lists in
    record lists' {
      back = set_attr (to_string (size lists'.back)) (nested current_sub) lists'.back;
    }

-- A subscription that another node could serve.
unfoldable pub is_replayed : ℕ → Subscription → Bool
is_replayed internal_node_id sub =
    leb 2 (length (nodes sub)) || not (member internal_node_id (nodes sub))

module _ {S : Type 0} (chain : S → Filter → SubscriptionArguments → (Bool × Filter) × S) where
  -- What the chain leaves of a subscription.
  abbrev pub processed : Text → ℕ → SubscriptionArguments → Bool × Filter → Lists → Lists
  processed node_id num_subs args (true, f) lists = lists
  processed node_id num_subs args (false, f) lists =
      append_entry num_subs (replay_entry node_id f args) lists

  unfoldable pub replay_each : Text → ℕ → ℕ → List (ℕ × Subscription) → S → Lists → Lists × S
  unfolding is_replayed append_entry replay_entry
  replay_each node_id num_subs internal_node_id [] s lists = (lists, s)
  replay_each node_id num_subs internal_node_id ((id, sub) ∷ rest) s lists =
      let (verdict, s') = chain s (to_filter sub.filter) sub.arguments in
      let kept =
        replay_each node_id num_subs internal_node_id rest s'
          (processed node_id num_subs sub.arguments verdict lists) in
      let passed = replay_each node_id num_subs internal_node_id rest s lists in
      if is_replayed internal_node_id sub then kept else passed

  -- `subscription_lists_for`
  unfoldable pub subscription_lists_for : Text → ℕ → S → Router → Router × List Map × S
  unfolding replay_each
  subscription_lists_for peer num_subs s r =
      let (r', internal_node_id) = peer_number peer r in
      let (lists, s') =
        replay_each r.node_id num_subs internal_node_id r'.subscriptions s
          (record { full = []; back = empty }) in
      (r', lists.full ++ lists.back ∷ [], s')
