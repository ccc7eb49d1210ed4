-- ===== src/Receiver.antt =====
-- The receivers of a router's messages: uActor/include/pubsub/receiver.hpp and receiver_handle.hpp,
-- with the queue of uActor-POSIX/src/receiver.cpp, which is not bounded. The wait of `receive` is
-- not modelled: a call takes the queue as it is when the wait ends.
use u_actor.Prelude.{ℕ, Text, Option, none, some, List, [], ◌∷◌, ◌++◌, ◌==◌, nat_eq, if◌then◌else◌}
use u_actor.Subscription.{emplace_node, erase_node}
use u_actor.Filter.{Filter}
use u_actor.Arguments.{SubscriptionArguments}
use u_actor.ActorIdentifier.{ActorIdentifier}
use u_actor.Router.{Router, Delivery}
use u_actor.Router.Change.{add_subscription, remove_subscription}

pub record Receiver : Type 0 where
  -- The address of the receiver, which names it at the router.
  pub this : ℕ
  pub queue : List Delivery
  pub subscriptions : List ℕ

-- The constructor.
unfoldable pub new_receiver : ℕ → Receiver
new_receiver this = record { this = this; queue = []; subscriptions = [] }

-- `Queue::send_message`
unfoldable pub send_message : Delivery → List Delivery → List Delivery
send_message publication queue = queue ++ publication ∷ []

-- `Queue::receive_message`
unfoldable pub receive_message : List Delivery → Option Delivery × List Delivery
receive_message [] = (none, [])
receive_message (publication ∷ queue) = (some publication, queue)

-- `publish`, for the messages of a router's method that are for this receiver.
unfoldable pub take_deliveries : List Delivery → Receiver → Receiver
unfolding send_message
take_deliveries [] r = r
take_deliveries (d ∷ ds) r =
    take_deliveries ds
      (if d.receiver == r.this then record r { queue = send_message d r.queue } else r)

-- `subscribe`: the router and the receiver after it, the messages, and the subscription's number.
unfoldable pub subscribe :
    Filter
    → ActorIdentifier
    → Text
    → SubscriptionArguments
    → Receiver
    → Router
    → Router × Receiver × List Delivery × ℕ
unfolding emplace_node
subscribe f subscriber source_peer args r router =
    let (router', out, sub_id) = add_subscription f r.this subscriber source_peer args router in
    (router', record r { subscriptions = emplace_node sub_id r.subscriptions }, out, sub_id)

-- `unsubscribe`
unfoldable pub unsubscribe : ℕ → Text → Receiver → Router → Router × Receiver × List Delivery
unfolding erase_node
unsubscribe sub_id node_id r router =
    let (router', out, sub_count) = remove_subscription sub_id r.this node_id router in
    (
      router',
      if sub_count == 0 then record r { subscriptions = erase_node sub_id r.subscriptions } else r,
      out,
    )

-- The loop of the destructor.
remove_each : List ℕ → ℕ → Router → Router × List Delivery
remove_each [] this router = (router, [])
remove_each (sub ∷ subs) this router =
    let (router1, out, left) = remove_subscription sub this [] router in
    let (router2, rest) = remove_each subs this router1 in (router2, out ++ rest)

-- The destructor.
unfoldable pub destroy_receiver : Receiver → Router → Router × List Delivery
unfolding remove_each
destroy_receiver r router = remove_each r.subscriptions r.this router
