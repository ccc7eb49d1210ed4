-- ===== src/Runtime/Executor.antt =====
-- The executor of actors: uActor/include/actor_runtime/executor.hpp. It is the world of its actors:
-- it has their subscriptions at the router, the queue of its receiver, and their timeouts. The clock
-- is a list of readings that each call of `BoardFunctions::timestamp` takes the next one of. The
-- orders of the sets of timeouts and of delayed messages are the code's; a set of actors is listed
-- in the order of its iteration. Identifiers of actors do not wrap.

pub mod Loop
pub mod Turns
pub mod Rounds
pub mod Service
pub mod Ends
pub mod Deadlines
use u_actor.Prelude.{
  ℕ, suc, ◌+◌, ◌%◌, ◌^◌, ◌≡◌, Text, Bool, true, false, not, ◌&&◌, Option, none, some, List, [], ◌∷◌,
  ◌++◌, ◌==◌, nat_eq, text_eq, text_ltb, if◌then◌else◌, ltb, length, codes,
}
use u_actor.Prelude.Assoc.{lookup, insert, erase}
use u_actor.Publication.{Map, str, get_str_attr, set_attr}
use u_actor.Filter.{Filter}
use u_actor.Arguments.{SubscriptionArguments, default_arguments}
use u_actor.Subscription.{emplace_node, erase_node, member}
use u_actor.ActorIdentifier.{ActorIdentifier}
use u_actor.Router.{Router, Delivery}
use u_actor.Router.Meta.{new_publication}
use u_actor.Receiver.{Receiver, new_receiver, take_deliveries}
use u_actor.Runtime.{Engine, ExecutorApi, Actor, new_actor, uint32_max}
use u_actor.Runtime.Methods.{
  enqueue, trigger_timeout, reply_filter, add_reply_subscription, creation_message,
}
use u_actor.Runtime.Reception.{early_initialize}

pub record Timeout : Type 0 where
  pub timeout : ℕ
  pub actor_id : ℕ
  pub user_defined : Bool
  pub trigger_id : Text

abbrev pub bool_beq : Bool → Bool → Bool
bool_beq true b = b
bool_beq false b = not b

-- `Timeout::operator<`; `false < true`.
unfoldable pub timeout_ltb : Timeout → Timeout → Bool
timeout_ltb a other =
    if not (other.timeout == a.timeout)
    then ltb a.timeout other.timeout
    else if not (other.actor_id == a.actor_id)
    then ltb a.actor_id other.actor_id
    else if not (bool_beq other.user_defined a.user_defined)
    then not a.user_defined && other.user_defined
    else text_ltb a.trigger_id other.trigger_id

-- `std::set<Timeout>::emplace`: an element that is equal stays.
unfoldable pub emplace_timeout : Timeout → List Timeout → List Timeout
unfolding timeout_ltb
emplace_timeout t [] = t ∷ []
emplace_timeout t (u ∷ rest) =
    let later = emplace_timeout t rest in
    if timeout_ltb t u then t ∷ (u ∷ rest) else if timeout_ltb u t then u ∷ later else u ∷ rest

-- `std::multimap::emplace`: behind the elements with the same key.
unfoldable pub emplace_delayed : ℕ → Map → List (ℕ × Map) → List (ℕ × Map)
emplace_delayed time p [] = (time, p) ∷ []
emplace_delayed time p ((t, q) ∷ rest) =
    let later = emplace_delayed time p rest in
    if ltb time t then (time, p) ∷ ((t, q) ∷ rest) else (t, q) ∷ later

-- `timeouts.erase(std::find_if(...))`: the first timeout of an actor that is not its own wake-up.
unfoldable pub erase_timeout : ℕ → List Timeout → List Timeout
erase_timeout receiver_id [] = []
erase_timeout receiver_id (t ∷ rest) =
    let later = erase_timeout receiver_id rest in
    if (t.actor_id == receiver_id) && not t.user_defined then rest else t ∷ later

pub record Executor (E : Type 0) : Type 0 where
  pub clock : ℕ → ℕ
  pub readings : ℕ
  pub router : Router
  pub router_handle : Receiver
  -- The messages that the router handed to other receivers.
  pub sent : List Delivery
  pub actors : List (ℕ × Actor E)
  pub node_id : Text
  pub actor_type : Text
  pub instance_id : Text
  pub next_id : ℕ
  pub subscription_mapping : List (ℕ × List ℕ)
  pub ready_queue : List ℕ
  pub timeouts : List Timeout
  pub delayed_messages : List (ℕ × Map)
  pub executor_subscription_id : ℕ

-- The messages for other receivers.
abbrev pub for_others : List Delivery → ℕ → List Delivery
for_others [] this = []
for_others (d ∷ ds) this =
    let rest = for_others ds this in if d.receiver == this then rest else d ∷ rest

-- A task enters the ready queue unless it is there.
unfoldable pub schedule : ℕ → List ℕ → List ℕ
schedule task ready = if member task ready then ready else ready ++ task ∷ []

-- `subscription_mapping`, with a subscriber more.
abbrev pub map_subscription : ℕ → Option (List ℕ) → List ℕ
map_subscription local_id none = local_id ∷ []
map_subscription local_id (some ids) = emplace_node local_id ids

module _ {E : Type 0} where
  -- `BoardFunctions::timestamp`
  unfoldable pub timestamp : Executor E → ℕ × Executor E
  timestamp ex = (ex.clock ex.readings, record ex { readings = suc ex.readings })

  -- What the router hands out reaches the receiver's queue, or others.
  unfoldable pub post : List Delivery → Executor E → Executor E
  unfolding take_deliveries
  post out ex = record ex {
    router_handle = take_deliveries out ex.router_handle;
    sent = ex.sent ++ for_others out ex.router_handle.this;
  }

  unfoldable pub publish : Map → Executor E → Executor E
  unfolding post
  publish p ex =
      let (router', out) = u_actor.Router.publish p ex.router in
      post out (record ex { router = router' })

  abbrev pub subscribe_as :
      Option (Actor E) → ℕ → Filter → SubscriptionArguments → Executor E → Executor E × ℕ
  subscribe_as none local_id f arguments ex = (ex, 0)
  subscribe_as (some a) local_id f arguments ex =
      let (router', handle, out, sub_id) =
        u_actor.Receiver.subscribe f
          (record { node_id = a.node_id; actor_type = a.actor_type; instance_id = a.instance_id })
          ex.node_id arguments ex.router_handle ex.router in
      let ex' = post out (record ex { router = router'; router_handle = handle }) in
      (
        record ex' {
          subscription_mapping =
              insert sub_id (map_subscription local_id (lookup sub_id ex.subscription_mapping))
                ex.subscription_mapping;
        },
        sub_id,
      )

  -- `add_subscription`
  unfoldable pub add_subscription : ℕ → Filter → SubscriptionArguments → Executor E → Executor E × ℕ
  unfolding post
  add_subscription local_id f arguments ex =
      subscribe_as (lookup local_id ex.actors) local_id f arguments ex

  abbrev pub unmapped : List ℕ → ℕ → Executor E → Executor E
  unmapped [] sub_id ex =
      let (router', handle, out) =
        u_actor.Receiver.unsubscribe sub_id [] ex.router_handle ex.router in
      let ex' = post out (record ex { router = router'; router_handle = handle }) in
      record ex' { subscription_mapping = erase sub_id ex.subscription_mapping }
  unmapped (id ∷ ids) sub_id ex = record ex {
    subscription_mapping = insert sub_id (id ∷ ids) ex.subscription_mapping;
  }

  abbrev pub unsubscribe_from : Option (List ℕ) → ℕ → ℕ → Executor E → Executor E
  unsubscribe_from none local_id sub_id ex = ex
  unsubscribe_from (some ids) local_id sub_id ex = unmapped (erase_node local_id ids) sub_id ex

  -- `remove_subscription`
  unfoldable pub remove_subscription : ℕ → ℕ → Executor E → Executor E
  unfolding post erase_node
  remove_subscription local_id sub_id ex =
      unsubscribe_from (lookup sub_id ex.subscription_mapping) local_id sub_id ex

  unfoldable pub delayed_publish : Map → ℕ → Executor E → Executor E
  unfolding timestamp emplace_delayed
  delayed_publish publication delay ex =
      let (now, ex') = timestamp ex in
      record ex' {
        delayed_messages =
            emplace_delayed ((now + delay) % 2 ^ 32) publication ex'.delayed_messages;
      }

  -- A timeout is added to the set.
  unfoldable pub add_timeout : ℕ → ℕ → Bool → Text → Executor E → Executor E
  unfolding timestamp emplace_timeout
  add_timeout delay actor_id user_defined trigger_id ex =
      let (now, ex') = timestamp ex in
      record ex' {
        timeouts =
            emplace_timeout
              (record {
                timeout = (now + delay) % 2 ^ 32;
                actor_id = actor_id;
                user_defined = user_defined;
                trigger_id = trigger_id;
              })
              ex'.timeouts;
      }

  -- `enqueue_wakeup`
  unfoldable pub enqueue_wakeup : ℕ → ℕ → Text → Executor E → Executor E
  unfolding add_timeout
  enqueue_wakeup actor_id delay wakeup_id ex = add_timeout delay actor_id true wakeup_id ex

  -- The executor as the world of its actors.
  unfoldable pub executor_api : ExecutorApi (Executor E)
  unfolding publish add_subscription remove_subscription delayed_publish enqueue_wakeup
  executor_api = record {
    publish = publish;
    add_subscription = add_subscription;
    remove_subscription = remove_subscription;
    delayed_publish = delayed_publish;
    enqueue_wakeup = enqueue_wakeup;
  }

  -- The actor that a method of an actor left.
  unfoldable pub keep_actor : ℕ → Actor E → Executor E → Executor E
  keep_actor id a ex = record ex { actors = insert id a ex.actors }

-- The four names of a message that spawns an actor: node, type, version, instance.
abbrev pub spawn_names :
    Option Text → Option Text → Option Text → Option Text → Option (Text × Text × Text × Text)
spawn_names (some n) (some t) (some v) (some i) = some (n, t, v, i)
spawn_names (some n) (some t) (some v) none = none
spawn_names (some n) (some t) none i = none
spawn_names (some n) none v i = none
spawn_names none t v i = none

unfoldable pub spawned : Map → Option (Text × Text × Text × Text)
spawned p =
    spawn_names (get_str_attr (codes "spawn_node_id") p) (get_str_attr (codes "spawn_actor_type") p)
      (get_str_attr (codes "spawn_actor_version") p) (get_str_attr (codes "spawn_instance_id") p)

module _ {E : Type 0} (methods : Engine E) (hibernation : Bool) (initial : E) where
  -- The timeout of an actor that blocks while it is initialised.
  abbrev pub initial_timeout : ℕ → ℕ → Executor E → Executor E
  initial_timeout timeout local_id ex =
      if ltb timeout uint32_max then add_timeout timeout local_id false [] ex else ex

  unfoldable pub start_actor : ℕ → Actor E → Executor E → Executor E
  unfolding keep_actor add_reply_subscription creation_message early_initialize enqueue add_timeout
      executor_api publish
  start_actor local_id a ex =
      let (a1, ex1, sub_id) = add_reply_subscription executor_api a (keep_actor local_id a ex) in
      let ex2 = publish (creation_message a1) ex1 in
      let ((ret, timeout), a3, ex3) = early_initialize executor_api methods hibernation a1 ex2 in
      let ex4 = initial_timeout timeout local_id ex3 in
      let init_message =
        set_attr (codes "type") (str (codes "init"))
          (new_publication ex4.node_id ex4.actor_type ex4.instance_id) in
      let (a5, to_run) = enqueue init_message a3 in
      let ex5 = keep_actor local_id a5 ex4 in
      record ex5 { ready_queue = ex5.ready_queue ++ local_id ∷ [] }

  -- `try_emplace` of a new actor, whose number may be taken only once.
  abbrev pub emplace_actor :
      Option (Actor E) → ℕ → Text × Text × Text × Text → Executor E → Executor E
  emplace_actor none local_id (n, t, v, i) ex =
      start_actor local_id (new_actor initial local_id n t v i) ex
  emplace_actor (some a) local_id names ex = ex

  abbrev pub spawn : Option (Text × Text × Text × Text) → Executor E → Option (Executor E)
  spawn none ex = none
  spawn (some names) ex = some (
      emplace_actor (lookup ex.next_id ex.actors) ex.next_id names
        (record ex { next_id = suc ex.next_id }))

  -- `add_actor_base`; a name that is missing, or is not a string, throws.
  unfoldable pub add_actor : Map → Executor E → Option (Executor E)
  unfolding spawned start_actor
  add_actor publication ex = spawn (spawned publication) ex
