-- ===== src/Runtime/Executor/Loop.antt =====
-- The event loop of an executor: `event_loop` of uActor/include/actor_runtime/executor.hpp. The
-- messages that other threads send while a round waits are its argument. The loop that empties the
-- receiver's queue ends only if the actors that are spawned in it do not go on spawning others,
-- so that it runs on fuel; that a round has run out of fuel is a result of its own.
use u_actor.Prelude.{
  ℕ, zero, suc, ◌+◌, ◌-◌, ◌%◌, ◌^◌, min, Bool, false, Option, none, some, List, [], ◌∷◌, ◌++◌, ◌==◌,
  nat_eq, if◌then◌else◌, ltb, length, codes,
}
use u_actor.Prelude.Assoc.{lookup, erase}
use u_actor.Publication.{Map, has_attr}
use u_actor.Router.{Delivery, copied_publication}
use u_actor.Receiver.{receive_message, take_deliveries}
use u_actor.Runtime.{Engine, Actor, uint32_max}
use u_actor.Runtime.Methods.{ReceiveResult, enqueue, trigger_timeout, destroy_actor}
use u_actor.Runtime.Reception.{receive_next_internal}
use u_actor.Runtime.Executor.{
  Timeout, Executor, timestamp, publish, schedule, keep_actor, erase_timeout, executor_api,
  add_timeout, add_actor,
}

-- The time until a deadline, by the sign of the 32-bit difference.
unfoldable pub time_until : ℕ → ℕ → ℕ
time_until deadline now =
    let difference = (deadline + 2 ^ 32 - now) % 2 ^ 32 in
    if ltb difference (2 ^ 31) then difference else 0

abbrev pub unless_ready : List ℕ → ℕ → ℕ
unless_ready [] wait = wait
unless_ready (task ∷ rest) wait = 0

abbrev pub moved_or_copied : ℕ → Map → Map
moved_or_copied receiver_count p = if receiver_count == 1 then p else copied_publication p

module _ {E : Type 0} where
  abbrev pub until_timeout : ℕ → List Timeout → Executor E → ℕ × Executor E
  until_timeout sleep_forever [] ex = (sleep_forever, ex)
  until_timeout sleep_forever (t ∷ rest) ex =
      let (now, ex') = timestamp ex in (time_until t.timeout now, ex')

  abbrev pub until_delayed : ℕ → List (ℕ × Map) → Executor E → ℕ × Executor E
  until_delayed wait [] ex = (wait, ex)
  until_delayed wait ((t, p) ∷ rest) ex =
      let (now, ex') = timestamp ex in (min wait (time_until t now), ex')

  -- How long a round waits for a message.
  unfoldable pub wait_time : ℕ → Executor E → ℕ × Executor E
  unfolding timestamp time_until
  wait_time sleep_forever ex =
      let (wait1, ex1) = until_timeout sleep_forever ex.timeouts ex in
      let (wait2, ex2) = until_delayed wait1 ex1.delayed_messages ex1 in
      (unless_ready ex2.ready_queue wait2, ex2)

  -- A message in the queue of an actor, which is scheduled if it is to run.
  unfoldable pub hand_over : ℕ → Map → Actor E → Executor E → Executor E
  unfolding enqueue keep_actor schedule erase_timeout
  hand_over receiver_id to_send a ex =
      let (a', to_run) = enqueue to_send a in
      let ex' = keep_actor receiver_id a' ex in
      if to_run
      then record ex' {
        ready_queue = schedule receiver_id ex'.ready_queue;
        timeouts = erase_timeout receiver_id ex'.timeouts;
      }
      else ex'

  abbrev pub hand_one : Option (Actor E) → ℕ → ℕ → Map → Executor E → ℕ × Executor E
  hand_one none receiver_id receiver_count p ex = (receiver_count, ex)
  hand_one (some a) receiver_id receiver_count p ex =
      (receiver_count - 1, hand_over receiver_id (moved_or_copied receiver_count p) a ex)

  -- The loop over the actors of a subscription; the last one gets the message itself.
  unfoldable pub hand_to_each : List ℕ → ℕ → Map → Executor E → Executor E
  unfolding hand_over
  hand_to_each [] receiver_count p ex = ex
  hand_to_each (receiver_id ∷ rest) receiver_count p ex =
      let (left, ex') = hand_one (lookup receiver_id ex.actors) receiver_id receiver_count p ex in
      hand_to_each rest left p ex'

  abbrev pub hand_to : Option (List ℕ) → Map → Executor E → Executor E
  hand_to none p ex = ex
  hand_to (some receivers) p ex = hand_to_each receivers (length receivers) p ex

  -- The loop over the delayed messages.
  unfoldable pub publish_delayed : List (ℕ × Map) → Executor E → Executor E
  unfolding timestamp publish
  publish_delayed [] ex = ex
  publish_delayed ((time, p) ∷ rest) ex =
      let (now, ex') = timestamp ex in
      let later = publish_delayed rest (record (publish p ex') { delayed_messages = rest }) in
      if ltb time now then later else ex'

  -- A timeout that is over: its actor gets a message first in its queue.
  abbrev pub expire : Option (Actor E) → Timeout → Executor E → Executor E
  expire none t ex = ex
  expire (some a) t ex =
      let ex' = keep_actor t.actor_id (trigger_timeout t.user_defined t.trigger_id a) ex in
      record ex' { ready_queue = schedule t.actor_id ex'.ready_queue }

  -- The loop over the timeouts.
  unfoldable pub fire_timeouts : ℕ → List Timeout → Executor E → Executor E
  unfolding keep_actor trigger_timeout schedule
  fire_timeouts start [] ex = ex
  fire_timeouts start (t ∷ rest) ex =
      let later =
        fire_timeouts start rest
          (record (expire (lookup t.actor_id ex.actors) t ex) { timeouts = rest }) in
      if ltb t.timeout start then later else ex

  -- What becomes of an actor that has handled a message.
  unfoldable pub after_turn : ℕ → ReceiveResult → Actor E → Executor E → Executor E
  unfolding destroy_actor keep_actor add_timeout executor_api
  after_turn task result a ex =
      if result.exit
      then (let ex' = destroy_actor executor_api a ex in
          record ex' { actors = erase task ex'.actors })
      else let ex' = keep_actor task a ex in
        if result.next_timeout == 0
        then record ex' { ready_queue = ex'.ready_queue ++ task ∷ [] }
        else if ltb result.next_timeout uint32_max
        then add_timeout result.next_timeout task false [] ex'
        else ex'

  abbrev pub received : ℕ → Option (ReceiveResult × Actor E × Executor E) → Option (Executor E)
  received task none = none
  received task (some (result, a, ex)) = some (after_turn task result a ex)

-- What a round does with the loop: it reads an absent value, ends it, has too little fuel for the
-- messages of the receiver, or goes on.
pub data Round (A : Type 0) : Type 0 where
  undefined : Round A
  stopped : Round A
  out_of_fuel : Round A
  running : A → Round A

abbrev pub to_round : {A : Type 0} → Option A → Round A
to_round none = undefined
to_round (some a) = running a

abbrev pub and_then : {A B : Type 0} → Round A → (A → Round B) → Round B
and_then undefined next = undefined
and_then stopped next = stopped
and_then out_of_fuel next = out_of_fuel
and_then (running a) next = next a

module _ {E : Type 0} (methods : Engine E) (hibernation : Bool) (initial : E) where
  -- One message of the receiver.
  unfoldable pub dispatch : Delivery → Executor E → Round (Executor E)
  unfolding add_actor hand_to_each
  dispatch publication ex =
      if publication.subscription_id == ex.executor_subscription_id
      then (if has_attr (codes "spawn_actor_type") publication.publication
          then to_round (add_actor methods hibernation initial publication.publication ex)
          else stopped)
      else running (
          hand_to (lookup publication.subscription_id ex.subscription_mapping)
            publication.publication ex)

  -- The loop over the messages of the receiver.
  abbrev pub next_message :
      Option Delivery × List Delivery
      → Executor E
      → (Round (Executor E) → Round (Executor E))
      → Round (Executor E)
  next_message (none, queue) ex continue = running ex
  next_message (some d, queue) ex continue =
      continue
        (dispatch d (record ex { router_handle = record ex.router_handle { queue = queue } }))

  unfoldable pub drain : ℕ → Executor E → Round (Executor E)
  unfolding receive_message dispatch
  drain zero ex = next_message (receive_message ex.router_handle.queue) ex (λ next. out_of_fuel)
  drain (suc fuel) ex =
      next_message (receive_message ex.router_handle.queue) ex (λ next. and_then next (drain fuel))

  abbrev pub turn_of : Option (Actor E) → ℕ → Executor E → Option (Executor E)
  turn_of none task ex = some ex
  turn_of (some a) task ex =
      received task (receive_next_internal executor_api methods hibernation a ex)

  abbrev pub served : ℕ → Option (Executor E) → Option (List ℕ × Executor E)
  served task none = none
  served task (some ex) = some (task ∷ [], ex)

  abbrev pub first_ready : List ℕ → Executor E → Option (List ℕ × Executor E)
  first_ready [] ex = some ([], ex)
  first_ready (task ∷ rest) ex =
      served task (turn_of (lookup task ex.actors) task (record ex { ready_queue = rest }))

  -- The first ready actor handles one message: the actor, if there is one, and the executor after it.
  unfoldable pub process_one : Executor E → Option (List ℕ × Executor E)
  unfolding receive_next_internal after_turn executor_api
  process_one ex = first_ready ex.ready_queue ex

  abbrev pub after_drain : Round (Executor E) → Round (List ℕ × Executor E)
  after_drain undefined = undefined
  after_drain stopped = stopped
  after_drain out_of_fuel = out_of_fuel
  after_drain (running ex) =
      let ex1 = publish_delayed ex.delayed_messages ex in
      let (start, ex2) = timestamp ex1 in
      to_round (process_one (fire_timeouts start ex2.timeouts ex2))

  -- A round of the loop.
  unfoldable pub round : ℕ → ℕ → List Delivery → Executor E → Round (List ℕ × Executor E)
  unfolding wait_time drain publish_delayed fire_timeouts process_one
  round sleep_forever fuel arrivals ex =
      let (wait, ex1) = wait_time sleep_forever ex in
      after_drain
        (drain fuel (record ex1 { router_handle = take_deliveries arrivals ex1.router_handle }))

  abbrev pub served_before : List ℕ → Round (List ℕ × Executor E) → Round (List ℕ × Executor E)
  served_before tasks undefined = undefined
  served_before tasks stopped = stopped
  served_before tasks out_of_fuel = out_of_fuel
  served_before tasks (running (more, ex)) = running (tasks ++ more, ex)

  -- Rounds one after the other, with the messages that each is sent: the actors that are served.
  unfoldable pub rounds : ℕ → ℕ → List (List Delivery) → Executor E → Round (List ℕ × Executor E)
  unfolding round
  rounds sleep_forever fuel [] ex = running ([], ex)
  rounds sleep_forever fuel (arrivals ∷ rest) ex =
      and_then (round sleep_forever fuel arrivals ex)
        (λ r. served_before r.0 (rounds sleep_forever fuel rest r.1))
