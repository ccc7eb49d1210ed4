-- ===== src/Runtime/Executor/Rounds.antt =====
-- Handling the messages of a round only adds to the ready queue.
use u_actor.Prelude.{
  ℕ, zero, suc, ◌≡◌, refl, ap, ◌∙◌, Text, Bool, Option, none, some, List, [], ◌∷◌, ◌++◌, if_ind,
  ltb, ◌==◌, nat_eq, length, codes,
}
use u_actor.Prelude.Assoc.{lookup}
use u_actor.Publication.{Map, has_attr}
use u_actor.Router.{Delivery}
use u_actor.Receiver.{receive_message}
use u_actor.Runtime.{Engine, Actor, uint32_max}
use u_actor.Runtime.Methods.{creation_message, add_reply_subscription}
use u_actor.Runtime.Reception.{early_initialize}
use u_actor.Runtime.Asleep.{Holds}
use u_actor.Runtime.Untouched.{early_initialize-view, add_reply_subscription-view}
use u_actor.Runtime.Executor.{
  Executor, timestamp, publish, add_timeout, executor_api, keep_actor, start_actor, emplace_actor,
  spawn, spawned, add_actor, initial_timeout,
}
use u_actor.Runtime.Executor.Loop.{
  Round, undefined, stopped, out_of_fuel, running, and_then, to_round, hand_to, dispatch, drain,
  next_message,
}
use u_actor.Runtime.Executor.Turns.{
  Grows, Grows-refl, Grows-trans, hand_to_each-Grows, ready_queue-Untouched,
}

-- A predicate on what a round leads to, if it comes to its end and the loop goes on.
abbrev pub IfRunning : {A : Type 0} → (A → Type 0) → Round A → Type 0
IfRunning P undefined = Unit
IfRunning P stopped = Unit
IfRunning P out_of_fuel = Unit
IfRunning P (running a) = P a

module _ {E : Type 0} (methods : Engine E) (hibernation : Bool) (initial : E) where
  start_actor-Grows :
      (id : ℕ) (a : Actor E) (ex : Executor E)
      → Grows ex.ready_queue (start_actor methods hibernation initial id a ex).ready_queue
  unfolding start_actor keep_actor add_timeout timestamp
  start_actor-Grows id a ex =
      let (a1, ex1, sub_id) = add_reply_subscription executor_api a (keep_actor id a ex) in
      let ex2 = publish (creation_message a1) ex1 in
      let r = early_initialize executor_api methods hibernation a1 ex2 in
      (
        id ∷ [],
        ap (λ l. l ++ id ∷ [])
            (initial_timeout-ready r.0.1 r.2
              ∙ early_initialize-view executor_api methods (λ (x : Executor E). x.ready_queue)
                  ready_queue-Untouched hibernation a1 ex2
              ∙ ready_queue-Untouched.publish_keeps (creation_message a1) ex1
              ∙ add_reply_subscription-view executor_api (λ (x : Executor E). x.ready_queue)
                  ready_queue-Untouched a (keep_actor id a ex)),
      )
    where
      initial_timeout-ready :
          (timeout : ℕ) (x : Executor E)
          → (initial_timeout methods hibernation initial timeout id x).ready_queue ≡ x.ready_queue
      initial_timeout-ready timeout x =
          if_ind (λ (y : Executor E). y.ready_queue ≡ x.ready_queue) (ltb timeout uint32_max)
            (λ e. refl) (λ e. refl)

  add_actor-Grows :
      (p : Map) (ex : Executor E)
      → Holds
          (λ (x : Executor E). Grows ex.ready_queue x.ready_queue)
          (add_actor methods hibernation initial p ex)
  unfolding add_actor
  add_actor-Grows p ex = named (spawned p)
    where
      emplaced :
          (o : Option (Actor E)) (names : Text × Text × Text × Text)
          → Grows ex.ready_queue
              (emplace_actor methods hibernation initial o ex.next_id names
                (record ex { next_id = suc ex.next_id })).ready_queue
      emplaced none (n, t, v, i) = start_actor-Grows _ _ _
      emplaced (some a) (n, t, v, i) = Grows-refl ex.ready_queue

      named :
          (o : Option (Text × Text × Text × Text))
          → Holds
              (λ (x : Executor E). Grows ex.ready_queue x.ready_queue)
              (spawn methods hibernation initial o ex)
      named none = tt
      named (some names) = emplaced (lookup ex.next_id ex.actors) names

  dispatch-Grows :
      (d : Delivery) (ex : Executor E)
      → IfRunning
          (λ (x : Executor E). Grows ex.ready_queue x.ready_queue)
          (dispatch methods hibernation initial d ex)
  unfolding dispatch
  dispatch-Grows d ex =
      if_ind (IfRunning More) (d.subscription_id == ex.executor_subscription_id)
        (λ e.
          if_ind (IfRunning More) (has_attr (codes "spawn_actor_type") d.publication)
            (λ s. added _ (add_actor-Grows d.publication ex)) (λ s. tt))
        (λ e. handed (lookup d.subscription_id ex.subscription_mapping))
    where
      More : Executor E → Type 0
      More x = Grows ex.ready_queue x.ready_queue

      added : (o : Option (Executor E)) → Holds More o → IfRunning More (to_round o)
      added none h = tt
      added (some x) h = h

      handed : (o : Option (List ℕ)) → More (hand_to o d.publication ex)
      handed none = Grows-refl ex.ready_queue
      handed (some ids) = hand_to_each-Grows ids (length ids) d.publication ex

  pub drain-Grows :
      (fuel : ℕ) (ex : Executor E)
      → IfRunning
          (λ (x : Executor E). Grows ex.ready_queue x.ready_queue)
          (drain methods hibernation initial fuel ex)
  unfolding drain
  drain-Grows zero ex = last (receive_message ex.router_handle.queue)
    where
      last :
          (m : Option Delivery × List Delivery)
          → IfRunning
              (λ (x : Executor E). Grows ex.ready_queue x.ready_queue)
              (next_message methods hibernation initial m ex (λ next. out_of_fuel))
      last (none, queue) = Grows-refl ex.ready_queue
      last (some d, queue) = tt
  drain-Grows (suc fuel) ex = step (drain-Grows fuel) (receive_message ex.router_handle.queue)
    where
      More : Executor E → Type 0
      More x = Grows ex.ready_queue x.ready_queue

      Hypothesis : Type 0
      Hypothesis =
          (x : Executor E)
          → IfRunning (λ (y : Executor E). Grows x.ready_queue y.ready_queue)
              (drain methods hibernation initial fuel x)

      further :
          Hypothesis
          → (r : Round (Executor E)) → IfRunning More r
          → IfRunning More (and_then r (drain methods hibernation initial fuel))
      further ih undefined h = tt
      further ih stopped h = tt
      further ih out_of_fuel h = tt
      further ih (running x) h = onward _ (ih x)
        where
          onward :
              (r : Round (Executor E))
              → IfRunning (λ (y : Executor E). Grows x.ready_queue y.ready_queue) r
              → IfRunning More r
          onward undefined k = tt
          onward stopped k = tt
          onward out_of_fuel k = tt
          onward (running y) k = Grows-trans _ _ _ h k

      step :
          Hypothesis
          → (m : Option Delivery × List Delivery)
          → IfRunning More (
              next_message methods hibernation initial m ex
                (λ next. and_then next (drain methods hibernation initial fuel)))
      step ih (none, queue) = Grows-refl ex.ready_queue
      step ih (some d, queue) = further ih _ (
          dispatch-Grows d
            (record ex { router_handle = record ex.router_handle { queue = queue } }))
