-- ===== src/Runtime/Executor/Ends.antt =====
-- The fuel that the loop over the messages of the receiver needs: the loop of `event_loop` in
-- uActor/include/actor_runtime/executor.hpp that calls `receive`.
use u_actor.Prelude.{
  ℕ, zero, suc, ◌≤◌, ◌≡◌, refl, ap, ◌∙◌, Bool, true, false, not, Option, none, some, List, [], ◌∷◌,
  ◌==◌, nat_eq, length, all, if_ind, arith,
}
use u_actor.Prelude.Assoc.{lookup}
use u_actor.Publication.{Map}
use u_actor.Router.{Delivery}
use u_actor.Receiver.{receive_message}
use u_actor.Runtime.{Engine, Actor}
use u_actor.Runtime.Methods.{enqueue}
use u_actor.Runtime.Executor.{Executor, keep_actor}
use u_actor.Runtime.Executor.Loop.{
  Round, out_of_fuel, running, and_then, hand_over, hand_one, hand_to_each, hand_to,
  moved_or_copied, dispatch, next_message, drain,
}

-- No message is for the executor itself: none spawns an actor or stops the loop.
abbrev pub are_for_actors : ℕ → List Delivery → Bool
are_for_actors own ds = all (λ d. not (d.subscription_id == own)) ds

module _ {E : Type 0} where
  -- The receiver and the executor's own subscription are as before.
  abbrev IsHeld : Executor E → Executor E → Type 0
  IsHeld ex x =
      (x.router_handle.queue ≡ ex.router_handle.queue)
      × (x.executor_subscription_id ≡ ex.executor_subscription_id)

  hand_over-IsHeld :
      (id : ℕ) (p : Map) (a : Actor E) (ex : Executor E) → IsHeld ex (hand_over id p a ex)
  unfolding hand_over keep_actor
  hand_over-IsHeld id p a ex =
      if_ind (IsHeld ex) (enqueue p a).1 (λ e. (refl, refl)) (λ e. (refl, refl))

  hand_to_each-IsHeld :
      (ids : List ℕ) (n : ℕ) (p : Map) (ex : Executor E) → IsHeld ex (hand_to_each ids n p ex)
  unfolding hand_to_each
  hand_to_each-IsHeld [] n p ex = (refl, refl)
  hand_to_each-IsHeld (id ∷ ids) n p ex =
      let one = handed (lookup id ex.actors) in
      let rest = hand_to_each-IsHeld ids _ p _ in (rest.0 ∙ one.0, rest.1 ∙ one.1)
    where
      handed : (o : Option (Actor E)) → IsHeld ex (hand_one o id n p ex).1
      handed none = (refl, refl)
      handed (some a) = hand_over-IsHeld id (moved_or_copied n p) a ex

  hand_to-IsHeld : (o : Option (List ℕ)) (p : Map) (ex : Executor E) → IsHeld ex (hand_to o p ex)
  hand_to-IsHeld none p ex = (refl, refl)
  hand_to-IsHeld (some ids) p ex = hand_to_each-IsHeld ids (length ids) p ex

  -- The loop has come to its end and has emptied the queue.
  abbrev pub IsDrained : Round (Executor E) → Type 0
  IsDrained (running x) = x.router_handle.queue ≡ []
  IsDrained _ = ⊥

module _ {E : Type 0} (methods : Engine E) (hibernation : Bool) (initial : E) where
  -- The loop over the messages of the receiver ends, and has emptied its queue, on as much fuel as
  -- there are messages, if none of them is for the executor itself.
  pub drain-IsDrained :
      (fuel : ℕ) (ex : Executor E)
      → are_for_actors ex.executor_subscription_id ex.router_handle.queue ≡ true
      → length ex.router_handle.queue ≤ fuel
      → IsDrained (drain methods hibernation initial fuel ex)
  unfolding drain receive_message dispatch
  drain-IsDrained zero ex h l = empty_queue ex.router_handle.queue refl l
    where
      empty_queue :
          (q : List Delivery)
          → ex.router_handle.queue ≡ q
          → length q ≤ 0
          → IsDrained (
              next_message methods hibernation initial (receive_message q) ex (λ next. out_of_fuel))
      empty_queue [] e n = e
      empty_queue (d ∷ ds) e n = absurd (omega (arith, n))
  drain-IsDrained (suc fuel) ex h l =
      by_queue (drain-IsDrained fuel) ex.router_handle.queue refl h l
    where
      own : ℕ
      own = ex.executor_subscription_id

      Hypothesis : Type 0
      Hypothesis =
          (x : Executor E)
          → are_for_actors x.executor_subscription_id x.router_handle.queue ≡ true
          → length x.router_handle.queue ≤ fuel
          → IsDrained (drain methods hibernation initial fuel x)

      handed :
          Hypothesis
          → (d : Delivery) (x : Executor E)
          → are_for_actors x.executor_subscription_id x.router_handle.queue ≡ true
          → length x.router_handle.queue ≤ fuel
          → (y : Executor E) → IsHeld x y
          → IsDrained (drain methods hibernation initial fuel y)
      handed ih d x a n y k =
          ih y
            (ap (λ i. are_for_actors i y.router_handle.queue) k.1
              ∙ ap (are_for_actors x.executor_subscription_id) k.0
              ∙ a)
            (omega (arith, n, ap length k.0))

      dispatched :
          Hypothesis
          → (d : Delivery) (x : Executor E)
          → (d.subscription_id == x.executor_subscription_id) ≡ false
          → are_for_actors x.executor_subscription_id x.router_handle.queue ≡ true
          → length x.router_handle.queue ≤ fuel
          → IsDrained (
              and_then
                (dispatch methods hibernation initial d x)
                (drain methods hibernation initial fuel))
      dispatched ih d x other a n =
          if_ind
            (λ (r : Round (Executor E)).
              IsDrained (and_then r (drain methods hibernation initial fuel)))
            (d.subscription_id == x.executor_subscription_id)
            (λ e. absurd (ground (arith, e, other)))
            (λ e.
              handed ih d x a n _
                (hand_to-IsHeld (lookup d.subscription_id x.subscription_mapping) d.publication x))

      by_queue :
          Hypothesis
          → (q : List Delivery) → ex.router_handle.queue ≡ q
          → are_for_actors own q ≡ true
          → length q ≤ suc fuel
          → IsDrained (
              next_message methods hibernation initial
                (receive_message q)
                ex
                (λ next. and_then next (drain methods hibernation initial fuel)))
      by_queue ih [] e a n = e
      by_queue ih (d ∷ ds) e a n =
          dispatched ih d (record ex { router_handle = record ex.router_handle { queue = ds } })
            (ground (arith, a)) (ground (arith, a)) (omega (arith, n))
