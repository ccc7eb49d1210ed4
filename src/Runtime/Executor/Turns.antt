-- ===== src/Runtime/Executor/Turns.antt =====
-- The order in which an executor serves its actors.
use u_actor.Prelude.{
  ℕ, ◌≡◌, refl, sym, ap, ◌∙◌, Option, none, some, List, [], ◌∷◌, ◌++◌, if_ind, append_nil,
  append_assoc, ltb, ◌==◌, nat_eq,
}
use u_actor.Prelude.Assoc.{lookup}
use u_actor.Publication.{Map}
use u_actor.Subscription.{member, erase_node}
use u_actor.Runtime.{Actor, uint32_max}
use u_actor.Runtime.Methods.{ReceiveResult, enqueue}
use u_actor.Runtime.Untouched.{Untouched, destroy_actor-view}
use u_actor.Runtime.Executor.{
  Executor, Timeout, timestamp, post, publish, add_subscription, subscribe_as, remove_subscription,
  unsubscribe_from, unmapped, delayed_publish, enqueue_wakeup, add_timeout, executor_api, schedule,
  keep_actor,
}
use u_actor.Runtime.Executor.Loop.{
  hand_over, hand_one, hand_to_each, moved_or_copied, expire, fire_timeouts, publish_delayed,
  after_turn, wait_time, until_timeout, until_delayed,
}

-- A queue with more behind it.
abbrev pub Grows : List ℕ → List ℕ → Type 0
Grows q q' = (more : List ℕ) × (q' ≡ q ++ more)

pub Grows-refl : (q : List ℕ) → Grows q q
Grows-refl q = ([], sym (append_nil q))

pub Grows-trans : (a b c : List ℕ) → Grows a b → Grows b c → Grows a c
Grows-trans a b c (m, e) (n, f) = (m ++ n, f ∙ ap (λ l. l ++ n) e ∙ append_assoc a m n)

pub Grows-eq : (q p : List ℕ) → p ≡ q → Grows q p
Grows-eq q p e = ([], e ∙ sym (append_nil q))

schedule-Grows : (task : ℕ) (q : List ℕ) → Grows q (schedule task q)
unfolding schedule
schedule-Grows task q =
    if_ind (Grows q) (member task q) (λ e. Grows-refl q) (λ e. (task ∷ [], refl))

module _ {E : Type 0} where
  -- No method of the executor that actors call changes the ready queue.
  pub ready_queue-Untouched : Untouched executor_api (λ (ex : Executor E). ex.ready_queue)
  unfolding executor_api publish post add_subscription remove_subscription delayed_publish
      enqueue_wakeup add_timeout timestamp
  ready_queue-Untouched = record {
    publish_keeps = λ p ex. refl;
    add_keeps = λ id f arguments ex. subscribed (lookup id ex.actors) id f arguments ex;
    remove_keeps =
        λ id sub_id ex. unsubscribed (lookup sub_id ex.subscription_mapping) id sub_id ex;
    delayed_keeps = λ p delay ex. refl;
    wakeup_keeps = λ id delay wakeup_id ex. refl;
  }
    where
      subscribed :
          (o : Option (Actor E)) (id : ℕ) (f : _) (arguments : _) (ex : Executor E)
          → (subscribe_as o id f arguments ex).0.ready_queue ≡ ex.ready_queue
      subscribed none id f arguments ex = refl
      subscribed (some a) id f arguments ex = refl

      unsubscribed :
          (o : Option (List ℕ)) (id sub_id : ℕ) (ex : Executor E)
          → (unsubscribe_from o id sub_id ex).ready_queue ≡ ex.ready_queue
      unsubscribed none id sub_id ex = refl
      unsubscribed (some ids) id sub_id ex = unmapped_keeps (erase_node id ids)
        where
          unmapped_keeps : (left : List ℕ) → (unmapped left sub_id ex).ready_queue ≡ ex.ready_queue
          unmapped_keeps [] = refl
          unmapped_keeps (i ∷ is) = refl

  hand_over-Grows :
      (id : ℕ) (p : Map) (a : Actor E) (ex : Executor E)
      → Grows ex.ready_queue (hand_over id p a ex).ready_queue
  unfolding hand_over keep_actor
  hand_over-Grows id p a ex =
      if_ind (λ (x : Executor E). Grows ex.ready_queue x.ready_queue) (enqueue p a).1
        (λ e. schedule-Grows id ex.ready_queue) (λ e. Grows-refl ex.ready_queue)

  pub hand_to_each-Grows :
      (ids : List ℕ) (n : ℕ) (p : Map) (ex : Executor E)
      → Grows ex.ready_queue (hand_to_each ids n p ex).ready_queue
  unfolding hand_to_each
  hand_to_each-Grows [] n p ex = Grows-refl ex.ready_queue
  hand_to_each-Grows (id ∷ ids) n p ex =
      Grows-trans _ _ _ (one (lookup id ex.actors)) (hand_to_each-Grows ids _ p _)
    where
      one : (o : Option (Actor E)) → Grows ex.ready_queue (hand_one o id n p ex).1.ready_queue
      one none = Grows-refl ex.ready_queue
      one (some a) = hand_over-Grows id (moved_or_copied n p) a ex

  pub publish_delayed-ready :
      (delayed : List (ℕ × Map)) (ex : Executor E)
      → (publish_delayed delayed ex).ready_queue ≡ ex.ready_queue
  unfolding publish_delayed publish post timestamp
  publish_delayed-ready [] ex = refl
  publish_delayed-ready ((time, p) ∷ rest) ex =
      if_ind (λ (x : Executor E). x.ready_queue ≡ ex.ready_queue) (ltb time (timestamp ex).0)
        (λ e. publish_delayed-ready rest _) (λ e. refl)

  pub fire_timeouts-Grows :
      (start : ℕ) (ts : List Timeout) (ex : Executor E)
      → Grows ex.ready_queue (fire_timeouts start ts ex).ready_queue
  unfolding fire_timeouts keep_actor
  fire_timeouts-Grows start [] ex = Grows-refl ex.ready_queue
  fire_timeouts-Grows start (t ∷ ts) ex =
      if_ind (λ (x : Executor E). Grows ex.ready_queue x.ready_queue) (ltb t.timeout start)
        (λ e.
          Grows-trans _ _ _ (expired (lookup t.actor_id ex.actors))
            (fire_timeouts-Grows start ts _))
        (λ e. Grows-refl ex.ready_queue)
    where
      expired :
          (o : Option (Actor E))
          → Grows ex.ready_queue (record (expire o t ex) { timeouts = ts }).ready_queue
      expired none = Grows-refl ex.ready_queue
      expired (some a) = schedule-Grows t.actor_id ex.ready_queue

  pub after_turn-Grows :
      (task : ℕ) (result : ReceiveResult) (a : Actor E) (ex : Executor E)
      → Grows ex.ready_queue (after_turn task result a ex).ready_queue
  unfolding after_turn keep_actor add_timeout timestamp
  after_turn-Grows task result a ex =
      if_ind More result.exit
        (λ e. Grows-eq _ _ (
          destroy_actor-view executor_api (λ (x : Executor E). x.ready_queue) ready_queue-Untouched
            a ex))
        (λ e.
          if_ind More (result.next_timeout == 0) (λ z. (task ∷ [], refl))
            (λ z.
              if_ind More (ltb result.next_timeout uint32_max) (λ l. Grows-refl ex.ready_queue)
                (λ l. Grows-refl ex.ready_queue)))
    where
      More : Executor E → Type 0
      More x = Grows ex.ready_queue x.ready_queue

  pub wait_time-ready :
      (sleep_forever : ℕ) (ex : Executor E)
      → (wait_time sleep_forever ex).1.ready_queue ≡ ex.ready_queue
  unfolding wait_time timestamp
  wait_time-ready sleep_forever ex =
      delayed_keep _ (until_timeout sleep_forever ex.timeouts ex).1 ∙ timeout_keeps ex.timeouts
    where
      timeout_keeps :
          (ts : List Timeout) → (until_timeout sleep_forever ts ex).1.ready_queue ≡ ex.ready_queue
      timeout_keeps [] = refl
      timeout_keeps (t ∷ ts) = refl

      delayed_keep :
          (wait : ℕ) (x : Executor E)
          → (until_delayed wait x.delayed_messages x).1.ready_queue ≡ x.ready_queue
      delayed_keep wait x = of_messages x.delayed_messages
        where
          of_messages :
              (l : List (ℕ × Map)) → (until_delayed wait l x).1.ready_queue ≡ x.ready_queue
          of_messages [] = refl
          of_messages ((t, p) ∷ l) = refl
