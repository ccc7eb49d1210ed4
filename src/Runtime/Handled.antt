-- ===== src/Runtime/Handled.antt =====
-- What an actor does with the next message of its queue, whatever its engine does.
use u_actor.Prelude.{
  suc, ◌≤◌, ◌≡◌, refl, sym, ap, subst, ◌∙◌, Bool, true, false, not, ◌&&◌, Option, none, some, List,
  ◌∷◌, ◌==◌, text_eq, inl, inr, ◌⊎◌, if_ind, arith, ltb, count, codes, &&_parts, if◌then◌else◌,
}
use u_actor.Publication.{Map}
use u_actor.Runtime.{initialization_error, Engine, ExecutorApi, Actor}
use u_actor.Runtime.Methods.{
  ReceiveResult, trigger_code_fetch, deffered_block_for, has_type, publisher_names, fetch_request,
  code_pattern,
}
use u_actor.Runtime.Reception.{
  Handled, code_arrived, other_message, concluded, code_timeout, handle_message, unblocked, next_of,
  receive_next_internal,
}
use u_actor.Router.Meta.{new_publication}
use u_actor.Runtime.Asleep.{Holds, Holds-map, IsConcluded, conclude-IsOutcome}
use u_actor.Runtime.Handling.{
  kept_queue, IsHandled, stays_asleep, code_arrived-IsHandled, other_message-IsHandled,
}

module _ {E W : Type 0} (api : ExecutorApi W) (methods : Engine E) (hibernation : Bool) where
  -- A code package, for any actor but the code store.
  abbrev pub brings_code : Map → Actor E → Bool
  brings_code m a =
      has_type (codes "code_fetch_response") m && not (a.actor_type == codes "code_store")

  -- A timeout of an actor that waits for its code.
  abbrev pub is_code_timeout : Map → Actor E → Bool
  is_code_timeout m a = has_type (codes "timeout") m && a.waiting_for_code

  -- Another message, of which the engine has to be told and cannot.
  abbrev pub is_put_back : Map → Actor E → W → Bool
  is_put_back m a w =
      not (brings_code m a)
      && (not (is_code_timeout m a) && stays_asleep api methods hibernation a w)

  -- The request for its code that an actor publishes.
  abbrev pub with_request : Actor E → W → W
  with_request a w = api.publish (publisher_names a (fetch_request methods.actor_runtime_type a)) w

  -- After a timeout an actor that has waited for its code waits for it for another second, blocked
  -- but for its arrival; the request is published, and counted, and is one of twenty.
  abbrev pub IsRequest : Actor E → W → ReceiveResult × Actor E × W → Type 0
  IsRequest a w (result, b, w') =
      (result.exit ≡ false)
      × (result.next_timeout ≡ 1000)
      × (a.waiting_for_code ≡ true)
      × (b.waiting_for_code ≡ true)
      × (b.waiting ≡ true)
      × (b.pattern ≡ code_pattern)
      × (b.code_fetch_retries ≡ suc a.code_fetch_retries)
      × (b.code_fetch_retries ≤ 20)
      × (w' ≡ with_request a w)

  -- What an actor does after a message: it has sent another request for its code, or it is settled
  -- with no request counted.
  abbrev pub IsSettled : Actor E → W → ReceiveResult × Actor E × W → Type 0
  IsSettled a w r =
      (IsConcluded r × (r.1.code_fetch_retries ≡ a.code_fetch_retries)) ⊎ IsRequest a w r

  -- What a step does, with the queue that it leaves.
  abbrev IsStep : Bool → Map → Actor E → W → ReceiveResult × Actor E × W → Type 0
  IsStep put_back m a w r =
      IsSettled a w r
      × ((q : Map → Bool) → count q r.1.message_queue ≡ count q (kept_queue put_back m a))

  concluded-IsStep :
      (put_back : Bool) (m : Map) (a : Actor E) (w : W) (is_exit : Bool)
      (o : Option (Handled api methods hibernation))
      → Holds (IsHandled api methods hibernation (kept_queue put_back m a) a) o
      → Holds (IsStep put_back m a w) (concluded api methods hibernation is_exit o)
  concluded-IsStep put_back m a w is_exit none h = tt
  concluded-IsStep put_back m a w is_exit (some (ret, b, w')) (e, left) =
      let outcome = conclude-IsOutcome api is_exit ret b w' in
      (inl (outcome.0, outcome.1 ∙ e), λ q. outcome.2 q ∙ ap (count q) left)

  code_timeout-IsStep :
      (m : Map) (is_exit : Bool) (a : Actor E) (w : W)
      → a.waiting_for_code ≡ true
      → IsStep false m a w (code_timeout api methods hibernation is_exit a w)
  unfolding code_timeout trigger_code_fetch deffered_block_for publisher_names fetch_request
      new_publication
  code_timeout-IsStep m is_exit a w waits =
      if_ind (IsStep false m a w) (ltb a.code_fetch_retries 20)
        (λ e. (inr (refl, refl, waits, refl, refl, refl, refl, ground (arith, e), refl), λ q. refl))
        (λ e.
          let outcome = conclude-IsOutcome api is_exit initialization_error a w in
          (inl (outcome.0, outcome.1), outcome.2))

  handle_message-IsStep :
      (m : Map) (a : Actor E) (w : W)
      → Holds (IsStep (is_put_back m a w) m a w) (handle_message api methods hibernation m a w)
  unfolding handle_message
  handle_message-IsStep m a w = by_type (brings_code m a) (is_code_timeout m a) refl
    where
      by_type :
          (code late : Bool)
          → is_code_timeout m a ≡ late
          → Holds
              (IsStep (not code && (not late && stays_asleep api methods hibernation a w)) m a w)
              (if code
                then concluded api methods hibernation
                    (has_type (codes "exit") m)
                    (code_arrived api methods hibernation m a w)
                else if late
                then some (code_timeout api methods hibernation (has_type (codes "exit") m) a w)
                else concluded api methods hibernation
                    (has_type (codes "exit") m)
                    (other_message api methods hibernation m a w))
      by_type true late e =
          concluded-IsStep false m a w _ _ (code_arrived-IsHandled api methods hibernation m a w)
      by_type false true e =
          code_timeout-IsStep m (has_type (codes "exit") m) a w
            (&&_parts (has_type (codes "timeout") m) a.waiting_for_code e).1
      by_type false false e =
          concluded-IsStep (stays_asleep api methods hibernation a w) m a w _ _
            (other_message-IsHandled api methods hibernation m a w)

  -- What follows of a step holds of the next one.
  next_of-Holds :
      (P : ReceiveResult × Actor E × W → Type 0) (m : Map) (queue : List Map) (a : Actor E) (w : W)
      → ((r : ReceiveResult × Actor E × W)
          → IsStep
              (is_put_back m (unblocked api methods hibernation queue a) w)
              m
              (unblocked api methods hibernation queue a)
              w
              r
          → P r)
      → Holds P (next_of api methods hibernation (m ∷ queue) a w)
  next_of-Holds P m queue a w f =
      Holds-map f
        (handle_message api methods hibernation m (unblocked api methods hibernation queue a) w)
        (handle_message-IsStep m (unblocked api methods hibernation queue a) w)

  -- Handling the first message of a queue loses no other one, makes up none, and keeps the handled
  -- one only when its engine has to be woken up for it and is not ready: each test then counts as many
  -- messages after it as with the handled one before, and else as many as behind it. A code package
  -- and a timeout of an actor that waits for its code are never kept; whatever the engine does, unless a value
  -- that is absent is read.
  pub receive_next_internal-count :
      (m : Map) (queue : List Map) (a : Actor E) (w : W)
      → a.message_queue ≡ m ∷ queue
      → Holds
          (λ r.
            (q : Map → Bool)
            → count q r.1.message_queue
              ≡ count q (
                  if is_put_back m (unblocked api methods hibernation queue a) w
                  then m ∷ queue
                  else queue))
          (receive_next_internal api methods hibernation a w)
  unfolding receive_next_internal unblocked
  receive_next_internal-count m queue a w e =
      subst (λ l. Holds KeepsCount (next_of api methods hibernation l a w)) (sym e)
        (next_of-Holds KeepsCount m queue a w (λ r s. s.1))
    where
      KeepsCount : ReceiveResult × Actor E × W → Type 0
      KeepsCount r =
          (q : Map → Bool)
          → count q r.1.message_queue
            ≡ count q (
                if is_put_back m (unblocked api methods hibernation queue a) w
                then m ∷ queue
                else queue)
