-- ===== src/Runtime/Handling.antt =====
-- What the branches of `receive_next_internal` leave of the queue of an actor:
-- uActor/src/actor_runtime/managed_actor.cpp.
use u_actor.Prelude.{
  ◌≡◌, refl, ap, ◌∙◌, Text, Bool, true, false, not, ◌&&◌, Option, none, some, List, ◌∷◌, text_eq,
  if_ind, codes, if◌then◌else◌,
}
use u_actor.Publication.{Map, get_str_attr}
use u_actor.Router.{is_text}
use u_actor.Runtime.{
  no_value, ok, not_ready, runtime_error, initialization_error, ReplyContext, no_reply, Engine,
  ExecutorApi, Actor,
}
use u_actor.Runtime.Methods.{run_engine, is_not_ready}
use u_actor.Runtime.Reception.{
  Handled, wakeup, code_arrived, late_code, wrong_code, in_context, deliver_message, rest_if,
  deliver_if_awake, other_message,
}
use u_actor.Runtime.Kept.{Kept, run_engine-Kept, hibernate-Kept, wakeup-Kept, late_initialize-Kept}
use u_actor.Runtime.Asleep.{Holds}

module _ {E : Type 0} where
  -- The queue after a message for an actor that is awake, or that answers so to `wakeup`.
  abbrev pub kept_queue : Bool → Map → Actor E → List Map
  kept_queue put_back m a = if put_back then m ∷ a.message_queue else a.message_queue

module _ {E W : Type 0} (api : ExecutorApi W) (methods : Engine E) (hibernation : Bool) where
  -- After a message is handled, the queue is as given and the count of code fetches as before.
  abbrev pub IsHandled : List Map → Actor E → Handled api methods hibernation → Type 0
  IsHandled queue a h =
      (h.1.code_fetch_retries ≡ a.code_fetch_retries) × (h.1.message_queue ≡ queue)

  pub code_arrived-IsHandled :
      (m : Map) (a : Actor E) (w : W)
      → Holds (IsHandled a.message_queue a) (code_arrived api methods hibernation m a w)
  unfolding code_arrived
  code_arrived-IsHandled m a w =
      if_ind (Holds (IsHandled a.message_queue a)) (not a.initialized)
        (λ e.
          if_ind (Holds (IsHandled a.message_queue a))
            (is_text (get_str_attr (codes "fetch_actor_type") m) a.actor_type)
            (λ t. late (get_str_attr (codes "fetch_actor_code") m))
            (λ t. wrong (get_str_attr (codes "fetch_actor_type") m)))
        (λ e. (refl, refl))
    where
      late :
          (code : Option Text)
          → Holds
              (IsHandled a.message_queue a)
              (late_code api methods hibernation code (record a { waiting_for_code = false }) w)
      late none = tt
      late (some code) =
          let k =
            late_initialize-Kept api methods hibernation code
              (record a { waiting_for_code = false }) w in
          (k.1, k.0)

      wrong :
          (name : Option Text)
          → Holds
              (IsHandled a.message_queue a)
              (wrong_code api methods hibernation name (record a { waiting_for_code = false }) w)
      wrong none = tt
      wrong (some name) = (refl, refl)

  rest_if-Kept : (b : Bool) (a : Actor E) (w : W) → Kept a (rest_if api methods hibernation b a w).1
  rest_if-Kept true a w = hibernate-Kept api methods hibernation a w
  rest_if-Kept false a w = (refl, refl, refl)

  in_context-IsHandled :
      (m : Map) (c : Option ReplyContext) (payload : Option Map) (a : Actor E) (w : W)
      → Holds (IsHandled a.message_queue a) (in_context api methods hibernation c payload a w)
  in_context-IsHandled m none payload a w = tt
  in_context-IsHandled m (some c) none a w = tt
  in_context-IsHandled m (some c) (some payload) a w =
      let p = methods.receive payload a.engine in
      let r = run_engine api methods p (record a { reply_context = c }) w in
      let k = run_engine-Kept api methods p (record a { reply_context = c }) w in
      let n = rest_if-Kept hibernation (record r.1 { reply_context = no_reply }) r.2 in
      (n.1 ∙ k.1, n.0 ∙ k.0)

  -- An actor that has the queue and the count of another.
  IsHandled-Kept :
      (a b : Actor E) (o : Option (Handled api methods hibernation))
      → Kept a b
      → Holds (IsHandled b.message_queue b) o
      → Holds (IsHandled a.message_queue a) o
  IsHandled-Kept a b none k h = tt
  IsHandled-Kept a b (some (ret, c, w)) k (e, q) = (e ∙ k.1, q ∙ k.0)

  deliver_message-IsHandled :
      (m : Map) (a : Actor E) (w : W)
      → Holds (IsHandled a.message_queue a) (deliver_message api methods hibernation m a w)
  unfolding deliver_message
  deliver_message-IsHandled m a w = in_context-IsHandled m _ _ a w

  deliver_if_awake-IsHandled :
      (m : Map) (a : Actor E) (h : Handled api methods hibernation)
      → Kept a h.1
      → Holds
          (IsHandled (kept_queue (is_not_ready h.0) m a) a)
          (deliver_if_awake api methods hibernation m h)
  deliver_if_awake-IsHandled m a (no_value, b, w) k =
      IsHandled-Kept a b _ k (deliver_message-IsHandled m b w)
  deliver_if_awake-IsHandled m a (ok, b, w) k =
      IsHandled-Kept a b _ k (deliver_message-IsHandled m b w)
  deliver_if_awake-IsHandled m a (not_ready, b, w) k = (k.1, ap (λ q. m ∷ q) k.0)
  deliver_if_awake-IsHandled m a (runtime_error, b, w) k = (k.1, k.0)
  deliver_if_awake-IsHandled m a (initialization_error, b, w) k = (k.1, k.0)

  -- The engine is asked to wake up and is not ready.
  abbrev pub stays_asleep : Actor E → W → Bool
  stays_asleep a w = not a.initialized && is_not_ready (wakeup api methods hibernation a w).0

  pub other_message-IsHandled :
      (m : Map) (a : Actor E) (w : W)
      → Holds
          (IsHandled (kept_queue (stays_asleep a w) m a) a)
          (other_message api methods hibernation m a w)
  unfolding other_message
  other_message-IsHandled m a w = by_state (not a.initialized)
    where
      by_state :
          (b : Bool)
          → Holds
              (IsHandled
                (kept_queue (b && is_not_ready (wakeup api methods hibernation a w).0) m a)
                a)
              (deliver_if_awake api methods hibernation m
                (if b then wakeup api methods hibernation a w else (no_value, a, w)))
      by_state true = deliver_if_awake-IsHandled m a _ (wakeup-Kept api methods hibernation a w)
      by_state false = deliver_if_awake-IsHandled m a (no_value, a, w) (refl, refl, refl)
