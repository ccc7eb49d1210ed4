-- ===== src/Runtime/Untouched.antt =====
-- What an actor cannot change of its world: no method of it changes a view of the world that none of
-- the methods of `ExecutorApi` changes.
use u_actor.Prelude.{
  ℕ, ◌≡◌, refl, ◌∙◌, Text, Bool, true, false, Option, none, some, List, [], ◌∷◌, if_ind, ltb, ◌==◌,
  nat_eq,
}
use u_actor.Publication.{Map}
use u_actor.Runtime.{
  Program, return, then_subscribe, then_unsubscribe, then_publish, then_republish,
  then_delayed_publish, then_enqueue_wakeup, then_reply, then_block_for, then_fetch_code,
  then_queue_size, Engine, ExecutorApi, Actor,
}
use u_actor.Runtime.Methods.{perform, subscribe, unsubscribe, trigger_code_fetch, queue_size}
use u_actor.Filter.{Filter, matches}
use u_actor.Arguments.{SubscriptionArguments}
use u_actor.Runtime.{
  RuntimeReturnValue, no_value, ok, not_ready, runtime_error, initialization_error, ReplyContext,
}
use u_actor.Runtime.Methods.{
  ReceiveResult, run_engine, is_ok, is_failure, conclude, settle, found_first, extract,
  publish_exit_message, add_reply_subscription, destroy_actor, remove_subscriptions, has_type,
}
use u_actor.Runtime.Reception.{
  Handled, hibernate, wakeup, early_initialize, late_initialize, rest_if, code_arrived, late_code,
  wrong_code, in_context, deliver_message, deliver_if_awake, other_message, concluded, code_timeout,
  handle_message, unblocked, next_of, receive_next_internal,
}
use u_actor.Runtime.Asleep.{Holds}
use u_actor.Publication.{get_str_attr}
use u_actor.Router.{is_text}
use u_actor.Prelude.{not, ◌&&◌, ◌||◌, text_eq, codes}

-- A view of the world that no method of an `ExecutorApi` changes.
pub record Untouched {W X : Type 0} (api : ExecutorApi W) (view : W → X) : Type 0 where
  pub publish_keeps : (p : Map) (w : W) → view (api.publish p w) ≡ view w
  pub add_keeps :
      (id : ℕ) (f : Filter) (arguments : SubscriptionArguments) (w : W)
      → view (api.add_subscription id f arguments w).0 ≡ view w
  pub remove_keeps : (id sub_id : ℕ) (w : W) → view (api.remove_subscription id sub_id w) ≡ view w
  pub delayed_keeps : (p : Map) (delay : ℕ) (w : W) → view (api.delayed_publish p delay w) ≡ view w
  pub wakeup_keeps :
      (id delay : ℕ) (wakeup_id : Text) (w : W)
      → view (api.enqueue_wakeup id delay wakeup_id w) ≡ view w

module _ {E W X : Type 0} (api : ExecutorApi W) (view : W → X) (u : Untouched api view) where
  open u use {add_keeps, remove_keeps}

  pub destroy_actor-view : (a : Actor E) (w : W) → view (destroy_actor api a w) ≡ view w
  unfolding destroy_actor remove_subscriptions
  destroy_actor-view a w = each a.subscriptions w
    where
      each : (subs : List ℕ) (v : W) → view (remove_subscriptions api subs a.id v) ≡ view v
      each [] v = refl
      each (sub_id ∷ rest) v = each rest _ ∙ remove_keeps a.id sub_id v

  pub add_reply_subscription-view :
      (a : Actor E) (w : W) → view (add_reply_subscription api a w).1 ≡ view w
  unfolding add_reply_subscription subscribe
  add_reply_subscription-view a w = add_keeps a.id _ _ w

module _ {E W X : Type 0} (api : ExecutorApi W) (methods : Engine E) (view : W → X)
    (u : Untouched api view) where
  open u use {publish_keeps, add_keeps, remove_keeps, delayed_keeps, wakeup_keeps}

  -- A virtual method does not change such a view.
  perform-view :
      {A : Type 0} (p : Program A) (a : Actor E) (w : W)
      → view (perform api methods p a w).2 ≡ view w
  unfolding perform subscribe unsubscribe trigger_code_fetch
  perform-view (return x) a w = refl
  perform-view (then_subscribe f arguments k) a w =
      let (a', w', sub_id) = subscribe api f arguments a w in
      perform-view (k sub_id) a' w' ∙ add_keeps a.id f arguments w
  perform-view (then_unsubscribe sub_id k) a w = perform-view k _ _ ∙ remove_keeps a.id sub_id w
  perform-view (then_publish p k) a w = perform-view k a _ ∙ publish_keeps _ w
  perform-view (then_republish p k) a w = perform-view k a _ ∙ publish_keeps _ w
  perform-view (then_delayed_publish p delay k) a w = perform-view k a _ ∙ delayed_keeps p delay w
  perform-view (then_enqueue_wakeup delay wakeup_id k) a w =
      perform-view k a _ ∙ wakeup_keeps a.id delay wakeup_id w
  perform-view (then_reply p k) a w = perform-view k a _ ∙ publish_keeps _ w
  perform-view (then_block_for f timeout k) a w = perform-view k _ w
  perform-view (then_fetch_code k) a w = perform-view k _ _ ∙ publish_keeps _ w
  perform-view (then_queue_size k) a w = perform-view (k (queue_size a)) a w

  run_engine-view :
      {R : Type 0} (p : Program (R × E)) (a : Actor E) (w : W)
      → view (run_engine api methods p a w).2 ≡ view w
  unfolding run_engine
  run_engine-view p a w = perform-view p a w

  conclude-view :
      (is_exit : Bool) (ret : RuntimeReturnValue) (a : Actor E) (w : W)
      → view (conclude api is_exit (ret, a, w)).2 ≡ view w
  unfolding conclude settle publish_exit_message
  conclude-view is_exit ret a w =
      if_ind Same (is_failure ret || is_exit) (λ e. publish_keeps _ w)
        (λ e.
          if_ind Same a.waiting (λ t. searched (extract (λ m. matches a.pattern m) a.message_queue))
            (λ t. refl))
    where
      Same : ReceiveResult × Actor E × W → Type 0
      Same r = view r.2 ≡ view w

      searched : (o : Option (Map × List Map)) → Same (found_first api o a w)
      searched none = refl
      searched (some (m, ms)) = refl

  module _ (hibernation : Bool) where
    SameFor : W → Handled api methods hibernation → Type 0
    SameFor w h = view h.2 ≡ view w

    rest_if-view :
        (b : Bool) (a : Actor E) (w : W) → view (rest_if api methods hibernation b a w).2 ≡ view w
    unfolding hibernate
    rest_if-view true a w =
        if_ind (λ (r : Bool × Actor E × W). view r.2 ≡ view w)
          (run_engine api methods (methods.hibernate_internal a.engine) a w).0
          (λ e. run_engine-view (methods.hibernate_internal a.engine) a w)
          (λ e. run_engine-view (methods.hibernate_internal a.engine) a w)
    rest_if-view false a w = refl

    pub early_initialize-view :
        (a : Actor E) (w : W) → view (early_initialize api methods hibernation a w).2 ≡ view w
    unfolding early_initialize
    early_initialize-view a w = run_engine-view (methods.early_internal_initialize a.engine) a w

    wakeup-view : (a : Actor E) (w : W) → SameFor w (wakeup api methods hibernation a w)
    unfolding wakeup SameFor
    wakeup-view a w =
        if_ind (SameFor w) (is_ok (run_engine api methods (methods.wakeup_internal a.engine) a w).0)
          (λ e. run_engine-view (methods.wakeup_internal a.engine) a w)
          (λ e. run_engine-view (methods.wakeup_internal a.engine) a w)

    late_initialize-view :
        (code : Text) (a : Actor E) (w : W)
        → SameFor w (late_initialize api methods hibernation code a w)
    unfolding late_initialize SameFor publish_exit_message
    late_initialize-view code a w =
        if_ind (SameFor w)
          (is_ok (run_engine api methods (methods.late_internal_initialize code a.engine) a w).0)
          (λ e. run_engine-view (methods.late_internal_initialize code a.engine) a w)
          (λ e.
            publish_keeps _ _
            ∙ run_engine-view (methods.late_internal_initialize code a.engine) a w)

    code_arrived-view :
        (m : Map) (a : Actor E) (w : W)
        → Holds (SameFor w) (code_arrived api methods hibernation m a w)
    unfolding code_arrived SameFor
    code_arrived-view m a w =
        if_ind (Holds (SameFor w)) (not a.initialized)
          (λ e.
            if_ind (Holds (SameFor w))
              (is_text (get_str_attr (codes "fetch_actor_type") m) a.actor_type)
              (λ t. late (get_str_attr (codes "fetch_actor_code") m))
              (λ t. wrong (get_str_attr (codes "fetch_actor_type") m)))
          (λ e. refl)
      where
        late :
            (code : Option Text)
            → Holds
                (SameFor w)
                (late_code api methods hibernation code (record a { waiting_for_code = false }) w)
        late none = tt
        late (some code) = late_initialize-view code (record a { waiting_for_code = false }) w

        wrong :
            (name : Option Text)
            → Holds
                (SameFor w)
                (wrong_code api methods hibernation name (record a { waiting_for_code = false }) w)
        wrong none = tt
        wrong (some name) = refl

    deliver_message-view :
        (m : Map) (a : Actor E) (w v : W)
        → view w ≡ view v
        → Holds (SameFor v) (deliver_message api methods hibernation m a w)
    unfolding deliver_message SameFor
    deliver_message-view m a w v k = context _ _
      where
        context :
            (c : Option ReplyContext) (payload : Option Map)
            → Holds (SameFor v) (in_context api methods hibernation c payload a w)
        context none payload = tt
        context (some c) none = tt
        context (some c) (some payload) =
            rest_if-view hibernation _ _
            ∙ (run_engine-view (methods.receive payload a.engine) (record a { reply_context = c }) w
                ∙ k)

    deliver_if_awake-view :
        (m : Map) (h : Handled api methods hibernation) (w : W)
        → SameFor w h
        → Holds (SameFor w) (deliver_if_awake api methods hibernation m h)
    unfolding SameFor
    deliver_if_awake-view m (no_value, a, v) w k = deliver_message-view m a v w k
    deliver_if_awake-view m (ok, a, v) w k = deliver_message-view m a v w k
    deliver_if_awake-view m (not_ready, a, v) w k = k
    deliver_if_awake-view m (runtime_error, a, v) w k = k
    deliver_if_awake-view m (initialization_error, a, v) w k = k

    other_message-view :
        (m : Map) (a : Actor E) (w : W)
        → Holds (SameFor w) (other_message api methods hibernation m a w)
    unfolding other_message SameFor
    other_message-view m a w =
        deliver_if_awake-view m _ w
          (if_ind (SameFor w) (not a.initialized) (λ e. wakeup-view a w) (λ e. refl))

    -- What a step keeps.
    SameAfter : W → ReceiveResult × Actor E × W → Type 0
    SameAfter w r = view r.2 ≡ view w

    concluded-view :
        (is_exit : Bool) (o : Option (Handled api methods hibernation)) (w : W)
        → Holds (SameFor w) o
        → Holds (SameAfter w) (concluded api methods hibernation is_exit o)
    unfolding SameFor SameAfter
    concluded-view is_exit none w h = tt
    concluded-view is_exit (some (ret, a, v)) w h = conclude-view is_exit ret a v ∙ h

    code_timeout-view :
        (is_exit : Bool) (a : Actor E) (w : W)
        → SameAfter w (code_timeout api methods hibernation is_exit a w)
    unfolding code_timeout trigger_code_fetch SameAfter
    code_timeout-view is_exit a w =
        if_ind (SameAfter w) (ltb a.code_fetch_retries 20) (λ e. publish_keeps _ w)
          (λ e. conclude-view is_exit initialization_error a w)

    handle_message-view :
        (m : Map) (a : Actor E) (w : W)
        → Holds (SameAfter w) (handle_message api methods hibernation m a w)
    unfolding handle_message
    handle_message-view m a w =
        if_ind (Holds (SameAfter w))
          (has_type (codes "code_fetch_response") m && not (a.actor_type == codes "code_store"))
          (λ e. concluded-view (has_type (codes "exit") m) _ w (code_arrived-view m a w))
          (λ e.
            if_ind (Holds (SameAfter w)) (has_type (codes "timeout") m && a.waiting_for_code)
              (λ t. code_timeout-view (has_type (codes "exit") m) a w)
              (λ t. concluded-view (has_type (codes "exit") m) _ w (other_message-view m a w)))

    pub receive_next_internal-view :
        (a : Actor E) (w : W)
        → Holds (λ r. view r.2 ≡ view w) (receive_next_internal api methods hibernation a w)
    unfolding receive_next_internal SameAfter
    receive_next_internal-view a w = first a.message_queue
      where
        first : (queue : List Map) → Holds (SameAfter w) (next_of api methods hibernation queue a w)
        first [] = tt
        first (m ∷ queue) = handle_message-view m (unblocked api methods hibernation queue a) w
