-- ===== src/Runtime/Readable.antt =====
-- When an actor can handle a message without a read of a value that is absent.
use u_actor.Prelude.{
  ◌≡◌, refl, sym, subst, Text, Bool, true, false, not, ◌&&◌, Option, none, some, List, ◌∷◌, ◌==◌,
  text_eq, if_ind, codes, &&_parts,
}
use u_actor.Publication.{Map, get_str_attr, get_nested_component, is_some}
use u_actor.Router.{is_text}
use u_actor.Runtime.{
  no_value, ok, not_ready, runtime_error, initialization_error, ReplyContext, set_reply, Engine,
  ExecutorApi, Actor,
}
use u_actor.Runtime.Methods.{ReceiveResult, unwrap, unwrap_with, has_type}
use u_actor.Runtime.Reception.{
  Handled, code_arrived, late_code, wrong_code, in_context, deliver_message, deliver_if_awake,
  other_message, concluded, handle_message, unblocked, next_of, receive_next_internal,
}

-- A message with the names of its publisher, with the attributes of a code package if it is one, and
-- with the inner message if it is a wrapper.
pub record IsReadable (m : Map) : Type 0 where
  pub publisher_is : is_some (set_reply m) ≡ true
  pub code_is :
      has_type (codes "code_fetch_response") m ≡ true
      → (is_some (get_str_attr (codes "fetch_actor_type") m) ≡ true)
        × (is_some (get_str_attr (codes "fetch_actor_code") m) ≡ true)
  pub wrapped_is :
      has_type (codes "__unicast_wrapper") m ≡ true
      → is_some (get_nested_component (codes "__wrapped") m) ≡ true

module _ {E W : Type 0} (api : ExecutorApi W) (methods : Engine E) (hibernation : Bool) where
  -- There is a result.
  abbrev Defined : Option (Handled api methods hibernation) → Type 0
  Defined o = is_some o ≡ true

  code_arrived-Defined :
      (m : Map) (a : Actor E) (w : W)
      → has_type (codes "code_fetch_response") m ≡ true
      → IsReadable m
      → Defined (code_arrived api methods hibernation m a w)
  unfolding code_arrived
  code_arrived-Defined m a w c k =
      if_ind Defined (not a.initialized)
        (λ e.
          if_ind Defined (is_text (get_str_attr (codes "fetch_actor_type") m) a.actor_type)
            (λ t. late _ (k.code_is c).1) (λ t. wrong _ (k.code_is c).0))
        (λ e. refl)
    where
      late :
          (code : Option Text)
          → is_some code ≡ true
          → Defined
              (late_code api methods hibernation code (record a { waiting_for_code = false }) w)
      late none h = h
      late (some code) h = refl

      wrong :
          (name : Option Text)
          → is_some name ≡ true
          → Defined
              (wrong_code api methods hibernation name (record a { waiting_for_code = false }) w)
      wrong none h = h
      wrong (some name) h = refl

  deliver_message-Defined :
      (m : Map) (a : Actor E) (w : W)
      → IsReadable m
      → Defined (deliver_message api methods hibernation m a w)
  unfolding deliver_message unwrap
  deliver_message-Defined m a w k = context (set_reply m) _ k.publisher_is (
      if_ind (λ (o : Option Map). is_some o ≡ true) (has_type (codes "__unicast_wrapper") m)
        (λ e. inner (set_reply m) _ k.publisher_is (k.wrapped_is e)) (λ e. refl))
    where
      context :
          (c : Option ReplyContext) (payload : Option Map)
          → is_some c ≡ true
          → is_some payload ≡ true
          → Defined (in_context api methods hibernation c payload a w)
      context none payload h g = h
      context (some c) none h g = g
      context (some c) (some payload) h g = refl

      inner :
          (c : Option ReplyContext) (o : Option Map)
          → is_some c ≡ true
          → is_some o ≡ true
          → is_some (unwrap_with c o) ≡ true
      inner none o h g = h
      inner (some c) none h g = g
      inner (some c) (some o) h g = refl

  other_message-Defined :
      (m : Map) (a : Actor E) (w : W)
      → IsReadable m
      → Defined (other_message api methods hibernation m a w)
  unfolding other_message
  other_message-Defined m a w k = awake _
    where
      awake :
          (h : Handled api methods hibernation)
          → Defined (deliver_if_awake api methods hibernation m h)
      awake (no_value, b, v) = deliver_message-Defined m b v k
      awake (ok, b, v) = deliver_message-Defined m b v k
      awake (not_ready, b, v) = refl
      awake (runtime_error, b, v) = refl
      awake (initialization_error, b, v) = refl

  concluded-some :
      (is_exit : Bool) (o : Option (Handled api methods hibernation))
      → Defined o
      → is_some (concluded api methods hibernation is_exit o) ≡ true
  concluded-some is_exit none h = h
  concluded-some is_exit (some h) k = refl

  -- An actor handles every message that has the names of its publisher and, if it is a code package
  -- or a wrapper, what such a message has to have: no value that is absent is read, and the actor
  -- goes on or ends, whatever its engine does.
  pub receive_next_internal-some :
      (m : Map) (queue : List Map) (a : Actor E) (w : W)
      → a.message_queue ≡ m ∷ queue
      → IsReadable m
      → is_some (receive_next_internal api methods hibernation a w) ≡ true
  unfolding receive_next_internal handle_message
  receive_next_internal-some m queue a w e k =
      subst (λ l. is_some (next_of api methods hibernation l a w) ≡ true) (sym e)
        (handled (unblocked api methods hibernation queue a))
    where
      IsThere : Option (ReceiveResult × Actor E × W) → Type 0
      IsThere o = is_some o ≡ true

      handled : (b : Actor E) → is_some (handle_message api methods hibernation m b w) ≡ true
      handled b =
          if_ind IsThere
            (has_type (codes "code_fetch_response") m && not (b.actor_type == codes "code_store"))
            (λ c. concluded-some _ _ (
              code_arrived-Defined m b w (&&_parts (has_type (codes "code_fetch_response") m) _ c).0
                k))
            (λ c.
              if_ind IsThere (has_type (codes "timeout") m && b.waiting_for_code) (λ t. refl)
                (λ t. concluded-some _ _ (other_message-Defined m b w k)))
