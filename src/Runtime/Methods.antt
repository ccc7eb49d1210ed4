-- ===== src/Runtime/Methods.antt =====
-- The methods of `ManagedActor`: uActor/src/actor_runtime/managed_actor.cpp and
-- uActor/include/actor_runtime/managed_actor.hpp. The world of an actor is a parameter `W`, which its
-- executor changes. Where the code would read an absent value, the result is `none`.
use u_actor.Prelude.{
  ℕ, Text, pos, Bool, true, false, not, ◌||◌, Option, none, some, List, [], ◌∷◌, ◌++◌, text_eq,
  if◌then◌else◌, length, codes,
}
use u_actor.Publication.{
  str, int, flt, bin, nested, Map, empty, entry, get_str_attr, get_nested_component, set_attr,
  copy_map,
}
use u_actor.Constraint.Predicates.{eq}
use u_actor.Constraint.{constraint, text}
use u_actor.Filter.{Filter, matches}
use u_actor.Arguments.{SubscriptionArguments, default_arguments}
use u_actor.Subscription.{emplace_node, erase_node}
use u_actor.Router.{is_text}
use u_actor.Router.Meta.{new_publication}
use u_actor.Runtime.{
  RuntimeReturnValue, ok, not_ready, runtime_error, initialization_error, ReplyContext, set_reply,
  Program, return, then_subscribe, then_unsubscribe, then_publish, then_republish,
  then_delayed_publish, then_enqueue_wakeup, then_reply, then_block_for, then_fetch_code,
  then_queue_size, Engine, ExecutorApi, Actor,
}

pub record ReceiveResult : Type 0 where
  pub exit : Bool
  pub next_timeout : ℕ

abbrev pub is_ok : RuntimeReturnValue → Bool
is_ok ok = true
is_ok _ = false

abbrev pub is_not_ready : RuntimeReturnValue → Bool
is_not_ready not_ready = true
is_not_ready _ = false

abbrev pub is_failure : RuntimeReturnValue → Bool
is_failure runtime_error = true
is_failure initialization_error = true
is_failure _ = false

-- The reason that `receive_next_internal` gives for the end of an actor.
unfoldable pub exit_reason : RuntimeReturnValue → Text
exit_reason ok = codes "clean_exit"
exit_reason initialization_error = codes "initialization_failure"
exit_reason _ = codes "runtime_failure"

-- The loop of `Publication::unwrap`: a binary attribute is dropped, a map copied.
unfoldable pub unwrapped : Map → Map → Map
unwrapped empty m = m
unwrapped (entry k (str s) rest) m = unwrapped rest (set_attr k (str s) m)
unwrapped (entry k (int n) rest) m = unwrapped rest (set_attr k (int n) m)
unwrapped (entry k (flt x) rest) m = unwrapped rest (set_attr k (flt x) m)
unwrapped (entry k (bin b) rest) m = unwrapped rest m
unwrapped (entry k (nested n) rest) m = unwrapped rest (set_attr k (nested (copy_map n)) m)

abbrev pub unwrap_with : Option ReplyContext → Option Map → Option Map
unwrap_with (some c) (some inner) = some (
    set_attr (codes "__unwrapped") (int (pos 1))
      (unwrapped inner (new_publication c.reply_node_id c.reply_actor_type c.reply_instance_id)))
unwrap_with (some c) none = none
unwrap_with none inner = none

-- `Publication::unwrap`
unfoldable pub unwrap : Map → Option Map
unfolding unwrapped new_publication set_reply
unwrap m = unwrap_with (set_reply m) (get_nested_component (codes "__wrapped") m)

unfoldable pub has_type : Text → Map → Bool
has_type name m = is_text (get_str_attr (codes "type") m) name

module _ {E : Type 0} where
  -- `enqueue`: the actor after it, and whether it is to run.
  unfoldable pub enqueue : Map → Actor E → Actor E × Bool
  unfolding has_type
  enqueue message a =
      if has_type (codes "exit") message
      then (record a { message_queue = message ∷ a.message_queue }, true)
      else if a.waiting
      then (if matches a.pattern message
          then (record a { message_queue = message ∷ a.message_queue }, true)
          else (record a { message_queue = a.message_queue ++ message ∷ [] }, false))
      else (record a { message_queue = a.message_queue ++ message ∷ [] }, true)

  unfoldable pub timeout_message : Bool → Text → Actor E → Map
  unfolding new_publication
  timeout_message user_defined wakeup_id a =
      let p = new_publication a.node_id a.actor_type a.instance_id in
      if not user_defined
      then set_attr (codes "type") (str (codes "timeout"))
          (set_attr (codes "_internal_timeout") (str (codes "_timeout")) p)
      else set_attr (codes "wakeup_id") (str wakeup_id)
          (set_attr (codes "type") (str (codes "wakeup")) p)

  unfoldable pub trigger_timeout : Bool → Text → Actor E → Actor E
  unfolding timeout_message
  trigger_timeout user_defined wakeup_id a = record a {
    message_queue = timeout_message user_defined wakeup_id a ∷ a.message_queue;
  }

  unfoldable pub deffered_block_for : Filter → ℕ → Actor E → Actor E
  deffered_block_for f timeout a = record a { waiting = true; pattern = f; timeout = timeout }

  unfoldable pub queue_size : Actor E → ℕ
  queue_size a = length a.message_queue

  unfoldable pub exit_message : Text → Actor E → Map
  unfolding new_publication
  exit_message reason a = set_attr (codes "lifetime_instance_id") (str a.instance_id) (
      set_attr (codes "lifetime_actor_type") (str a.actor_type) (
        set_attr (codes "lifetime_node_id") (str a.node_id) (
          set_attr (codes "exit_reason") (str reason) (
            set_attr (codes "type") (str (codes "actor_exit")) (
              set_attr (codes "category") (str (codes "actor_lifetime"))
                (new_publication a.node_id a.actor_type a.instance_id))))))

  unfoldable pub creation_message : Actor E → Map
  unfolding new_publication
  creation_message a = set_attr (codes "lifetime_instance_id") (str a.instance_id) (
      set_attr (codes "lifetime_actor_type") (str a.actor_type) (
        set_attr (codes "lifetime_node_id") (str a.node_id) (
          set_attr (codes "type") (str (codes "actor_creation")) (
            set_attr (codes "category") (str (codes "actor_lifetime"))
              (new_publication a.node_id a.actor_type a.instance_id)))))

  unfoldable pub fetch_request : Text → Actor E → Map
  unfolding new_publication
  fetch_request runtime_type a = set_attr (codes "fetch_actor_runtime_type") (str runtime_type) (
      set_attr (codes "fetch_actor_version") (str a.actor_version) (
        set_attr (codes "fetch_actor_type") (str a.actor_type) (
          set_attr (codes "type") (str (codes "code_fetch_request"))
            (new_publication a.node_id a.actor_type a.instance_id))))

  -- The names that `publish` and `republish` write into a message.
  unfoldable pub publisher_names : Actor E → Map → Map
  publisher_names a p = set_attr (codes "publisher_actor_type") (str a.actor_type) (
      set_attr (codes "publisher_instance_id") (str a.instance_id)
        (set_attr (codes "publisher_node_id") (str a.node_id) p))

  unfoldable pub processor_names : Actor E → Map → Map
  processor_names a p = set_attr (codes "processor_actor_type") (str a.actor_type) (
      set_attr (codes "processor_instance_id") (str a.instance_id)
        (set_attr (codes "processor_node_id") (str a.node_id) p))

-- The pattern of `trigger_code_fetch`.
unfoldable pub code_pattern : Filter
code_pattern = record {
  required_constraints =
      constraint (codes "type") (text (codes "code_fetch_response") eq) false ∷ [];
  optional_constraints = [];
}

-- The filter of `add_reply_subscription`, and of an executor's own subscription.
unfoldable pub reply_filter : Text → Text → Text → Filter
reply_filter node_id actor_type instance_id = record {
  required_constraints =
      constraint (codes "node_id") (text node_id eq) false
      ∷ (constraint (codes "actor_type") (text actor_type eq) false
          ∷ (constraint (codes "instance_id") (text instance_id eq) false ∷ []));
  optional_constraints = [];
}

-- `std::find_if` with the erasure: the first element that passes, and the others.
unfoldable pub extract : {A : Type 0} → (A → Bool) → List A → Option (A × List A)
extract q [] = none
extract q (x ∷ xs) =
    let rest = extract q xs in
    if q x then some (x, xs) else elim rest [ none ↦ none | some (y, ys) ↦ some (y, x ∷ ys) ]

-- The timeout of an actor that does not wait: 0 while it has messages.
abbrev pub run_again : List Map → ℕ → ℕ
run_again [] timeout = timeout
run_again (m ∷ ms) timeout = 0

unfoldable pub remove_subscriptions : {W : Type 0} → ExecutorApi W → List ℕ → ℕ → W → W
remove_subscriptions api [] id w = w
remove_subscriptions api (sub_id ∷ rest) id w =
    remove_subscriptions api rest id (api.remove_subscription id sub_id w)

module _ {E W : Type 0} (api : ExecutorApi W) where
  unfoldable pub subscribe : Filter → SubscriptionArguments → Actor E → W → Actor E × W × ℕ
  unfolding emplace_node
  subscribe f arguments a w =
      let (w', sub_id) = api.add_subscription a.id f arguments w in
      (record a { subscriptions = emplace_node sub_id a.subscriptions }, w', sub_id)

  unfoldable pub unsubscribe : ℕ → Actor E → W → Actor E × W
  unfolding erase_node
  unsubscribe sub_id a w = (
    record a { subscriptions = erase_node sub_id a.subscriptions },
    api.remove_subscription a.id sub_id w,
  )

  unfoldable pub add_reply_subscription : Actor E → W → Actor E × W × ℕ
  unfolding subscribe reply_filter
  add_reply_subscription a w =
      subscribe (reply_filter a.node_id a.actor_type a.instance_id) default_arguments a w

  -- The destructor.
  unfoldable pub destroy_actor : Actor E → W → W
  unfolding remove_subscriptions
  destroy_actor a w = remove_subscriptions api a.subscriptions a.id w

  unfoldable pub publish_exit_message : Text → Actor E → W → W
  unfolding exit_message
  publish_exit_message reason a w = api.publish (exit_message reason a) w

  -- The search for an expected message, and the decision when the actor runs next.
  abbrev pub found_first : Option (Map × List Map) → Actor E → W → ReceiveResult × Actor E × W
  found_first (some (message, rest)) a w =
      (record { exit = false; next_timeout = 0 }, record a { message_queue = message ∷ rest }, w)
  found_first none a w = (record { exit = false; next_timeout = a.timeout }, a, w)

  unfoldable pub settle : Actor E → W → ReceiveResult × Actor E × W
  unfolding extract
  settle a w =
      if a.waiting
      then found_first (extract (λ message. matches a.pattern message) a.message_queue) a w
      else (record { exit = false; next_timeout = run_again a.message_queue a.timeout }, a, w)

  -- The end of `receive_next_internal`.
  unfoldable pub conclude : Bool → RuntimeReturnValue × Actor E × W → ReceiveResult × Actor E × W
  unfolding publish_exit_message settle
  conclude is_exit (ret, a, w) =
      if is_failure ret || is_exit
      then (record { exit = true; next_timeout = 0 }, a, publish_exit_message (exit_reason ret) a w)
      else settle a w

  module _ (methods : Engine E) where
    unfoldable pub trigger_code_fetch : Actor E → W → Actor E × W
    unfolding deffered_block_for code_pattern fetch_request publisher_names
    trigger_code_fetch a w = (
      deffered_block_for code_pattern 1000 (record a { waiting_for_code = true }),
      api.publish (publisher_names a (fetch_request methods.actor_runtime_type a)) w,
    )

    -- The calls of a virtual method, one after the other. `reply` makes a wrapper that has the
    -- addressee and then publishes the message without it.
    unfoldable pub perform : {A : Type 0} → Program A → Actor E → W → A × Actor E × W
    unfolding subscribe unsubscribe publisher_names processor_names deffered_block_for
        trigger_code_fetch queue_size
    perform (return x) a w = (x, a, w)
    perform (then_subscribe f arguments k) a w =
        let (a', w', sub_id) = subscribe f arguments a w in perform (k sub_id) a' w'
    perform (then_unsubscribe sub_id k) a w =
        let (a', w') = unsubscribe sub_id a w in perform k a' w'
    perform (then_publish p k) a w = perform k a (api.publish (publisher_names a p) w)
    perform (then_republish p k) a w = perform k a (api.publish (processor_names a p) w)
    perform (then_delayed_publish p delay k) a w = perform k a (api.delayed_publish p delay w)
    perform (then_enqueue_wakeup delay wakeup_id k) a w =
        perform k a (api.enqueue_wakeup a.id delay wakeup_id w)
    perform (then_reply p k) a w = perform k a (api.publish (publisher_names a p) w)
    perform (then_block_for f timeout k) a w = perform k (deffered_block_for f timeout a) w
    perform (then_fetch_code k) a w = let (a', w') = trigger_code_fetch a w in perform k a' w'
    perform (then_queue_size k) a w = perform (k (queue_size a)) a w

    -- A virtual method that returns a value, with the new state of the engine.
    unfoldable pub run_engine : {R : Type 0} → Program (R × E) → Actor E → W → R × Actor E × W
    unfolding perform
    run_engine p a w =
        let ((ret, engine), a', w') = perform p a w in (ret, record a' { engine = engine }, w')
