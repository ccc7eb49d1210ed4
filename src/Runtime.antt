-- ===== src/Runtime.antt =====
-- The actors of a runtime: the types of uActor/include/actor_runtime/managed_actor.hpp,
-- executor_api.hpp and reply_context.hpp. A subclass of `ManagedActor` runs an actor in a language's
-- engine; what it does in one of the virtual methods is a program of calls of the protected
-- methods, so that a method of the engine always returns. Telemetry is not modelled.

pub mod Methods
pub mod Reception
pub mod Executor
pub mod Kept
pub mod Asleep
pub mod Handling
pub mod Handled
pub mod Untouched
pub mod CodeFetch
pub mod Readable
use u_actor.Prelude.{ℕ, ◌-◌, ◌^◌, Text, Bool, true, false, Option, none, some, List, [], ◌∷◌, codes}
use u_actor.Publication.{Map, str, get_str_attr, set_attr}
use u_actor.Filter.{Filter}
use u_actor.Arguments.{SubscriptionArguments}

pub data RuntimeReturnValue : Type 0 where
  no_value ok not_ready runtime_error initialization_error : RuntimeReturnValue

pub record ReplyContext : Type 0 where
  pub reply_node_id : Text
  pub reply_actor_type : Text
  pub reply_instance_id : Text

-- The constructor, and `ReplyContext::reset`.
unfoldable pub no_reply : ReplyContext
no_reply = record { reply_node_id = []; reply_actor_type = []; reply_instance_id = [] }

abbrev publisher : Option Text → Option Text → Option Text → Option ReplyContext
publisher (some n) (some t) (some i) =
    some (record { reply_node_id = n; reply_actor_type = t; reply_instance_id = i })
publisher (some n) (some t) none = none
publisher (some n) none i = none
publisher none t i = none

-- `ReplyContext::set`; a message without one of the attributes would be read past its end.
unfoldable pub set_reply : Map → Option ReplyContext
set_reply pub' =
    publisher (get_str_attr (codes "publisher_node_id") pub')
      (get_str_attr (codes "publisher_actor_type") pub')
      (get_str_attr (codes "publisher_instance_id") pub')

-- `ReplyContext::add_reply_fields`
unfoldable pub add_reply_fields : ReplyContext → Map → Map
add_reply_fields c m = set_attr (codes "actor_type") (str c.reply_actor_type) (
    set_attr (codes "instance_id") (str c.reply_instance_id)
      (set_attr (codes "node_id") (str c.reply_node_id) m))

-- What a virtual method does with the protected methods before it returns a value.
pub data Program (A : Type 0) : Type 0 where
  return : A → Program A
  then_subscribe : Filter → SubscriptionArguments → (ℕ → Program A) → Program A
  then_unsubscribe : ℕ → Program A → Program A
  then_publish : Map → Program A → Program A
  then_republish : Map → Program A → Program A
  then_delayed_publish : Map → ℕ → Program A → Program A
  then_enqueue_wakeup : ℕ → Text → Program A → Program A
  then_reply : Map → Program A → Program A
  then_block_for : Filter → ℕ → Program A → Program A
  then_fetch_code : Program A → Program A
  then_queue_size : (ℕ → Program A) → Program A

-- The virtual methods, on the state of the engine.
pub record Engine (E : Type 0) : Type 0 where
  pub actor_runtime_type : Text
  pub receive : Map → E → Program (RuntimeReturnValue × E)
  pub early_internal_initialize : E → Program (RuntimeReturnValue × E)
  pub late_internal_initialize : Text → E → Program (RuntimeReturnValue × E)
  pub hibernate_internal : E → Program (Bool × E)
  pub wakeup_internal : E → Program (RuntimeReturnValue × E)

-- `ExecutorApi`, with `Router::publish` beside it.
pub record ExecutorApi (W : Type 0) : Type 0 where
  pub publish : Map → W → W
  pub add_subscription : ℕ → Filter → SubscriptionArguments → W → W × ℕ
  pub remove_subscription : ℕ → ℕ → W → W
  pub delayed_publish : Map → ℕ → W → W
  pub enqueue_wakeup : ℕ → ℕ → Text → W → W

-- `ManagedActor`, with the state of its engine.
pub record Actor (E : Type 0) : Type 0 where
  pub engine : E
  pub reply_context : ReplyContext
  pub id : ℕ
  pub waiting : Bool
  pub pattern : Filter
  pub timeout : ℕ
  pub node_id : Text
  pub actor_type : Text
  pub actor_version : Text
  pub instance_id : Text
  pub message_queue : List Map
  pub subscriptions : List ℕ
  pub initialized : Bool
  pub code_fetch_retries : ℕ
  pub waiting_for_code : Bool

-- `UINT32_MAX`, which stands for no timeout.
abbrev pub uint32_max : ℕ
uint32_max = 2 ^ 32 - 1

-- The constructor.
unfoldable pub new_actor : {E : Type 0} → E → ℕ → Text → Text → Text → Text → Actor E
unfolding no_reply
new_actor engine id node_id actor_type actor_version instance_id = record {
  engine = engine;
  reply_context = no_reply;
  id = id;
  waiting = false;
  pattern = record { required_constraints = []; optional_constraints = [] };
  timeout = uint32_max;
  node_id = node_id;
  actor_type = actor_type;
  actor_version = actor_version;
  instance_id = instance_id;
  message_queue = [];
  subscriptions = [];
  initialized = false;
  code_fetch_retries = 0;
  waiting_for_code = false;
}
