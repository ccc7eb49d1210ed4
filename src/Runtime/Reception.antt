-- ===== src/Runtime/Reception.antt =====
-- How an actor handles the next message of its queue: `wakeup`, `hibernate`, the two initialisations
-- and `receive_next_internal` of uActor/src/actor_runtime/managed_actor.cpp and
-- uActor/include/actor_runtime/managed_actor.hpp. Whether actors hibernate after each message is a
-- parameter, as it is an option of the build.
use u_actor.Prelude.{
  ℕ, suc, Text, Bool, true, false, not, ◌&&◌, Option, none, some, List, [], ◌∷◌, ◌==◌, text_eq,
  if◌then◌else◌, ltb, codes,
}
use u_actor.Publication.{Map, get_str_attr}
use u_actor.Filter.{clear}
use u_actor.Router.{is_text}
use u_actor.Runtime.{
  RuntimeReturnValue, no_value, ok, not_ready, runtime_error, initialization_error, ReplyContext,
  no_reply, set_reply, Engine, ExecutorApi, Actor, uint32_max,
}
use u_actor.Runtime.Methods.{
  ReceiveResult, is_ok, unwrap, has_type, publish_exit_message, conclude, trigger_code_fetch,
  run_engine,
}

-- A value of the engine that no handler may return.
abbrev pub checked : RuntimeReturnValue → RuntimeReturnValue
checked not_ready = runtime_error
checked ret = ret

module _ {E W : Type 0} (api : ExecutorApi W) (methods : Engine E) (hibernation : Bool) where
  -- What handling a message leaves.
  abbrev pub Handled : Type 0
  Handled = RuntimeReturnValue × Actor E × W

  unfoldable pub hibernate : Actor E → W → Bool × Actor E × W
  unfolding run_engine
  hibernate a w =
      let (done, a', w') = run_engine api methods (methods.hibernate_internal a.engine) a w in
      if done then (true, record a' { initialized = false }, w') else (false, a', w')

  unfoldable pub wakeup : Actor E → W → Handled
  unfolding run_engine
  wakeup a w =
      let (ret, a', w') = run_engine api methods (methods.wakeup_internal a.engine) a w in
      if is_ok ret then (ret, record a' { initialized = true }, w') else (ret, a', w')

  unfoldable pub early_initialize : Actor E → W → (RuntimeReturnValue × ℕ) × Actor E × W
  unfolding run_engine
  early_initialize a w =
      let (ret, a', w') = run_engine api methods (methods.early_internal_initialize a.engine) a w in
      ((ret, a'.timeout), record a' { initialized = is_ok ret }, w')

  unfoldable pub late_initialize : Text → Actor E → W → Handled
  unfolding run_engine
  late_initialize code a w =
      let (ret, a', w') =
        run_engine api methods (methods.late_internal_initialize code a.engine) a w in
      let a'' = record a' { initialized = is_ok ret } in
      if is_ok ret then (ok, a'', w') else (
        initialization_error,
        a'',
        publish_exit_message api (codes "initialization_failure") a'' w',
      )

  -- The branch of a code package. One of another actor is reported with its type.
  abbrev pub late_code : Option Text → Actor E → W → Option Handled
  late_code none a w = none
  late_code (some code) a w = some (late_initialize code a w)

  abbrev pub wrong_code : Option Text → Actor E → W → Option Handled
  wrong_code none a w = none
  wrong_code (some name) a w = some (no_value, a, w)

  unfoldable pub code_arrived : Map → Actor E → W → Option Handled
  unfolding late_initialize
  code_arrived message a w =
      if not a.initialized
      then (let a' = record a { waiting_for_code = false } in
          if is_text (get_str_attr (codes "fetch_actor_type") message) a.actor_type
          then late_code (get_str_attr (codes "fetch_actor_code") message) a' w
          else wrong_code (get_str_attr (codes "fetch_actor_type") message) a' w)
      else some (no_value, a, w)

  abbrev pub rest_if : Bool → Actor E → W → Bool × Actor E × W
  rest_if true a w = hibernate a w
  rest_if false a w = (false, a, w)

  -- The call of `receive`, in the reply context of the message.
  abbrev pub in_context : Option ReplyContext → Option Map → Actor E → W → Option Handled
  in_context (some c) (some payload) a w =
      let (ret, a1, w1) =
        run_engine api methods (methods.receive payload a.engine) (record a { reply_context = c })
          w in
      let a2 = record a1 { reply_context = no_reply } in
      let (done, a3, w3) = rest_if hibernation a2 w1 in some (checked ret, a3, w3)
  in_context (some c) none a w = none
  in_context none payload a w = none

  unfoldable pub deliver_message : Map → Actor E → W → Option Handled
  unfolding hibernate set_reply unwrap
  deliver_message message a w =
      in_context (set_reply message)
        (if has_type (codes "__unicast_wrapper") message then unwrap message else some message) a w

  -- The branch of any other message. An actor that cannot be woken up gets it again.
  abbrev pub deliver_if_awake : Map → Handled → Option Handled
  deliver_if_awake message (no_value, a, w) = deliver_message message a w
  deliver_if_awake message (ok, a, w) = deliver_message message a w
  deliver_if_awake message (not_ready, a, w) =
      some (not_ready, record a { message_queue = message ∷ a.message_queue }, w)
  deliver_if_awake message (runtime_error, a, w) = some (runtime_error, a, w)
  deliver_if_awake message (initialization_error, a, w) = some (initialization_error, a, w)

  unfoldable pub other_message : Map → Actor E → W → Option Handled
  unfolding wakeup deliver_message
  other_message message a w =
      deliver_if_awake message (if not a.initialized then wakeup a w else (no_value, a, w))

  abbrev pub concluded : Bool → Option Handled → Option (ReceiveResult × Actor E × W)
  concluded is_exit none = none
  concluded is_exit (some handled) = some (conclude api is_exit handled)

  -- A timeout while code is awaited: the fetch is repeated twenty times.
  unfoldable pub code_timeout : Bool → Actor E → W → ReceiveResult × Actor E × W
  unfolding trigger_code_fetch conclude
  code_timeout is_exit a w =
      if ltb a.code_fetch_retries 20
      then (let (a', w') = trigger_code_fetch api methods a w in
          let a'' = record a' { code_fetch_retries = suc a'.code_fetch_retries } in
          (record { exit = false; next_timeout = a''.timeout }, a'', w'))
      else conclude api is_exit (initialization_error, a, w)

  unfoldable pub handle_message : Map → Actor E → W → Option (ReceiveResult × Actor E × W)
  unfolding has_type code_arrived code_timeout other_message
  handle_message message a w =
      if has_type (codes "code_fetch_response") message && not (a.actor_type == codes "code_store")
      then concluded (has_type (codes "exit") message) (code_arrived message a w)
      else if has_type (codes "timeout") message && a.waiting_for_code
      then some (code_timeout (has_type (codes "exit") message) a w)
      else concluded (has_type (codes "exit") message) (other_message message a w)

  -- The block of an actor ends with the next message.
  unfoldable pub unblocked : List Map → Actor E → Actor E
  unfolding clear
  unblocked queue a = record a {
    waiting = false;
    timeout = uint32_max;
    pattern = clear a.pattern;
    message_queue = queue;
  }

  abbrev pub next_of : List Map → Actor E → W → Option (ReceiveResult × Actor E × W)
  next_of [] a w = none
  next_of (message ∷ queue) a w = handle_message message (unblocked queue a) w

  -- `receive_next_internal`; an empty queue would be read at its front.
  unfoldable pub receive_next_internal : Actor E → W → Option (ReceiveResult × Actor E × W)
  unfolding handle_message unblocked
  receive_next_internal a w = next_of a.message_queue a w
