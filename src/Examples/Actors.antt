-- ===== src/Examples/Actors.antt =====
-- The theorems about actors and their executor at concrete inputs.
use u_actor.Prelude.{
  ℕ, zero, suc, ◌+◌, ◌≤◌, ◌≡◌, refl, Text, ℤ, pos, Bool, true, false, Option, none, some, List, [],
  ◌∷◌, ◌++◌, ◌⊎◌, codes, arith, count, text_beq, text_eq, ◌==◌, if◌then◌else◌, length, take,
}
use u_actor.Publication.{Map, entry, empty, str, get_attr, get_str_attr}
use u_actor.Runtime.{ok, not_ready, return, then_publish, Engine, ExecutorApi, Actor}
use u_actor.Runtime.Reception.{receive_next_internal, unblocked}
use u_actor.Runtime.Asleep.{Holds}
use u_actor.Runtime.Readable.{receive_next_internal-some}
use u_actor.Runtime.{set_reply}
use u_actor.Runtime.Methods.{has_type}
use u_actor.Publication.{is_some}
use u_actor.Runtime.Handled.{is_put_back, receive_next_internal-count}
use u_actor.Runtime.CodeFetch.{ends, timeouts_only, timeouts_only-ends}
use u_actor.Runtime.Executor.{Executor, Timeout, emplace_timeout}
use u_actor.Runtime.Executor.Deadlines.{
  IsSorted, AreOver, emplace_timeout-IsSorted, fire_timeouts-AreOver,
}
use u_actor.Runtime.Executor.Loop.{Round, running, fire_timeouts, drain, rounds}
use u_actor.Runtime.Executor.Ends.{IsDrained, drain-IsDrained}

-- An engine that counts its messages and publishes them again, and one that only counts.
abbrev echo : Engine ℕ
echo = record {
  actor_runtime_type = codes "lua";
  receive = λ m n. then_publish m (return (ok, suc n));
  early_internal_initialize = λ n. return (ok, n);
  late_internal_initialize = λ code n. return (ok, n);
  hibernate_internal = λ n. return (false, n);
  wakeup_internal = λ n. return (not_ready, n);
}

abbrev counting : Engine ℕ
counting = record echo { receive = λ m n. return (ok, suc n) }

-- A world that is the list of the messages published.
abbrev recorder : ExecutorApi (List Map)
recorder = record {
  publish = λ p w. w ++ p ∷ [];
  add_subscription = λ id f arguments w. (w, 1);
  remove_subscription = λ id sub_id w. w;
  delayed_publish = λ p delay w. w;
  enqueue_wakeup = λ id delay wakeup_id w. w;
}

abbrev message : Text → Map
message body = entry (codes "body") (str body) (
    entry (codes "publisher_node_id") (str (codes "n")) (
      entry (codes "publisher_actor_type") (str (codes "t"))
        (entry (codes "publisher_instance_id") (str (codes "i")) empty)))

abbrev busy : ℕ → Actor ℕ
busy id = record {
  engine = 0;
  reply_context = record { reply_node_id = []; reply_actor_type = []; reply_instance_id = [] };
  id = id;
  waiting = true;
  pattern = record { required_constraints = []; optional_constraints = [] };
  timeout = 1000;
  node_id = codes "n";
  actor_type = codes "greeter";
  actor_version = codes "1";
  instance_id = codes "i";
  message_queue = message (codes "a") ∷ (message (codes "b") ∷ []);
  subscriptions = [];
  initialized = true;
  code_fetch_retries = 0;
  waiting_for_code = false;
}

receive_next_internal-count_example :
    Holds
      (λ r.
        (q : Map → Bool)
        → count q r.1.message_queue
          ≡ count q (
              if is_put_back recorder echo false
                (message (codes "a"))
                (unblocked recorder echo false (message (codes "b") ∷ []) (busy 1))
                []
              then message (codes "a") ∷ (message (codes "b") ∷ [])
              else message (codes "b") ∷ []))
      (receive_next_internal recorder echo false (busy 1) [])
receive_next_internal-count_example =
    receive_next_internal-count recorder echo false (message (codes "a")) (message (codes "b") ∷ [])
      (busy 1) [] refl

abbrev without_code : Actor ℕ
without_code = record (busy 1) { initialized = false; waiting_for_code = true }

timeouts_only-ends_example : ends (timeouts_only recorder echo false 20 without_code []) ≡ some true
timeouts_only-ends_example =
    timeouts_only-ends recorder echo false 20 without_code [] refl (omega arith)

abbrev two_ready : Executor ℕ
two_ready = record {
  clock = λ n. n;
  readings = 0;
  router = record {
    node_id = codes "n";
    epoch = pos 1;
    sequence_number = 1;
    next_sub_id = 11;
    subscriptions = [];
    constraints = [];
    no_requirements = [];
    peer_node_ids = [];
    next_node_id = 2;
  };
  router_handle = record { this = 1; queue = []; subscriptions = [] };
  sent = [];
  actors = (1, busy 1) ∷ ((2, busy 2) ∷ []);
  node_id = codes "n";
  actor_type = codes "lua_executor";
  instance_id = codes "1";
  next_id = 3;
  subscription_mapping = [];
  ready_queue = 2 ∷ (1 ∷ []);
  timeouts = [];
  delayed_messages = [];
  executor_subscription_id = 11;
}

-- Both actors are served, and the one that is served first has one message left.
abbrev left_queue : Round (List ℕ × Executor ℕ) → List ℕ
left_queue (running (tasks, ex)) = tasks ++ ex.ready_queue
left_queue r = []

two_rounds :
    left_queue (rounds counting false 0 100 5 ([] ∷ ([] ∷ [])) two_ready) ≡ 2 ∷ (1 ∷ (2 ∷ (1 ∷ [])))
unfolding rounds u_actor.Prelude.Assoc.lookup get_str_attr get_attr text_beq
    u_actor.Prelude.Assoc.insert
two_rounds = refl

-- Two messages for a subscription of both actors.
abbrev two_messages : Executor ℕ
two_messages = record two_ready {
  router_handle = record {
    this = 1;
    queue =
        record { receiver = 1; publication = message (codes "c"); subscription_id = 5 }
        ∷ (record { receiver = 1; publication = message (codes "d"); subscription_id = 5 } ∷ []);
    subscriptions = 5 ∷ [];
  };
  subscription_mapping = (5, 1 ∷ (2 ∷ [])) ∷ [];
}

drain-IsDrained_example : IsDrained (drain counting false 0 2 two_messages)
drain-IsDrained_example = drain-IsDrained counting false 0 2 two_messages refl (omega arith)

receive_next_internal-some_example :
    is_some (receive_next_internal recorder echo false (busy 1) []) ≡ true
unfolding set_reply has_type get_str_attr get_attr text_beq
receive_next_internal-some_example =
    receive_next_internal-some recorder echo false (message (codes "a")) (message (codes "b") ∷ [])
      (busy 1) [] refl
      (record {
        publisher_is = refl;
        code_is = λ e. absurd (ground (arith, e));
        wrapped_is = λ e. absurd (ground (arith, e));
      })

abbrev deadline : ℕ → ℕ → Timeout
deadline time id = record { timeout = time; actor_id = id; user_defined = false; trigger_id = [] }

emplace_timeout-IsSorted_example :
    IsSorted (emplace_timeout (deadline 20 1) (deadline 10 2 ∷ (deadline 30 1 ∷ [])))
emplace_timeout-IsSorted_example =
    emplace_timeout-IsSorted (deadline 20 1) (deadline 10 2 ∷ (deadline 30 1 ∷ []))
      ((omega arith, tt), (tt, tt))

abbrev with_deadlines : Executor ℕ
with_deadlines = record two_ready {
  ready_queue = [];
  timeouts = deadline 10 2 ∷ (deadline 30 1 ∷ []);
}

fire_timeouts-AreOver_example :
    AreOver 20
      (deadline 10 2 ∷ (deadline 30 1 ∷ []))
      with_deadlines
      (fire_timeouts 20 (deadline 10 2 ∷ (deadline 30 1 ∷ [])) with_deadlines)
fire_timeouts-AreOver_example =
    fire_timeouts-AreOver 20 with_deadlines ((omega arith, tt), (tt, tt))
