-- ===== src/CodeStoreActor.antt =====
-- The actor that keeps and fetches code: uActor/src/actor_runtime/code_store_actor.cpp and
-- uActor/include/actor_runtime/code_store_actor.hpp. Its state is its own and the store of its node.
-- The readings of the clock are parameters. Where the code would read an absent value, the result is
-- `none`.
pub mod Fetching
use u_actor.Prelude.{
  ℕ, ◌+◌, ◌%◌, ◌^◌, Text, ℤ, Bool, true, false, not, ◌&&◌, ◌||◌, Option, none, some, List, [], ◌∷◌,
  ◌==◌, text_eq, if◌then◌else◌, ltb, codes,
}
use u_actor.Prelude.Assoc.{lookup, insert}
use u_actor.Publication.{Map, str, get_str_attr, get_int_attr, has_attr, set_attr}
use u_actor.Constraint.Predicates.{Predicate, eq, ne}
use u_actor.Constraint.{Constraint, constraint, text}
use u_actor.Filter.{Filter, make_filter}
use u_actor.Arguments.{SubscriptionArguments, default_arguments, to_uint32}
use u_actor.Router.{is_text}
use u_actor.Router.Meta.{new_publication}
use u_actor.CodeStore.{CodeIdentifier, identifier_eq, Store, retrieve, insert_or_refresh}
use u_actor.Runtime.{
  Program, return, then_subscribe, then_unsubscribe, then_publish, then_enqueue_wakeup,
}
use u_actor.Runtime.Methods.{has_type}

pub record CodeStoreActor : Type 0 where
  pub node_id : Text
  pub actor_type : Text
  pub instance_id : Text
  pub code_miss_debounce : List (CodeIdentifier × ℕ)
  pub code_fetch_subscription_id : ℕ
  -- `CodeStore::get_instance()`
  pub store : Store

-- The readings of the clock that a message may take, in their order.
pub record Clock : Type 0 where
  pub first : ℕ
  pub second : ℕ
  pub third : ℕ

-- What a message leads to: the messages that are published, and the new state.
abbrev pub Outcome : Type 0
Outcome = Option (List Map × CodeStoreActor)

-- The three texts that name code.
abbrev pub three : Option Text → Option Text → Option Text → Option CodeIdentifier
three (some t) (some v) (some r) = some (record { type = t; version = v; runtime_type = r })
three (some t) (some v) none = none
three (some t) none r = none
three none v r = none

abbrev pub named_code : Map → Option CodeIdentifier
named_code publication =
    three (get_str_attr (codes "actor_code_type") publication)
      (get_str_attr (codes "actor_code_version") publication)
      (get_str_attr (codes "actor_code_runtime_type") publication)

abbrev pub fetched_code : Map → Option CodeIdentifier
fetched_code publication =
    three (get_str_attr (codes "fetch_actor_type") publication)
      (get_str_attr (codes "fetch_actor_version") publication)
      (get_str_attr (codes "fetch_actor_runtime_type") publication)

abbrev pub refresh : Option CodeIdentifier → Option ℤ → Option Text → CodeStoreActor → Outcome
refresh (some identifier) (some lifetime_end) code a =
    some
      ([], record a { store = insert_or_refresh identifier (to_uint32 lifetime_end) code a.store })
refresh (some identifier) none code a = none
refresh none lifetime_end code a = none

abbrev pub with_code : Option CodeIdentifier → Option ℤ → Option Text → CodeStoreActor → Outcome
with_code identifier lifetime_end none a = none
with_code identifier lifetime_end (some code) a = refresh identifier lifetime_end (some code) a

-- `receive_code_store`
unfoldable pub receive_code_store : Map → CodeStoreActor → Outcome
unfolding insert_or_refresh
receive_code_store publication a =
    if has_attr (codes "actor_code_type") publication
      && (has_attr (codes "actor_code_version") publication
          && (has_attr (codes "actor_code_runtime_type") publication
              && (has_attr (codes "actor_code_lifetime_end") publication
                  && has_attr (codes "actor_code") publication)))
    then with_code (named_code publication)
        (get_int_attr (codes "actor_code_lifetime_end") publication)
        (get_str_attr (codes "actor_code") publication) a
    else some ([], a)

-- `receive_lifetime_update`
unfoldable pub receive_lifetime_update : Map → CodeStoreActor → Outcome
unfolding insert_or_refresh
receive_lifetime_update publication a =
    if not (
      has_attr (codes "actor_code_type") publication
      && (has_attr (codes "actor_code_version") publication
          && (has_attr (codes "actor_code_runtime_type") publication
              && has_attr (codes "actor_code_lifetime_end") publication)))
    then some ([], a)
    else refresh (named_code publication)
        (get_int_attr (codes "actor_code_lifetime_end") publication) none a

unfoldable pub fetch_message : CodeIdentifier → CodeStoreActor → Map
unfolding new_publication
fetch_message identifier a = set_attr (codes "last_cache_miss_node_id") (str a.node_id) (
    set_attr (codes "fetch_actor_runtime_type") (str identifier.runtime_type) (
      set_attr (codes "fetch_actor_version") (str identifier.version) (
        set_attr (codes "fetch_actor_type") (str identifier.type) (
          set_attr (codes "type") (str (codes "code_fetch_request"))
            (new_publication a.node_id a.actor_type a.instance_id)))))

abbrev pub deadline_after : ℕ → ℕ
deadline_after now = (now + 5000) % 2 ^ 32

-- After `try_emplace` of the deadline of a miss: a new miss, or one whose deadline is over, is
-- published, with a new deadline. The third reading is taken after the comparison with the second.
abbrev pub missed : Clock → Option ℕ → CodeIdentifier → CodeStoreActor → List Map × CodeStoreActor
missed clock none identifier a = (
  fetch_message identifier a ∷ [],
  record a {
    code_miss_debounce = insert identifier (deadline_after clock.second) a.code_miss_debounce;
  },
)
missed clock (some deadline) identifier a =
    if ltb deadline clock.second
    then (
      fetch_message identifier a ∷ [],
      record a {
        code_miss_debounce = insert identifier (deadline_after clock.third) a.code_miss_debounce;
      },
    )
    else ([], a)

unfoldable pub debounce : Clock → CodeIdentifier → CodeStoreActor → List Map × CodeStoreActor
unfolding fetch_message
debounce clock identifier a = missed clock (lookup identifier a.code_miss_debounce) identifier a

abbrev pub unavailable : Clock → Option CodeIdentifier → CodeStoreActor → Outcome
unavailable clock none a = none
unavailable clock (some identifier) a = some (debounce clock identifier a)

-- `receive_code_unavailable_notification`; the presence of the version is tested twice, and that of
-- the runtime's type is not.
unfoldable pub receive_code_unavailable_notification : Clock → Map → CodeStoreActor → Outcome
unfolding debounce
receive_code_unavailable_notification clock publication a =
    if not (
      has_attr (codes "unavailable_actor_type") publication
      && (has_attr (codes "unavailable_actor_version") publication
          && has_attr (codes "unavailable_actor_version") publication))
    then some ([], a)
    else unavailable clock
        (three (get_str_attr (codes "unavailable_actor_type") publication)
          (get_str_attr (codes "unavailable_actor_version") publication)
          (get_str_attr (codes "unavailable_actor_runtime_type") publication))
        a

-- The answer with code, to the three names of an asker: node, type and instance.
unfoldable pub response_message : CodeIdentifier → Text → Text → Text → Text → CodeStoreActor → Map
unfolding new_publication
response_message identifier code node actor instance' a =
    set_attr (codes "fetch_actor_runtime_type") (str identifier.runtime_type) (
      set_attr (codes "fetch_actor_version") (str identifier.version) (
        set_attr (codes "fetch_actor_type") (str identifier.type) (
          set_attr (codes "instance_id") (str instance') (
            set_attr (codes "actor_type") (str actor) (
              set_attr (codes "node_id") (str node) (
                set_attr (codes "type") (str (codes "code_fetch_response")) (
                  set_attr (codes "fetch_actor_code") (str code)
                    (new_publication a.node_id a.actor_type a.instance_id))))))))

abbrev pub answer :
    CodeIdentifier → Text → Option Text → Option Text → Option Text → CodeStoreActor → Outcome
answer identifier code (some node) (some actor) (some instance') a =
    some (response_message identifier code node actor instance' a ∷ [], a)
answer identifier code (some node) (some actor) none a = none
answer identifier code (some node) none i a = none
answer identifier code none t i a = none

abbrev pub found_code : Clock → CodeIdentifier → Option Text → Map → CodeStoreActor → Outcome
found_code clock identifier none publication a = some (debounce clock identifier a)
found_code clock identifier (some code) publication a =
    answer identifier code (get_str_attr (codes "publisher_node_id") publication)
      (get_str_attr (codes "publisher_actor_type") publication)
      (get_str_attr (codes "publisher_instance_id") publication) a

abbrev pub requested : Clock → Option CodeIdentifier → Map → CodeStoreActor → Outcome
requested clock none publication a = none
requested clock (some identifier) publication a =
    found_code clock identifier (retrieve a.node_id identifier false a.store).0 publication a

-- `receive_code_fetch_request`
unfoldable pub receive_code_fetch_request : Clock → Map → CodeStoreActor → Outcome
unfolding retrieve debounce response_message
receive_code_fetch_request clock publication a =
    if not (
      has_attr (codes "fetch_actor_type") publication
      && (has_attr (codes "fetch_actor_version") publication
          && has_attr (codes "fetch_actor_runtime_type") publication))
    then some ([], a)
    else requested clock (fetched_code publication) publication a

abbrev pub cached : Option CodeIdentifier → Option Text → CodeStoreActor → Outcome
cached (some identifier) (some code) a =
    some ([], record a { store = insert_or_refresh identifier 1 (some code) a.store })
cached (some identifier) none a = none
cached none code a = none

-- `receive_code_fetch_response`; 1 is `MAGIC_LIFETIME_VALUE_CACHE_OR_EXISTING`.
unfoldable pub receive_code_fetch_response : Map → CodeStoreActor → Outcome
unfolding insert_or_refresh
receive_code_fetch_response publication a =
    if not (
      has_attr (codes "fetch_actor_type") publication
      && (has_attr (codes "fetch_actor_version") publication
          && (has_attr (codes "fetch_actor_code") publication
              && has_attr (codes "fetch_actor_runtime_type") publication)))
    then some ([], a)
    else cached (fetched_code publication) (get_str_attr (codes "fetch_actor_code") publication) a

-- The loop of `cleanup`: each entry is compared with a reading of the clock of its own.
unfoldable pub drop_over : (ℕ → ℕ) → ℕ → List (CodeIdentifier × ℕ) → List (CodeIdentifier × ℕ)
drop_over clock n [] = []
drop_over clock n ((identifier, deadline) ∷ rest) =
    let later = drop_over clock (n + 1) rest in
    if ltb deadline (clock n) then later else (identifier, deadline) ∷ later

-- The filters of the code fetch subscription, for requests of this node or of every node.
abbrev pub equals : Text → Text → Constraint
equals name value = constraint name (text value eq) false

abbrev pub not_missed_here : Text → Constraint
not_missed_here node_id = constraint (codes "last_cache_miss_node_id") (text node_id ne) true

unfoldable pub local_requests : Text → Filter
unfolding make_filter
local_requests node_id = make_filter (
    equals (codes "type") (codes "code_fetch_request")
    ∷ (equals (codes "publisher_node_id") node_id ∷ (not_missed_here node_id ∷ [])))

unfoldable pub all_requests : Text → Filter
unfolding make_filter
all_requests node_id =
    make_filter
      (equals (codes "type") (codes "code_fetch_request") ∷ (not_missed_here node_id ∷ []))

unfoldable pub first_priority : SubscriptionArguments
unfolding default_arguments
first_priority = record default_arguments { priority = 1 }

-- A subscription with another filter in place of the old one.
abbrev pub resubscribe :
    Filter → CodeStoreActor → (CodeStoreActor → Program CodeStoreActor) → Program CodeStoreActor
resubscribe f a next = then_unsubscribe a.code_fetch_subscription_id (
    then_subscribe f first_priority
      (λ sub_id. next (record a { code_fetch_subscription_id = sub_id })))

abbrev pub command : Option Text → CodeStoreActor → Option (Program CodeStoreActor)
command none a = none
command (some name) a = some (
    if name == codes "enable"
    then resubscribe (all_requests a.node_id) a (λ a'. return a')
    else if name == codes "disable"
    then resubscribe (local_requests a.node_id) a (λ a'. return a')
    else return a)

-- `receive_remote_fetch_control_command`
unfoldable pub receive_remote_fetch_control_command :
    Map → CodeStoreActor → Option (Program CodeStoreActor)
unfolding all_requests local_requests first_priority
receive_remote_fetch_control_command publication a =
    if not (has_attr (codes "command") publication)
    then some (return a)
    else command (get_str_attr (codes "command") publication) a

-- The subscriptions of an `init` message, and the first wake-up.
abbrev pub of_this_node : Text → Text → Filter
of_this_node kind node_id =
    make_filter (equals (codes "publisher_node_id") node_id ∷ (equals (codes "type") kind ∷ []))

abbrev pub typed_first : Text → Text → Filter
typed_first kind node_id =
    make_filter (equals (codes "type") kind ∷ (equals (codes "publisher_node_id") node_id ∷ []))

unfoldable pub initialize : CodeStoreActor → Program CodeStoreActor
unfolding make_filter local_requests first_priority
initialize a = then_subscribe (of_this_node (codes "actor_code") a.node_id) default_arguments (λ s1.
    then_subscribe (of_this_node (codes "actor_code_lifetime_update") a.node_id) default_arguments
      (λ s2. then_subscribe (local_requests a.node_id) first_priority (λ s3.
        then_subscribe (typed_first (codes "code_unavailable") a.node_id) default_arguments (λ s4.
          then_subscribe (typed_first (codes "remote_fetch_control_command") a.node_id)
            default_arguments
            (λ s5.
              then_enqueue_wakeup 30000 (codes "periodic_cleanup")
                (return (record a { code_fetch_subscription_id = s3 })))))))

abbrev publish_all : List Map → Program CodeStoreActor → Program CodeStoreActor
publish_all [] next = next
publish_all (p ∷ ps) next = then_publish p (publish_all ps next)

abbrev outcome_program : Outcome → Option (Program CodeStoreActor)
outcome_program none = none
outcome_program (some (ps, a)) = some (publish_all ps (return a))

-- `cleanup`; the store reads the clock once more.
unfoldable pub cleanup : (ℕ → ℕ) → ℕ → CodeStoreActor → CodeStoreActor
unfolding drop_over u_actor.CodeStore.cleanup
cleanup clock now a = record a {
  code_miss_debounce = drop_over clock 0 a.code_miss_debounce;
  store = u_actor.CodeStore.cleanup now a.store;
}

-- `receive`
unfoldable pub receive :
    Clock → (ℕ → ℕ) → ℕ → Map → CodeStoreActor → Option (Program CodeStoreActor)
unfolding initialize cleanup receive_code_store receive_lifetime_update
    receive_code_unavailable_notification receive_code_fetch_request receive_code_fetch_response
    receive_remote_fetch_control_command has_type
receive clock readings now publication a =
    if has_type (codes "init") publication
    then some (initialize a)
    else if has_type (codes "wakeup") publication
        && is_text (get_str_attr (codes "wakeup_id") publication) (codes "periodic_cleanup")
    then some
        (then_enqueue_wakeup 30000 (codes "periodic_cleanup") (return (cleanup readings now a)))
    else if has_type (codes "actor_code") publication
    then outcome_program (receive_code_store publication a)
    else if has_type (codes "actor_code_lifetime_update") publication
    then outcome_program (receive_lifetime_update publication a)
    else if has_type (codes "code_unavailable") publication
    then outcome_program (receive_code_unavailable_notification clock publication a)
    else if has_type (codes "code_fetch_request") publication
    then outcome_program (receive_code_fetch_request clock publication a)
    else if has_type (codes "code_fetch_response") publication
    then outcome_program (receive_code_fetch_response publication a)
    else if has_type (codes "remote_fetch_control_command") publication
    then receive_remote_fetch_control_command publication a
    else some (return a)
