-- ===== src/Arguments.antt =====
-- Scope, priority and fetch policy of a subscription: uActor/src/pubsub/subscription_arguments.cpp
-- and uActor/include/pubsub/subscription_arguments.hpp.
use u_actor.Prelude.{
  ℕ, ◌-◌, ◌^◌, ◌<◌, ◌≡◌, refl, Text, ℤ, pos, negsuc, Bool, true, ◌&&◌, Option, some, ◌==◌, text_eq,
  text_beq, nat_eq, if◌then◌else◌, ltb, codes, arith, ◌↔◌,
}
use u_actor.Publication.{Value, str, int, Map, empty, get_attr, set_attr}

pub data Scope : Type 0 where
  no_scope local cluster global : Scope

pub data FetchPolicy : Type 0 where
  no_policy fetch fetch_future future : FetchPolicy

pub record SubscriptionArguments : Type 0 where
  pub scope : Scope
  pub priority : ℕ
  pub fetch_policy : FetchPolicy

-- The default member initialisers.
unfoldable pub default_arguments : SubscriptionArguments
default_arguments = record { scope = cluster; priority = 0; fetch_policy = future }

-- The values of the two enumerations.
abbrev scope_number : Scope → ℕ
scope_number no_scope = 0
scope_number local = 1
scope_number cluster = 2
scope_number global = 3

abbrev policy_number : FetchPolicy → ℕ
policy_number no_policy = 0
policy_number fetch = 1
policy_number fetch_future = 2
policy_number future = 3

unfoldable pub policy_beq : FetchPolicy → FetchPolicy → Bool
policy_beq a b = policy_number a == policy_number b

unfoldable pub scope_beq : Scope → Scope → Bool
scope_beq a b = scope_number a == scope_number b

-- `operator==`
unfoldable pub arguments_beq : SubscriptionArguments → SubscriptionArguments → Bool
unfolding scope_beq policy_beq
arguments_beq a other =
    scope_beq other.scope a.scope
    && ((other.priority == a.priority) && policy_beq other.fetch_policy a.fetch_policy)

-- `static_cast<int32_t>` of a `uint32_t`, and back.
unfoldable pub to_int32 : ℕ → ℤ
to_int32 n = if ltb n (2 ^ 31) then pos n else negsuc (2 ^ 32 - 1 - n)

unfoldable pub to_uint32 : ℤ → ℕ
to_uint32 (pos n) = n
to_uint32 (negsuc n) = 2 ^ 32 - 1 - n

unfoldable pub string_from_scope : Scope → Text
string_from_scope local = codes "LOCAL"
string_from_scope cluster = codes "CLUSTER"
string_from_scope global = codes "GLOBAL"
string_from_scope no_scope = codes "NONE"

unfoldable pub string_from_fetch_policy : FetchPolicy → Text
string_from_fetch_policy fetch = codes "FETCH"
string_from_fetch_policy fetch_future = codes "FETCH_FUTURE"
string_from_fetch_policy future = codes "FUTURE"
string_from_fetch_policy no_policy = codes "NONE"

unfoldable pub scope_from_string : Text → Scope
scope_from_string s =
    if s == codes "LOCAL"
    then local
    else if s == codes "CLUSTER"
    then cluster
    else if s == codes "GLOBAL"
    then global
    else no_scope

unfoldable pub fetch_policy_from_string : Text → FetchPolicy
fetch_policy_from_string s =
    if s == codes "FETCH"
    then fetch
    else if s == codes "FETCH_FUTURE"
    then fetch_future
    else if s == codes "FUTURE"
    then future
    else no_policy

-- `to_map`
unfoldable pub to_map : SubscriptionArguments → Map
unfolding to_int32 string_from_scope string_from_fetch_policy set_attr
to_map a = set_attr (codes "scope") (str (string_from_scope a.scope)) (
    set_attr (codes "fetch_policy") (str (string_from_fetch_policy a.fetch_policy))
      (set_attr (codes "priority") (int (to_int32 a.priority)) empty))

read_priority : Option Value → ℕ
read_priority (some (int n)) = to_uint32 n
read_priority _ = 0

read_policy : Option Value → FetchPolicy
read_policy (some (str s)) = fetch_policy_from_string s
read_policy _ = future

read_scope : Option Value → Scope
read_scope (some (str s)) = scope_from_string s
read_scope _ = cluster

-- `from_map`: an attribute that is missing or of another type leaves the default.
unfoldable pub from_map : Map → SubscriptionArguments
unfolding read_priority read_policy read_scope to_uint32 fetch_policy_from_string scope_from_string
from_map m = record {
  scope = read_scope (get_attr (codes "scope") m);
  priority = read_priority (get_attr (codes "priority") m);
  fetch_policy = read_policy (get_attr (codes "fetch_policy") m);
}

scope-round_trip : (s : Scope) → scope_from_string (string_from_scope s) ≡ s
unfolding scope_from_string string_from_scope text_beq
scope-round_trip no_scope = refl
scope-round_trip local = refl
scope-round_trip cluster = refl
scope-round_trip global = refl

policy-round_trip : (s : FetchPolicy) → fetch_policy_from_string (string_from_fetch_policy s) ≡ s
unfolding fetch_policy_from_string string_from_fetch_policy text_beq
policy-round_trip no_policy = refl
policy-round_trip fetch = refl
policy-round_trip fetch_future = refl
policy-round_trip future = refl

priority-round_trip : (n : ℕ) → n < 2 ^ 32 → to_uint32 (to_int32 n) ≡ n
unfolding to_uint32 to_int32
priority-round_trip n h = ground arith

-- Subscription arguments survive the trip through a publication map: what is read from the map that
-- they were written to has the same scope, priority and fetch policy, for a priority of 32 bits.
pub from_map-to_map : (a : SubscriptionArguments) → a.priority < 2 ^ 32 → from_map (to_map a) ≡ a
unfolding from_map to_map get_attr text_beq
from_map-to_map a h = λ i. record {
  scope = scope-round_trip a.scope i;
  priority = priority-round_trip a.priority h i;
  fetch_policy = policy-round_trip a.fetch_policy i;
}

scope_beq_iff : (a b : Scope) → (scope_beq a b ≡ true) ↔ (a ≡ b)
unfolding scope_beq
scope_beq_iff a b = ground arith

policy_beq_iff : (a b : FetchPolicy) → (policy_beq a b ≡ true) ↔ (a ≡ b)
unfolding policy_beq
policy_beq_iff a b = ground arith

-- `operator==` decides equality of subscription arguments.
pub arguments_beq_iff : (a b : SubscriptionArguments) → (arguments_beq a b ≡ true) ↔ (a ≡ b)
unfolding arguments_beq
arguments_beq_iff a b =
    ground (arith, scope_beq_iff b.scope a.scope, policy_beq_iff b.fetch_policy a.fetch_policy)
