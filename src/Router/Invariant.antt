-- ===== src/Router/Invariant.antt =====
-- What holds of the router between two calls.
use u_actor.Prelude.{
  ℕ, ◌≤◌, ◌≡◌, refl, Text, ℤ, Bool, true, false, none, some, ◌==◌, nat_eq, text_eq, length, count,
}
use u_actor.Prelude.Assoc.{lookup, Unique}
use u_actor.Constraint.{Constraint}
use u_actor.Subscription.{Subscription, member}
use u_actor.Router.{Router, new_router}
use u_actor.Router.Matching.Counting.{weigh_all, AreIndexes}

-- The index holds the constraints of the filters: whatever the test, the items whose constraint
-- passes it have as many pairs of a subscription as its filter has constraints that pass it, apart
-- for the required and the optional ones; and they have no pair of a subscription that is gone.
pub record IsRouted (r : Router) : Type 0 where
  pub indexes : AreIndexes r.constraints
  pub distinct : Unique r.constraints
  pub required_counted :
      (id : ℕ) (sub : Subscription) (q : Constraint → Bool)
      → lookup id r.subscriptions ≡ some sub
      → weigh_all q id false r.constraints ≡ count q sub.filter.required
  pub optional_counted :
      (id : ℕ) (sub : Subscription) (q : Constraint → Bool)
      → lookup id r.subscriptions ≡ some sub
      → weigh_all q id true r.constraints ≡ count q sub.filter.optional
  pub unrequired :
      (id : ℕ) (sub : Subscription)
      → lookup id r.subscriptions ≡ some sub
      → member id r.no_requirements ≡ (length sub.filter.required == 0)
  pub no_dangling :
      (id : ℕ) (opt : Bool)
      → lookup id r.subscriptions ≡ none
      → weigh_all (λ _. true) id opt r.constraints ≡ 0
  pub no_dangling_requirement :
      (id : ℕ) → lookup id r.subscriptions ≡ none → member id r.no_requirements ≡ false
  pub named :
      (id : ℕ) (sub : Subscription)
      → lookup id r.subscriptions ≡ some sub
      → sub.subscription_id ≡ id
  pub fresh : (id : ℕ) → r.next_sub_id ≤ id → lookup id r.subscriptions ≡ none

-- A new router satisfies the invariant.
pub new_router-IsRouted : (node_id : Text) (epoch : ℤ) → IsRouted (new_router node_id epoch)
unfolding new_router lookup
new_router-IsRouted node_id epoch = record {
  indexes = tt;
  distinct = tt;
  required_counted = λ id sub q h. cc h;
  optional_counted = λ id sub q h. cc h;
  unrequired = λ id sub h. cc h;
  no_dangling = λ id opt h. refl;
  no_dangling_requirement = λ id h. refl;
  named = λ id sub h. cc h;
  fresh = λ id h. refl;
}
