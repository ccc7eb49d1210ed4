-- ===== src/Examples/Routing.antt =====
-- The theorems about the router, the index and filters at concrete inputs.
use u_actor.Prelude.{
  text_beq, ℕ, ◌≡◌, ◌+◌, refl, Text, pos, Bool, true, false, [], ◌∷◌, ◌==◌, nat_eq, codes, ◌&&◌,
}
use u_actor.Publication.{Map, empty, entry, str}
use u_actor.Constraint.Predicates.{eq, predicate_beq}
use u_actor.Constraint.{Constraint, constraint, text, operand, is_equal_to}
use u_actor.Filter.{Filter, InternalFilter, matches, internal_matches, to_filter}
use u_actor.Filter.Agreement.{without_maps, internal_matches-matches}
use u_actor.Arguments.{SubscriptionArguments, local, future}
use u_actor.Index.{
  ConstraintIndex, key_of, string_operand, of_str, accepts, check, insert_constraint,
}
use u_actor.Index.Tally.{tally, weigh_index, tally-check, flag_beq}
use u_actor.Index.Insertion.{IsIndexOf, insert_constraint-IsIndexOf, weigh-insert_constraint, share}
use u_actor.Subscription.{Subscription}
use u_actor.Router.{Router, new_router}
use u_actor.Router.Invariant.{IsRouted, new_router-IsRouted}
use u_actor.Router.Change.{register}
use u_actor.Router.Change.Adding.{IsDistinct, register-IsRouted}

abbrev node : Text
node = codes "n1"

abbrev on_ping : Constraint
on_ping = constraint (codes "type") (text (codes "ping") eq) false

abbrev ping_filter : Filter
ping_filter = record { required_constraints = on_ping ∷ []; optional_constraints = [] }

abbrev second_class : SubscriptionArguments
second_class = record { scope = local; priority = 2; fetch_policy = future }

abbrev start : Router
start = new_router node (pos 1)

abbrev one_subscriber : Router
one_subscriber = register ping_filter 5 1 second_class start

abbrev ping : Map
ping = entry (codes "type") (str (codes "ping")) empty

ping_filter-IsDistinct : IsDistinct ping_filter
ping_filter-IsDistinct = record {
  plain_required = (refl, tt);
  plain_optional = tt;
  distinct_required = (tt, tt);
  distinct_optional = tt;
  apart = tt;
}

register-IsRouted_example : IsRouted one_subscriber
register-IsRouted_example =
    register-IsRouted ping_filter 5 1 second_class start (new_router-IsRouted node (pos 1))
      ping_filter-IsDistinct

abbrev ping_index : ConstraintIndex
ping_index = record {
  string_equal =
      record { stored_constraint = on_ping; relevant_subscriptions = (7, false) ∷ (8, true) ∷ [] }
      ∷ [];
  index = [];
}

ping_index-IsIndexOf : IsIndexOf (codes "type") ping_index
unfolding string_operand key_of predicate_beq
ping_index-IsIndexOf = record {
  ordered = record { string_items = (refl, tt); sorted = (tt, tt) };
  string_on = (refl, tt);
  index_on = tt;
}

tally-check_example :
    tally 7 false (check (of_str (codes "ping")) ping_index [])
    ≡ tally 7 false []
      + weigh_index (λ c. accepts (operand c) (of_str (codes "ping"))) 7 false ping_index
tally-check_example =
    tally-check (of_str (codes "ping")) ping_index 7 false [] ping_index-IsIndexOf.ordered

abbrev nine : ℕ
nine = 9

abbrev on_pong : Constraint
on_pong = constraint (codes "type") (text (codes "pong") eq) false

insert_constraint-IsIndexOf_example :
    IsIndexOf (codes "type") (insert_constraint on_pong nine false ping_index).0
insert_constraint-IsIndexOf_example =
    insert_constraint-IsIndexOf (codes "type") on_pong nine false ping_index refl
      ping_index-IsIndexOf

abbrev on_pong_value : Constraint → Bool
on_pong_value c = accepts (operand c) (of_str (codes "pong"))

weigh-insert_constraint_example :
    weigh_index
      (λ c. accepts (operand c) (of_str (codes "pong")))
      nine
      false
      (insert_constraint on_pong nine false ping_index).0
    ≡ weigh_index (λ c. accepts (operand c) (of_str (codes "pong"))) nine false ping_index
      + share
          (accepts
            (operand (insert_constraint on_pong nine false ping_index).1)
            (of_str (codes "pong")))
          ((nine == nine) && flag_beq false false)
unfolding is_equal_to text_beq
weigh-insert_constraint_example =
    weigh-insert_constraint (codes "type") on_pong nine false ping_index refl ping_index-IsIndexOf
      (λ c. accepts (operand c) (of_str (codes "pong"))) nine false refl refl

abbrev ping_internal : InternalFilter
ping_internal = record { required = on_ping ∷ []; optional = []; initialized = true }

internal_matches-matches_example :
    internal_matches ping_internal ping
    ≡ matches
        (to_filter (record ping_internal {
          required = without_maps ping (on_ping ∷ []);
          optional = without_maps ping [];
        }))
        ping
internal_matches-matches_example = internal_matches-matches ping_internal ping
