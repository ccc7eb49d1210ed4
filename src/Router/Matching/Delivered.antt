-- ===== src/Router/Matching/Delivered.antt =====
-- Who gets a published message.
use u_actor.Prelude.{
  ℕ, ◌≤◌, ◌≡◌, Bool, true, not, ◌&&◌, some, List, [], ◌∷◌, nat_eq, text_eq, In, Bool-cases, inl,
  inr, codes,
}
use u_actor.Prelude.Assoc.{lookup}
use u_actor.Publication.{Map, int, set_attr, has_attr, get_str_attr}
use u_actor.Publication
use u_actor.Publication.Laws.{set_attr-Unique}
use u_actor.Subscription.{Subscription, NodeList}
use u_actor.Router.{Router, Delivery, stamp, is_text}
use u_actor.Arguments.{to_int32}
use u_actor.Router.Invariant.{IsRouted}
use u_actor.Router.Matching.Selected.{routed}
use u_actor.Router.Matching.Priority.{priority_of, IsByte}
use u_actor.Router.Matching.Listed.{listed_subscriptions}

-- To whom, and for which subscription, messages were handed out.
abbrev pub targets : List Delivery → List (ℕ × ℕ)
targets [] = []
targets (d ∷ ds) = (d.receiver, d.subscription_id) ∷ targets ds

abbrev pub HasReceiver : ℕ → Subscription → Type 0
HasReceiver receiver sub = (ns : NodeList) × In (receiver, ns) sub.receivers

-- `current_priority` holds every priority.
abbrev pub HasBytePriorities : Router → Type 0
HasBytePriorities r =
    (id : ℕ) (sub : Subscription) → lookup id r.subscriptions ≡ some sub → IsByte sub

-- No other subscription that matches has a higher priority.
abbrev pub IsHighest : Router → Map → Subscription → Type 0
IsHighest r p sub =
    (id : ℕ) (other : Subscription)
    → lookup id r.subscriptions ≡ some other
    → routed other.filter p ≡ true
    → priority_of other ≤ priority_of sub

abbrev pub IsServed : Router → Map → ℕ → ℕ → Type 0
IsServed r p receiver id =
    (sub : Subscription) × (lookup id r.subscriptions ≡ some sub)
    × HasReceiver receiver sub
    × (routed sub.filter p ≡ true)
    × IsHighest r p sub

module _ (r : Router) (w : IsRouted r) (bytes : HasBytePriorities r) (p : Map)
    (d : Publication.Unique p) where
  subs : List Subscription
  subs = listed_subscriptions r p

abbrev own : Router → Map → Bool
own r p =
    is_text (get_str_attr (codes "publisher_node_id") p) r.node_id
    && not (has_attr (codes "_internal_sequence_number") p)

pub stamp-Unique : (r : Router) (p : Map) → Publication.Unique p → Publication.Unique (stamp r p).1
unfolding stamp
stamp-Unique r p d = elim (Bool-cases (own r p)) [
  | inl e ↦
      rw (e, stamp)
        (set_attr-Unique (codes "_internal_epoch") (int r.epoch) _ (
          set_attr-Unique (codes "_internal_sequence_number") (int (to_int32 r.sequence_number)) p
            d))
  | inr e ↦ rw (e, stamp) d
]
