-- ===== src/Router/Matching/Listing.antt =====
-- The subscriptions that the loops consider are those whose filter asks for the publication.
use u_actor.Prelude.{
  ℕ, ◌≡◌, refl, sym, ap, ◌∙◌, Bool, true, Option, none, some, List, [], ◌∷◌, ◌==◌, nat_eq,
  nat_beq_iff, text_eq, In, In-append_left, In-append_right, In-append_cases, Bool-cases,
  Option-cases, inl, inr, arith, &&_parts,
}
use u_actor.Prelude.Assoc.{lookup, In-lookup, lookup-In}
use u_actor.Publication.{Map, is_some, entries}
use u_actor.Publication
use u_actor.Filter.{internal_check_optionals}
use u_actor.Index.{Counter, SubscriptionCounter}
use u_actor.Subscription.{Subscription, member}
use u_actor.Router.{Router, counts_match}
use u_actor.Router.Matching.Selected.{chosen, routed, chosen-routed}
use u_actor.Router.Matching.Listed.{
  listed, uncounted, counted, remaining, counter_of, listed_subscriptions, counter_of-Unique,
}
use u_actor.Router.Invariant.{IsRouted}

In-listed :
    (sub : Subscription) (o : Option Subscription) (test : Subscription → Bool)
    → In sub (listed o test)
    → (o ≡ some sub) × (test sub ≡ true)
In-listed sub none test h = absurd h
In-listed sub (some found) test h = elim (Bool-cases (test found)) [
  | inl e ↦ elim (rw e at h) [
    | inl same ↦ (ap some (sym same), ap test same ∙ e)
    | inr no_more ↦ absurd no_more
  ]
  | inr e ↦ absurd (rw e at h)
]

listed-In :
    (sub : Subscription) (o : Option Subscription) (test : Subscription → Bool)
    → o ≡ some sub
    → test sub ≡ true
    → In sub (listed o test)
listed-In sub o test e h = rw e (rw h (inl refl))

In-counted :
    (subs : List (ℕ × Subscription)) (p : Map) (sub : Subscription) (counter : Counter)
    → In sub (counted subs p counter)
    → (id : ℕ) × (counts : SubscriptionCounter) × In (id, counts) counter
      × (lookup id subs ≡ some sub)
      × (counts_match sub counts p ≡ true)
unfolding counted
In-counted subs p sub [] h = absurd h
In-counted subs p sub ((id, counts) ∷ rest) h =
    elim (In-append_cases sub (listed (lookup id subs) (λ s. counts_match s counts p))
      (counted subs p rest) h) [
        | inl here ↦
            let (e, m) = In-listed sub (lookup id subs) (λ s. counts_match s counts p) here in
            (id, counts, inl refl, e, m)
        | inr later ↦
            let (i, c, there, e, m) = In-counted subs p sub rest later in (i, c, inr there, e, m)
      ]

counted-In :
    (subs : List (ℕ × Subscription)) (p : Map) (sub : Subscription) (counter : Counter) (id : ℕ)
    (counts : SubscriptionCounter)
    → In (id, counts) counter
    → lookup id subs ≡ some sub
    → counts_match sub counts p ≡ true
    → In sub (counted subs p counter)
unfolding counted
counted-In subs p sub [] id counts h e m = absurd h
counted-In subs p sub ((i, c) ∷ rest) id counts (inl h) e m =
    In-append_left sub (listed (lookup i subs) (λ s. counts_match s c p)) (counted subs p rest) (
      listed-In sub (lookup i subs) (λ s. counts_match s c p)
        (ap (λ t. lookup t subs) (sym (ap (λ t. t.0) h)) ∙ e)
        (ap (λ t. counts_match sub t p) (sym (ap (λ t. t.1) h)) ∙ m))
counted-In subs p sub ((i, c) ∷ rest) id counts (inr h) e m =
    In-append_right sub (listed (lookup i subs) (λ s. counts_match s c p)) (counted subs p rest)
      (counted-In subs p sub rest id counts h e m)

In-remaining :
    (subs : List (ℕ × Subscription)) (p : Map) (counter : Counter) (sub : Subscription)
    (ids : List ℕ)
    → In sub (remaining subs p counter ids)
    → (id : ℕ) × (member id ids ≡ true)
      × (lookup id subs ≡ some sub)
      × (uncounted p (is_some (lookup id counter)) sub ≡ true)
unfolding remaining
In-remaining subs p counter sub [] h = absurd h
In-remaining subs p counter sub (id ∷ rest) h =
    elim (In-append_cases sub (listed (lookup id subs) (uncounted p (is_some (lookup id counter))))
      (remaining subs p counter rest) h) [
        | inl here ↦
            let (e, m) =
              In-listed sub (lookup id subs) (uncounted p (is_some (lookup id counter))) here in
            (id, rw ((nat_beq_iff id id).1 refl) refl, e, m)
        | inr later ↦
            let (i, there, e, m) = In-remaining subs p counter sub rest later in
            (i, ground (arith, there), e, m)
      ]

remaining-In :
    (subs : List (ℕ × Subscription)) (p : Map) (counter : Counter) (sub : Subscription)
    (ids : List ℕ) (id : ℕ)
    → member id ids ≡ true
    → lookup id subs ≡ some sub
    → uncounted p (is_some (lookup id counter)) sub ≡ true
    → In sub (remaining subs p counter ids)
unfolding remaining
remaining-In subs p counter sub [] id h e m = cc
remaining-In subs p counter sub (i ∷ rest) id h e m = elim (Bool-cases (i == id)) [
  | inl same ↦
      In-append_left sub (listed (lookup i subs) (uncounted p (is_some (lookup i counter))))
        (remaining subs p counter rest)
        (listed-In sub (lookup i subs) (uncounted p (is_some (lookup i counter)))
          (ap (λ t. lookup t subs) ((nat_beq_iff i id).0 same) ∙ e)
          (ap (λ t. uncounted p (is_some (lookup t counter)) sub) ((nat_beq_iff i id).0 same) ∙ m))
  | inr other ↦
      In-append_right sub (listed (lookup i subs) (uncounted p (is_some (lookup i counter))))
        (remaining subs p counter rest)
        (remaining-In subs p counter sub rest id (rw other at h) e m)
]

module _ (r : Router) (w : IsRouted r) (p : Map) (d : Publication.Unique p)
    (sub : Subscription) where
  chosen_is :
      (id : ℕ)
      → lookup id r.subscriptions ≡ some sub
      → chosen sub (lookup id (counter_of r p)) (member id r.no_requirements) p
        ≡ routed sub.filter p
  unfolding counter_of
  chosen_is id there = chosen-routed r w p d id sub there

  -- A subscription is considered exactly when it is there and its filter asks for the publication.
  pub In-listed_subscriptions :
      In sub (listed_subscriptions r p)
      → (id : ℕ) × (lookup id r.subscriptions ≡ some sub) × (routed sub.filter p ≡ true)
  unfolding listed_subscriptions
  In-listed_subscriptions h =
      elim (In-append_cases sub (counted r.subscriptions p (counter_of r p))
        (remaining r.subscriptions p (counter_of r p) r.no_requirements) h) [
          | inl by_count ↦
              let (id, counts, there, e, m) =
                In-counted r.subscriptions p sub (counter_of r p) by_count in
              (
                id,
                e,
                sym (chosen_is id e)
                    ∙ ap (λ o. chosen sub o (member id r.no_requirements) p)
                        (lookup-In id counts (counter_of r p) (counter_of-Unique r p) there)
                    ∙ (unfold chosen in m),
              )
          | inr left ↦
              let (id, there, e, m) =
                In-remaining r.subscriptions p (counter_of r p) sub r.no_requirements left in
              (
                id,
                e,
                sym (chosen_is id e)
                    ∙ uncounted-chosen (lookup id (counter_of r p)) (member id r.no_requirements)
                        there m,
              )
        ]
    where
      uncounted-chosen :
          (o : Option SubscriptionCounter) (unrequired : Bool)
          → unrequired ≡ true
          → uncounted p (is_some o) sub ≡ true
          → chosen sub o unrequired p ≡ true
      uncounted-chosen none unrequired u m = unfold chosen in rw u m
      uncounted-chosen (some counts) unrequired u m = cc

  pub listed_subscriptions-In :
      (id : ℕ)
      → lookup id r.subscriptions ≡ some sub
      → routed sub.filter p ≡ true
      → In sub (listed_subscriptions r p)
  unfolding listed_subscriptions
  listed_subscriptions-In id e m = elim (Option-cases (lookup id (counter_of r p))) [
    | inl absent ↦
        let both =
          &&_parts (member id r.no_requirements) (internal_check_optionals sub.filter.optional p) (
            unfold chosen in
            (ap (λ o. chosen sub o (member id r.no_requirements) p) (sym absent)
              ∙ chosen_is id e
              ∙ m)) in
        In-append_right sub (counted r.subscriptions p (counter_of r p))
          (remaining r.subscriptions p (counter_of r p) r.no_requirements)
          (remaining-In r.subscriptions p (counter_of r p) sub r.no_requirements id both.0 e
            (rw absent both.1))
    | inr (counts, present) ↦
        In-append_left sub (counted r.subscriptions p (counter_of r p))
          (remaining r.subscriptions p (counter_of r p) r.no_requirements)
          (counted-In r.subscriptions p sub (counter_of r p) id counts
            (In-lookup id counts (counter_of r p) present) e
            (unfold chosen in
              (ap (λ o. chosen sub o (member id r.no_requirements) p) (sym present)
                ∙ chosen_is id e
                ∙ m)))
  ]
