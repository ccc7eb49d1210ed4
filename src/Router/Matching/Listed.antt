-- ===== src/Router/Matching/Listed.antt =====
-- The two loops of `publish_internal` as one list of subscriptions, and which subscriptions it has.
use u_actor.Prelude.{
  ℕ, ◌≡◌, refl, sym, ap, ◌∙◌, Bool, true, false, not, ◌&&◌, Option, none, some, List, [], ◌∷◌, ◌++◌,
  nat_eq, text_eq, if◌then◌else◌, Bool-cases, inl, inr, arith, Text,
}
use u_actor.Prelude.Assoc.{lookup, Unique, insert-Unique}
use u_actor.Publication.{Value, Map, entries, is_some}
use u_actor.Filter.{internal_check_optionals}
use u_actor.Index.{
  Counter, SubscriptionCounter, ConstraintItem, ConstraintIndex, Probe, of_str, of_int, of_float,
  of_map, bump, bump_all, check_string, check_fallback, check, accepts,
}
use u_actor.Constraint.{operand}
use u_actor.Subscription.{Subscription}
use u_actor.Router.{
  Router, Selection, counts_match, consider_counted, select_counted, consider_remaining,
  select_remaining, select, count_attribute, count_matches, probe, no_selection,
}
use u_actor.Router.Matching.Priority.{consider_all, consider_all-append}

-- The subscription, if it is there and passes.
abbrev pub listed : Option Subscription → (Subscription → Bool) → List Subscription
listed none test = []
listed (some sub) test = if test sub then sub ∷ [] else []

unfoldable pub counted : List (ℕ × Subscription) → Map → Counter → List Subscription
counted subs p [] = []
counted subs p ((id, counts) ∷ rest) =
    listed (lookup id subs) (λ sub. counts_match sub counts p) ++ counted subs p rest

abbrev pub uncounted : Map → Bool → Subscription → Bool
uncounted p seen sub = not seen && internal_check_optionals sub.filter.optional p

unfoldable pub remaining : List (ℕ × Subscription) → Map → Counter → List ℕ → List Subscription
remaining subs p counter [] = []
remaining subs p counter (id ∷ rest) =
    listed (lookup id subs) (uncounted p (is_some (lookup id counter)))
    ++ remaining subs p counter rest

consider_counted-listed :
    (o : Option Subscription) (counts : SubscriptionCounter) (p : Map) (sel : Selection)
    → consider_counted o counts p sel
      ≡ consider_all (listed o (λ sub. counts_match sub counts p)) sel
unfolding consider_counted consider_all
consider_counted-listed none counts p sel = refl
consider_counted-listed (some sub) counts p sel = elim (Bool-cases (counts_match sub counts p)) [
  | inl e ↦ rw e refl
  | inr e ↦ rw e refl
]

select_counted-counted :
    (subs : List (ℕ × Subscription)) (p : Map) (counter : Counter) (sel : Selection)
    → select_counted subs p counter sel ≡ consider_all (counted subs p counter) sel
unfolding select_counted counted
select_counted-counted subs p [] sel = unfold consider_all in refl
select_counted-counted subs p ((id, counts) ∷ rest) sel =
    select_counted-counted subs p rest (consider_counted (lookup id subs) counts p sel)
    ∙ ap (consider_all (counted subs p rest))
        (consider_counted-listed (lookup id subs) counts p sel)
    ∙ sym (
        consider_all-append (listed (lookup id subs) (λ sub. counts_match sub counts p))
          (counted subs p rest) sel)

consider_remaining-listed :
    (o : Option Subscription) (seen : Bool) (p : Map) (sel : Selection)
    → consider_remaining o seen p sel ≡ consider_all (listed o (uncounted p seen)) sel
unfolding consider_remaining consider_all
consider_remaining-listed none seen p sel = refl
consider_remaining-listed (some sub) true p sel = refl
consider_remaining-listed (some sub) false p sel =
    elim (Bool-cases (internal_check_optionals sub.filter.optional p)) [
      | inl e ↦ rw e refl
      | inr e ↦ rw e refl
    ]

select_remaining-remaining :
    (subs : List (ℕ × Subscription)) (p : Map) (counter : Counter) (ids : List ℕ) (sel : Selection)
    → select_remaining subs p counter ids sel ≡ consider_all (remaining subs p counter ids) sel
unfolding select_remaining remaining
select_remaining-remaining subs p counter [] sel = unfold consider_all in refl
select_remaining-remaining subs p counter (id ∷ rest) sel =
    select_remaining-remaining subs p counter rest
      (consider_remaining (lookup id subs) (is_some (lookup id counter)) p sel)
    ∙ ap (consider_all (remaining subs p counter rest))
        (consider_remaining-listed (lookup id subs) (is_some (lookup id counter)) p sel)
    ∙ sym (
        consider_all-append (listed (lookup id subs) (uncounted p (is_some (lookup id counter))))
          (remaining subs p counter rest) sel)

unfoldable pub counter_of : Router → Map → Counter
counter_of r p = count_matches r.constraints (entries p) []

-- The subscriptions that the loops pass to `consider`, in order.
unfoldable pub listed_subscriptions : Router → Map → List Subscription
listed_subscriptions r p =
    counted r.subscriptions p (counter_of r p)
    ++ remaining r.subscriptions p (counter_of r p) r.no_requirements

pub select-listed :
    (r : Router) (p : Map) → select r p ≡ consider_all (listed_subscriptions r p) no_selection
unfolding select listed_subscriptions counter_of
select-listed r p =
    select_remaining-remaining r.subscriptions p counter r.no_requirements
      (select_counted r.subscriptions p counter no_selection)
    ∙ ap (consider_all (remaining r.subscriptions p counter r.no_requirements))
        (select_counted-counted r.subscriptions p counter no_selection)
    ∙ sym (
        consider_all-append (counted r.subscriptions p counter)
          (remaining r.subscriptions p counter r.no_requirements) no_selection)
  where
    counter : Counter
    counter = count_matches r.constraints (entries p) []

-- The counters have one entry for each subscription.
bump_all-Unique : (subs : List (ℕ × Bool)) (c : Counter) → Unique c → Unique (bump_all subs c)
unfolding bump_all bump
bump_all-Unique [] c u = u
bump_all-Unique ((s, o) ∷ rest) c u = bump_all-Unique rest _ (insert-Unique s _ c u)

check_fallback-Unique :
    (value : Probe) (items : List ConstraintItem) (c : Counter)
    → Unique c
    → Unique (check_fallback value items c)
unfolding check_fallback
check_fallback-Unique value [] c u = u
check_fallback-Unique value (it ∷ rest) c u =
    elim (Bool-cases (accepts (operand it.stored_constraint) value)) [
      | inl e ↦
          rw e (check_fallback-Unique value rest _ (bump_all-Unique it.relevant_subscriptions c u))
      | inr e ↦ rw e (check_fallback-Unique value rest c u)
    ]

check_string-Unique :
    (v : Text) (items : List ConstraintItem) (c : Counter)
    → Unique c
    → Unique (check_string v items c)
unfolding check_string
check_string-Unique v [] c u = u
check_string-Unique v (it ∷ rest) c u =
    ground (arith, check_string-Unique v rest c u, bump_all-Unique it.relevant_subscriptions c u)

check-Unique :
    (value : Probe) (ix : ConstraintIndex) (c : Counter) → Unique c → Unique (check value ix c)
unfolding check
check-Unique (of_str s) ix c u =
    check_fallback-Unique (of_str s) ix.index _ (check_string-Unique s ix.string_equal c u)
check-Unique (of_int s) ix c u = check_fallback-Unique (of_int s) ix.index c u
check-Unique (of_float s) ix c u = check_fallback-Unique (of_float s) ix.index c u
check-Unique (of_map s) ix c u = check_fallback-Unique (of_map s) ix.index c u

count_attribute-Unique :
    (constraints : List (Text × ConstraintIndex)) (a : Text) (v : Value) (c : Counter)
    → Unique c
    → Unique (count_attribute constraints a v c)
unfolding count_attribute
count_attribute-Unique constraints a v c u = go (lookup a constraints) (probe v)
  where
    go :
        (found : Option ConstraintIndex) (o : Option Probe)
        → Unique (elim found [
          | none ↦ c
          | some ix ↦ elim o [ none ↦ c | some value ↦ check value ix c ]
        ])
    go none o = u
    go (some ix) none = u
    go (some ix) (some value) = check-Unique value ix c u

count_matches-Unique :
    (constraints : List (Text × ConstraintIndex)) (es : List (Text × Value)) (c : Counter)
    → Unique c
    → Unique (count_matches constraints es c)
unfolding count_matches
count_matches-Unique constraints [] c u = u
count_matches-Unique constraints ((a, v) ∷ rest) c u =
    count_matches-Unique constraints rest _ (count_attribute-Unique constraints a v c u)

pub counter_of-Unique : (r : Router) (p : Map) → Unique (counter_of r p)
unfolding counter_of
counter_of-Unique r p = count_matches-Unique r.constraints (entries p) [] tt
