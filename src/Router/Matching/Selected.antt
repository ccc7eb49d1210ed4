-- ===== src/Router/Matching/Selected.antt =====
-- The subscriptions that the two loops of `publish_internal` let through are those whose filter the
-- publication matches.
use u_actor.Prelude.{
  ℕ, ◌≡◌, refl, ap, ◌∙◌, Bool, true, false, ◌&&◌, ◌||◌, not, ap₂, Option, none, some, List, [], ◌∷◌,
  ◌==◌, nat_eq, nat_beq_iff, length, count, all, all_of_count, count_of_all, eq_of_iff,
  Option-cases, inl, inr, arith, ==_comm,
}
use u_actor.Prelude.Assoc.{lookup}
use u_actor.Publication.{Value, str, int, flt, bin, nested, Map, entries, get_attr}
use u_actor.Publication
use u_actor.Constraint.{Constraint, Operand, attribute, operand}
use u_actor.Filter.{InternalFilter, internal_passes, internal_check_optionals}
use u_actor.Index.{Counter, SubscriptionCounter, or_zero, accepts}
use u_actor.Index.Tally.{tally, pick}
use u_actor.Subscription.{Subscription, member}
use u_actor.Router.{Router, count_matches, counts_match, probe}
use u_actor.Router.Matching.Counting.{accepts_value, satisfied, tally-count_matches}
use u_actor.Router.Invariant.{IsRouted}

-- A string, an integer or a float.
unfoldable pub is_simple : Value → Bool
is_simple (str s) = true
is_simple (int n) = true
is_simple (flt x) = true
is_simple (bin b) = false
is_simple (nested m) = false

-- The attribute is not there, or the operand does not refuse it; a map or a binary is never refused.
abbrev pub unrefused : Operand → Option Value → Bool
unrefused o none = true
unrefused o (some v) = not (is_simple v) || accepts_value o v

-- An optional constraint that does not speak against a publication.
unfoldable pub unopposed : Map → Constraint → Bool
unopposed p c = unrefused (operand c) (get_attr (attribute c) p)

-- What a filter asks of a publication that is routed by the index: each required constraint is on an
-- attribute that is there and satisfies it, and no optional constraint is on a string, an integer or
-- a float that is there and does not satisfy it.
unfoldable pub routed : InternalFilter → Map → Bool
routed f p = all (satisfied p) f.required && all (unopposed p) f.optional

-- The code's test of an attribute that is there refuses the same.
internal_passes-unrefused : (o : Operand) (v : Value) → internal_passes o v ≡ unrefused o (some v)
unfolding internal_passes is_simple accepts_value probe accepts
internal_passes-unrefused o (str s) = refl
internal_passes-unrefused o (int n) = refl
internal_passes-unrefused o (flt x) = refl
internal_passes-unrefused o (bin b) = refl
internal_passes-unrefused o (nested m) = refl

optionals-unopposed :
    (p : Map) (cs : List Constraint) → internal_check_optionals cs p ≡ all (unopposed p) cs
unfolding internal_check_optionals unopposed
optionals-unopposed p [] = refl
optionals-unopposed p (c ∷ cs) =
    ap₂ (λ a b. a && b) (tested (get_attr (attribute c) p)) (optionals-unopposed p cs)
  where
    tested :
        (o : Option Value)
        → (elim o [ none ↦ true | some v ↦ internal_passes (operand c) v ])
          ≡ unrefused (operand c) o
    tested none = refl
    tested (some v) = internal_passes-unrefused (operand c) v

routed-optionals :
    (f : InternalFilter) (p : Map)
    → (all (satisfied p) f.required && internal_check_optionals f.optional p) ≡ routed f p
unfolding routed
routed-optionals f p =
    ap (λ b. all (satisfied p) f.required && b) (optionals-unopposed p f.optional)

-- What the two loops ask of a subscription, by its counter.
unfoldable pub chosen : Subscription → Option SubscriptionCounter → Bool → Map → Bool
chosen sub (some counts) unrequired p = counts_match sub counts p
chosen sub none unrequired p = unrequired && internal_check_optionals sub.filter.optional p

-- All pass exactly when as many pass as there are.
count-all : (q : Constraint → Bool) (xs : List Constraint) → (count q xs == length xs) ≡ all q xs
count-all q xs =
    eq_of_iff (count q xs == length xs) (all q xs)
      (λ h. all_of_count q xs (omega (arith, (nat_beq_iff (count q xs) (length xs)).0 h)))
      (λ h. (nat_beq_iff (count q xs) (length xs)).1 (count_of_all q xs h))

accepts_value-passes :
    (o : Operand) (v : Value) → accepts_value o v ≡ true → internal_passes o v ≡ true
unfolding accepts_value internal_passes probe accepts
accepts_value-passes o (str s) h = h
accepts_value-passes o (int s) h = h
accepts_value-passes o (flt s) h = h
accepts_value-passes o (bin s) h = refl
accepts_value-passes o (nested s) h = refl

-- Optional constraints that are all satisfied pass their check.
satisfied-optionals :
    (p : Map) (cs : List Constraint)
    → all (satisfied p) cs ≡ true
    → internal_check_optionals cs p ≡ true
unfolding satisfied internal_check_optionals
satisfied-optionals p [] h = refl
satisfied-optionals p (c ∷ cs) h = elim (Option-cases (get_attr (attribute c) p)) [
  | inl e ↦ ground (arith, satisfied-optionals p cs)
  | inr (v, e) ↦ ground (arith, satisfied-optionals p cs, accepts_value-passes (operand c) v)
]

chosen-at :
    (sub : Subscription) (o : Option SubscriptionCounter) (unrequired : Bool) (p : Map)
    → pick false (or_zero o) ≡ count (satisfied p) sub.filter.required
    → pick true (or_zero o) ≡ count (satisfied p) sub.filter.optional
    → unrequired ≡ (length sub.filter.required == 0)
    → chosen sub o unrequired p ≡ routed sub.filter p
unfolding chosen counts_match
chosen-at sub (some counts) unrequired p hr ho hu =
    rw (hr, ho)
      (rw (count-all (satisfied p) sub.filter.required, count-all (satisfied p) sub.filter.optional)
        (ground (arith, satisfied-optionals p sub.filter.optional)))
    ∙ routed-optionals sub.filter p
chosen-at sub none unrequired p hr ho hu =
    rw hu (
      ap (λ b. b && internal_check_optionals sub.filter.optional p)
        (==_comm (length sub.filter.required) 0
          ∙ ap (λ n. n == length sub.filter.required) hr
          ∙ count-all (satisfied p) sub.filter.required))
    ∙ routed-optionals sub.filter p

module _ (r : Router) (w : IsRouted r) (p : Map) (d : Publication.Unique p) (id : ℕ)
    (sub : Subscription) (there : lookup id r.subscriptions ≡ some sub) where
  counter : Counter
  counter = count_matches r.constraints (entries p) []

  required_count : tally id false counter ≡ count (satisfied p) sub.filter.required
  unfolding counter tally lookup
  required_count = omega (
    arith,
    tally-count_matches r.constraints p id false [] w.indexes w.distinct d,
    w.required_counted id sub (satisfied p) there,
  )

  optional_count : tally id true counter ≡ count (satisfied p) sub.filter.optional
  unfolding counter tally lookup
  optional_count = omega (
    arith,
    tally-count_matches r.constraints p id true [] w.indexes w.distinct d,
    w.optional_counted id sub (satisfied p) there,
  )

  -- A subscription passes the loops exactly when its filter asks for the publication.
  pub chosen-routed :
      chosen sub
        (lookup id (count_matches r.constraints (entries p) []))
        (member id r.no_requirements)
        p
      ≡ routed sub.filter p
  chosen-routed =
      chosen-at sub (lookup id (count_matches r.constraints (entries p) []))
        (member id r.no_requirements) p (unfold counter tally in required_count)
        (unfold counter tally in optional_count) (w.unrequired id sub there)
