-- ===== src/Router/Change/Adding.antt =====
-- A new subscription keeps the router's invariant.
use u_actor.Prelude.{
  ℕ, suc, ◌+◌, ◌≤◌, ◌≡◌, refl, sym, ap, ◌∙◌, subst, Text, Bool, true, false, ◌&&◌, ◌||◌, none, some,
  List, [], ◌∷◌, ◌++◌, ◌==◌, nat_eq, nat_beq_iff, text_eq, if◌then◌else◌, All, Bool-cases, inl, inr,
  ◌⊎◌, arith, count, length,
}
use u_actor.Prelude.Assoc.{lookup, insert, lookup-insert}
use u_actor.Constraint.{Constraint, constraint_beq}
use u_actor.Filter.{Filter}
use u_actor.Arguments.{SubscriptionArguments}
use u_actor.Index.{ConstraintIndex}
use u_actor.Index.Tally.{flag_beq}
use u_actor.Index.Insertion.{equals}
use u_actor.Subscription.{
  Subscription, member, make_subscription, set_subscription_constraints, count_required,
}
use u_actor.Router.{Router}
use u_actor.Router.Invariant.{IsRouted}
use u_actor.Router.Matching.Counting.{weigh_all, AreIndexes}
use u_actor.Router.Change.{index_constraints, register}
use u_actor.Router.Change.Indexing.{
  ArePlain, AreDistinct, IsAbsent, weigh_all-le-true, index_constraints-AreIndexes,
  index_constraints-Unique, weigh_all-index_constraints, count-stored,
}

-- Filters on which the index is exact: operands are strings or integers, and no two constraints of
-- the filter are equal, be they required or optional.
pub record IsDistinct (f : Filter) : Type 0 where
  pub plain_required : ArePlain f.required_constraints
  pub plain_optional : ArePlain f.optional_constraints
  pub distinct_required : AreDistinct f.required_constraints
  pub distinct_optional : AreDistinct f.optional_constraints
  pub apart :
      All (λ e. All (λ c. constraint_beq c e ≡ false) f.required_constraints) f.optional_constraints

some_eq : (a b : Subscription) → some a ≡ some b → a ≡ b
some_eq a b h = cc

member-append : (id n : ℕ) (ns : List ℕ) → member id (ns ++ n ∷ []) ≡ (member id ns || (n == id))
member-append id n [] = ground arith
member-append id n (m ∷ rest) = ground (arith, member-append id n rest)

module _ (f : Filter) (receiver node : ℕ) (args : SubscriptionArguments) (r : Router)
    (w : IsRouted r) (exact : IsDistinct f) where
  id : ℕ
  id = r.next_sub_id

  unknown : lookup id r.subscriptions ≡ none
  unfolding id
  unknown = w.fresh r.next_sub_id (omega arith)

  req : List (Text × ConstraintIndex) × List Constraint
  req = index_constraints f.required_constraints id false r.constraints

  opt : List (Text × ConstraintIndex) × List Constraint
  opt = index_constraints f.optional_constraints id true req.0

  new : Subscription
  new = set_subscription_constraints req.1 opt.1 (make_subscription id receiver node args)

  none_before : (q : Constraint → Bool) (o : Bool) → weigh_all q id o r.constraints ≡ 0
  none_before q o =
      omega (arith, weigh_all-le-true q id o r.constraints, w.no_dangling id o unknown)

  IsAbsent-before : (cs : List Constraint) → All (IsAbsent id r.constraints) cs
  IsAbsent-before [] = tt
  IsAbsent-before (c ∷ cs) = (
    record { required = none_before (equals c) false; optional = none_before (equals c) true },
    IsAbsent-before cs,
  )

  weigh-req :
      (q : Constraint → Bool) (sub : ℕ) (o : Bool)
      → weigh_all q sub o req.0
        ≡ weigh_all q sub o r.constraints
          + (if id == sub && flag_beq false o then count q req.1 else 0)
  unfolding req
  weigh-req q sub o =
      weigh_all-index_constraints f.required_constraints id false r.constraints q sub o w.indexes
        exact.plain_required exact.distinct_required (IsAbsent-before f.required_constraints)

  req-AreIndexes : AreIndexes req.0
  unfolding req
  req-AreIndexes =
      index_constraints-AreIndexes f.required_constraints id false r.constraints w.indexes

  IsAbsent-between :
      (cs : List Constraint)
      → All (λ e. All (λ c. constraint_beq c e ≡ false) f.required_constraints) cs
      → All (IsAbsent id req.0) cs
  IsAbsent-between [] a = tt
  IsAbsent-between (e ∷ cs) a = (
    record {
      required =
          ground (arith, weigh-req (equals e) id false, none_before (equals e) false, nothing);
      optional = ground (arith, weigh-req (equals e) id true, none_before (equals e) true);
    },
    IsAbsent-between cs a.1,
  )
    where
      nothing : count (equals e) req.1 ≡ 0
      nothing =
          unfold req in
          count-stored f.required_constraints id false r.constraints e w.indexes
            exact.plain_required a.0

  weigh-opt :
      (q : Constraint → Bool) (sub : ℕ) (o : Bool)
      → weigh_all q sub o opt.0
        ≡ weigh_all q sub o req.0 + (if id == sub && flag_beq true o then count q opt.1 else 0)
  unfolding opt
  weigh-opt q sub o =
      weigh_all-index_constraints f.optional_constraints id true req.0 q sub o req-AreIndexes
        exact.plain_optional exact.distinct_optional
        (IsAbsent-between f.optional_constraints exact.apart)

  -- The new subscription has its stored constraints in the index.
  weigh-new-required : (q : Constraint → Bool) → weigh_all q id false opt.0 ≡ count q req.1
  weigh-new-required q =
      ground (arith, weigh-opt q id false, weigh-req q id false, none_before q false)

  weigh-new-optional : (q : Constraint → Bool) → weigh_all q id true opt.0 ≡ count q opt.1
  weigh-new-optional q =
      ground (arith, weigh-opt q id true, weigh-req q id true, none_before q true)

  -- Those of the others are as they were.
  weigh-other :
      (q : Constraint → Bool) (sub : ℕ) (o : Bool)
      → (id == sub) ≡ false
      → weigh_all q sub o opt.0 ≡ weigh_all q sub o r.constraints
  weigh-other q sub o h = ground (arith, weigh-opt q sub o, weigh-req q sub o)

  found_cases :
      (j : ℕ) (sub : Subscription)
      → lookup j (insert id new r.subscriptions) ≡ some sub
      → ((id ≡ j) × (new ≡ sub)) ⊎ (((id == j) ≡ false) × (lookup j r.subscriptions ≡ some sub))
  found_cases j sub h = elim (Bool-cases (id == j)) [
    | inl same ↦ inl (
      (nat_beq_iff id j).0 same,
      some_eq new sub (sym (lookup-insert id j new r.subscriptions ∙ rw same refl) ∙ h),
    )
    | inr other ↦ inr (other, sym (lookup-insert id j new r.subscriptions ∙ rw other refl) ∙ h)
  ]

  absent_cases :
      (j : ℕ)
      → lookup j (insert id new r.subscriptions) ≡ none
      → ((id == j) ≡ false) × (lookup j r.subscriptions ≡ none)
  absent_cases j h = elim (Bool-cases (id == j)) [
    | inl same ↦
        let e : some new ≡ none = sym (lookup-insert id j new r.subscriptions ∙ rw same refl) ∙ h in
        cc e
    | inr other ↦ (other, sym (lookup-insert id j new r.subscriptions ∙ rw other refl) ∙ h)
  ]

  new_required : new.filter.required ≡ req.1
  unfolding new req set_subscription_constraints
  new_required = refl

  new_optional : new.filter.optional ≡ opt.1
  unfolding new opt set_subscription_constraints
  new_optional = refl

  new_requirements : List ℕ
  new_requirements =
      if count_required new == 0 then r.no_requirements ++ id ∷ [] else r.no_requirements

  member-new : member id new_requirements ≡ (length new.filter.required == 0)
  unfolding new_requirements
  member-new = elim (Bool-cases (length new.filter.required == 0)) [
    | inl e ↦ rw e (ground (arith, member-append id id r.no_requirements))
    | inr e ↦ rw e (w.no_dangling_requirement id unknown)
  ]

  member-old : (j : ℕ) → (id == j) ≡ false → member j new_requirements ≡ member j r.no_requirements
  unfolding new_requirements
  member-old j h = elim (Bool-cases (length new.filter.required == 0)) [
    | inl e ↦ rw e (ground (arith, member-append j id r.no_requirements))
    | inr e ↦ rw e refl
  ]

  fresh_before : (j : ℕ) → suc id ≤ j → lookup j (insert id new r.subscriptions) ≡ none
  fresh_before j h =
      lookup-insert id j new r.subscriptions
      ∙ rw (differ h) (w.fresh j (unfold id in omega (arith, h)))
    where
      differ : suc id ≤ j → (id == j) ≡ false
      differ k = ground arith

  -- Registering a subscription keeps the router's invariant, in which every subscription counts its
  -- own constraints, if the operands of the new filter are strings or integers and no two of its
  -- constraints are equal.
  pub register-IsRouted : IsRouted (register f receiver node args r)
  unfolding register new set_subscription_constraints
  register-IsRouted =
      unfold req opt id new_requirements in
      record {
        indexes = index_constraints-AreIndexes f.optional_constraints id true req.0 req-AreIndexes;
        distinct =
            index_constraints-Unique f.optional_constraints id true req.0
              (index_constraints-Unique f.required_constraints id false r.constraints w.distinct);
        required_counted = λ j sub q h. counted_required j sub q h;
        optional_counted = λ j sub q h. counted_optional j sub q h;
        unrequired = λ j sub h. requirement j sub h;
        no_dangling = λ j o h.
            let (other, gone) = absent_cases j h in
            weigh-other (λ _. true) j o other ∙ w.no_dangling j o gone;
        no_dangling_requirement = λ j h.
            let (other, gone) = absent_cases j h in
            member-old j other ∙ w.no_dangling_requirement j gone;
        named = λ j sub h. name j sub h;
        fresh = λ j h. fresh_before j h;
      }
    where
      counted_required :
          (j : ℕ) (sub : Subscription) (q : Constraint → Bool)
          → lookup j (insert id new r.subscriptions) ≡ some sub
          → weigh_all q j false opt.0 ≡ count q sub.filter.required
      counted_required j sub q h = elim (found_cases j sub h) [
        | inl (same, e) ↦
            subst (λ k. weigh_all q k false opt.0 ≡ count q sub.filter.required) same
              (weigh-new-required q
                ∙ ap (count q) (sym new_required ∙ ap (λ s. s.filter.required) e))
        | inr (other, e) ↦ weigh-other q j false other ∙ w.required_counted j sub q e
      ]

      counted_optional :
          (j : ℕ) (sub : Subscription) (q : Constraint → Bool)
          → lookup j (insert id new r.subscriptions) ≡ some sub
          → weigh_all q j true opt.0 ≡ count q sub.filter.optional
      counted_optional j sub q h = elim (found_cases j sub h) [
        | inl (same, e) ↦
            subst (λ k. weigh_all q k true opt.0 ≡ count q sub.filter.optional) same
              (weigh-new-optional q
                ∙ ap (count q) (sym new_optional ∙ ap (λ s. s.filter.optional) e))
        | inr (other, e) ↦ weigh-other q j true other ∙ w.optional_counted j sub q e
      ]

      requirement :
          (j : ℕ) (sub : Subscription)
          → lookup j (insert id new r.subscriptions) ≡ some sub
          → member j new_requirements ≡ (length sub.filter.required == 0)
      requirement j sub h = elim (found_cases j sub h) [
        | inl (same, e) ↦
            subst (λ k. member k new_requirements ≡ (length sub.filter.required == 0)) same
              (member-new ∙ ap (λ s. length s.filter.required == 0) e)
        | inr (other, e) ↦ member-old j other ∙ w.unrequired j sub e
      ]

      name :
          (j : ℕ) (sub : Subscription)
          → lookup j (insert id new r.subscriptions) ≡ some sub
          → sub.subscription_id ≡ j
      name j sub h = elim (found_cases j sub h) [
        | inl (same, e) ↦
            ap (λ s. s.subscription_id) (sym e)
            ∙ (unfold new set_subscription_constraints make_subscription in same)
        | inr (other, e) ↦ w.named j sub e
      ]
