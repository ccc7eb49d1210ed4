-- ===== src/Index/Insertion.antt =====
-- What `insert` does to the index: one pair more for the new subscription, and the order kept.
pub mod Order
use u_actor.Prelude.{
  ℕ, zero, suc, ◌+◌, ◌≡◌, refl, sym, ap, ◌∙◌, subst, Text, Bool, true, false, not, ◌&&◌, ◌||◌,
  Option, none, some, List, [], ◌∷◌, ◌++◌, ◌==◌, nat_eq, nat_beq_iff, text_eq, text_beq_iff,
  text_ltb, text_ltb_irrefl, text_ltb_trans, text_ltb_total, if◌then◌else◌, bit, All, All-map,
  Bool-cases, Option-cases, inl, inr, arith, ==_comm,
}
use u_actor.Constraint.Predicates.{Predicate, eq, predicate_beq, predicate_beq_iff}
use u_actor.Constraint.{
  Constraint, Operand, monostate, text, number, real, group, attribute, operand, constraint_beq,
}
use u_actor.Constraint.Plain.{is_plain, constraint_beq-plain}
use Order.{
  string_operand-eq, string_operand-plain, Sorted-insert_string, string_items-insert_string,
  operand-insert_string, operand-insert_fallback, IsOn, IsOn-insert_string, IsOn-insert_fallback,
}
use u_actor.Index.{
  ConstraintItem, ConstraintIndex, string_operand, key_of, item_key, has_subscription,
  add_subscription_to, insert_string, insert_fallback, insert_constraint,
}
use u_actor.Index.Tally.{
  flag_beq, occurrences, weigh, weigh_index, IsStringItem, Above, Sorted, IsOrdered,
}

occurrences-append :
    (s sub : ℕ) (o opt : Bool) (subs : List (ℕ × Bool))
    → occurrences sub opt (subs ++ (s, o) ∷ [])
      ≡ occurrences sub opt subs + bit (s == sub && flag_beq o opt)
occurrences-append s sub o opt [] = omega arith
occurrences-append s sub o opt ((t, f) ∷ rest) = omega (arith, occurrences-append s sub o opt rest)

-- The subscription is in no item that the constraint could be merged into.
abbrev pub IsFresh : ℕ → Constraint → List ConstraintItem → Type 0
IsFresh s c = All (λ it.
    constraint_beq it.stored_constraint c ≡ true
    → has_subscription s it.relevant_subscriptions ≡ false)

abbrev pub share : Bool → Bool → ℕ
share a b = if a then bit b else 0

weigh-add :
    (q : Constraint → Bool) (s sub : ℕ) (o opt : Bool) (it : ConstraintItem)
    (rest : List ConstraintItem)
    → has_subscription s it.relevant_subscriptions ≡ false
    → weigh q sub opt (add_subscription_to s o it ∷ rest)
      ≡ weigh q sub opt (it ∷ rest) + share (q it.stored_constraint) (s == sub && flag_beq o opt)
unfolding add_subscription_to
weigh-add q s sub o opt it rest h = rw h (elim (Bool-cases (q it.stored_constraint)) [
  | inl e ↦ rw e (omega (arith, occurrences-append s sub o opt it.relevant_subscriptions))
  | inr e ↦ rw e (omega arith)
])

weigh-insert_fallback :
    (q : Constraint → Bool) (c : Constraint) (s sub : ℕ) (o opt : Bool)
    (items : List ConstraintItem)
    → IsFresh s c items
    → weigh q sub opt (insert_fallback c s o items).0
      ≡ weigh q sub opt items
        + share (q (insert_fallback c s o items).1) (s == sub && flag_beq o opt)
unfolding insert_fallback
weigh-insert_fallback q c s sub o opt [] f = ground arith
weigh-insert_fallback q c s sub o opt (it ∷ rest) f =
    elim (Bool-cases (constraint_beq it.stored_constraint c)) [
      | inl hit ↦ rw hit (weigh-add q s sub o opt it rest (f.0 hit))
      | inr miss ↦ rw miss (omega (arith, weigh-insert_fallback q c s sub o opt rest f.1))
    ]

abbrev pub IsFreshKey : ℕ → Text → List ConstraintItem → Type 0
IsFreshKey s v =
    All (λ it. (v == item_key it) ≡ true → has_subscription s it.relevant_subscriptions ≡ false)

weigh-insert_string :
    (q : Constraint → Bool) (v : Text) (c : Constraint) (s sub : ℕ) (o opt : Bool)
    (items : List ConstraintItem)
    → IsFreshKey s v items
    → weigh q sub opt (insert_string v c s o items).0
      ≡ weigh q sub opt items
        + share (q (insert_string v c s o items).1) (s == sub && flag_beq o opt)
unfolding insert_string
weigh-insert_string q v c s sub o opt [] f = ground arith
weigh-insert_string q v c s sub o opt (it ∷ rest) f = elim (Bool-cases (text_ltb (item_key it) v)) [
  | inl before ↦ rw before (omega (arith, weigh-insert_string q v c s sub o opt rest f.1))
  | inr reached ↦ elim (Bool-cases (v == item_key it)) [
    | inl hit ↦ rw (reached, hit) (weigh-add q s sub o opt it rest (f.0 hit))
    | inr miss ↦ rw (reached, miss) (ground arith)
  ]
]

-- What the index of an attribute must satisfy.
pub record IsIndexOf (a : Text) (ix : ConstraintIndex) : Type 0 where
  pub ordered : IsOrdered ix
  pub string_on : IsOn a ix.string_equal
  pub index_on : IsOn a ix.index

-- The pairs of a subscription in items whose constraint a given one could be merged into.
abbrev pub equals : Constraint → Constraint → Bool
equals c d = constraint_beq d c

has-occurrence :
    (s : ℕ) (subs : List (ℕ × Bool))
    → occurrences s false subs ≡ 0
    → occurrences s true subs ≡ 0
    → has_subscription s subs ≡ false
has-occurrence s [] h k = refl
has-occurrence s ((t, true) ∷ rest) h k =
    ground (arith, has-occurrence s rest (omega (arith, h)) (omega (arith, k)))
has-occurrence s ((t, false) ∷ rest) h k =
    ground (arith, has-occurrence s rest (omega (arith, h)) (omega (arith, k)))

pub IsFresh-of-weigh :
    (s : ℕ) (c : Constraint) (items : List ConstraintItem)
    → weigh (equals c) s false items ≡ 0
    → weigh (equals c) s true items ≡ 0
    → IsFresh s c items
IsFresh-of-weigh s c [] h k = tt
IsFresh-of-weigh s c (it ∷ rest) h k = (
  λ e. has-occurrence s it.relevant_subscriptions (ground arith) (ground arith),
  IsFresh-of-weigh s c rest (omega (arith, h)) (omega (arith, k)),
)

-- In the string index an item with the operand of a constraint holds an equal constraint.
fresh_key :
    (a v : Text) (s : ℕ) (c : Constraint) (items : List ConstraintItem)
    → string_operand (operand c) ≡ some v
    → attribute c ≡ a
    → All IsStringItem items
    → IsOn a items
    → IsFresh s c items
    → IsFreshKey s v items
fresh_key a v s c [] h e w o f = tt
fresh_key a v s c (it ∷ rest) h e w o f = (
  λ hit. f.0 (
      (constraint_beq-plain it.stored_constraint c (string_operand-plain (operand c) v h)).1 (
        o.0 ∙ sym e,
        string_operand-eq (operand it.stored_constraint) (item_key it) w.0
            ∙ ap (λ k. text k eq) (sym ((text_beq_iff v (item_key it)).0 hit))
            ∙ sym (string_operand-eq (operand c) v h),
      )),
  fresh_key a v s c rest h e w.1 o.1 f.1,
)

module _ (a : Text) (c : Constraint) (s : ℕ) (o : Bool) (ix : ConstraintIndex)
    (on_a : attribute c ≡ a) (w : IsIndexOf a ix) where
  -- An insertion of a constraint into the index of its attribute keeps it in order: the string index
  -- holds string equalities with rising operands, and every constraint is on that attribute.
  pub insert_constraint-IsIndexOf : IsIndexOf a (insert_constraint c s o ix).0
  unfolding insert_constraint
  insert_constraint-IsIndexOf = elim (Option-cases (string_operand (operand c))) [
    | inl e ↦
        rw (e, insert_constraint)
          (record {
            ordered = record { string_items = w.ordered.string_items; sorted = w.ordered.sorted };
            string_on = w.string_on;
            index_on = (IsOn-insert_fallback a c s o ix.index on_a w.index_on).0;
          })
    | inr (v, e) ↦
        rw (e, insert_constraint)
          (record {
            ordered = record {
              string_items =
                  string_items-insert_string v c s o e ix.string_equal w.ordered.string_items;
              sorted = Sorted-insert_string v c s o e ix.string_equal w.ordered.sorted;
            };
            string_on = (IsOn-insert_string a v c s o ix.string_equal on_a w.string_on).0;
            index_on = w.index_on;
          })
  ]

  -- The stored constraint is on the same attribute.
  pub attribute-insert_constraint : attribute (insert_constraint c s o ix).1 ≡ a
  unfolding insert_constraint
  attribute-insert_constraint = elim (Option-cases (string_operand (operand c))) [
    | inl e ↦ rw (e, insert_constraint) ((IsOn-insert_fallback a c s o ix.index on_a w.index_on).1)
    | inr (v, e) ↦
        rw (e, insert_constraint)
          ((IsOn-insert_string a v c s o ix.string_equal on_a w.string_on).1)
  ]

  -- The stored constraint has the operand of a plain constraint.
  pub operand-insert_constraint :
      is_plain (operand c) ≡ true → operand (insert_constraint c s o ix).1 ≡ operand c
  unfolding insert_constraint
  operand-insert_constraint p = elim (Option-cases (string_operand (operand c))) [
    | inl e ↦ rw (e, insert_constraint) (operand-insert_fallback c s o ix.index p)
    | inr (v, e) ↦
        rw (e, insert_constraint)
          (operand-insert_string v c s o e ix.string_equal w.ordered.string_items)
  ]

  -- An insertion of a constraint into the index of its attribute, which is in order, adds one pair, of
  -- the subscription and its flag, to the item of the constraint that it returns, if no item that
  -- equals the constraint has the subscription; all other pairs stay.
  pub weigh-insert_constraint :
      (q : Constraint → Bool) (sub : ℕ) (opt : Bool)
      → weigh_index (equals c) s false ix ≡ 0
      → weigh_index (equals c) s true ix ≡ 0
      → weigh_index q sub opt (insert_constraint c s o ix).0
        ≡ weigh_index q sub opt ix
          + share (q (insert_constraint c s o ix).1) (s == sub && flag_beq o opt)
  unfolding insert_constraint
  weigh-insert_constraint q sub opt h k = elim (Option-cases (string_operand (operand c))) [
    | inl e ↦
        rw (e, insert_constraint)
          (omega (
            arith,
            weigh-insert_fallback q c s sub o opt ix.index
                (IsFresh-of-weigh s c ix.index (omega (arith, h)) (omega (arith, k))),
          ))
    | inr (v, e) ↦
        rw (e, insert_constraint)
          (omega (
            arith,
            weigh-insert_string q v c s sub o opt ix.string_equal (
                fresh_key a v s c ix.string_equal e on_a w.ordered.string_items w.string_on
                  (IsFresh-of-weigh s c ix.string_equal (omega (arith, h)) (omega (arith, k)))),
          ))
  ]
