-- ===== src/Router/Change/Indexing.antt =====
-- What the index maintenance of a new subscription does to the index.
use u_actor.Prelude.{
  ℕ, ◌+◌, ◌≤◌, ◌≡◌, refl, sym, ◌∙◌, subst, Text, Bool, true, false, ◌&&◌, none, List, [], ◌∷◌, ◌==◌,
  nat_eq, text_eq, text_beq_iff, if◌then◌else◌, All, Bool-cases, inl, inr, arith, count,
}
use u_actor.Prelude.Assoc.{lookup, insert, Unique, insert-Unique}
use u_actor.Constraint.{Constraint, attribute, operand, constraint_beq}
use u_actor.Constraint.Plain.{is_plain, constraint_beq-agree}
use u_actor.Index.{ConstraintIndex, ConstraintItem, insert_constraint}
use u_actor.Index.Tally.{weigh, weigh_index, flag_beq}
use u_actor.Index.Insertion.{
  IsIndexOf, equals, share, insert_constraint-IsIndexOf, attribute-insert_constraint,
  operand-insert_constraint, weigh-insert_constraint,
}
use u_actor.Router.Matching.Counting.{weigh_all, AreIndexes}
use u_actor.Router.Change.{or_new, index_constraint, index_constraints}

weigh_all-insert :
    (q : Constraint → Bool) (sub : ℕ) (opt : Bool) (a : Text) (ix : ConstraintIndex)
    (constraints : List (Text × ConstraintIndex))
    → weigh_all q sub opt (insert a ix constraints)
        + weigh_index q sub opt (or_new (lookup a constraints))
      ≡ weigh_all q sub opt constraints + weigh_index q sub opt ix
unfolding insert lookup
weigh_all-insert q sub opt a ix [] = omega arith
weigh_all-insert q sub opt a ix ((b, old) ∷ rest) = elim (Bool-cases (b == a)) [
  | inl e ↦ rw e (omega arith)
  | inr e ↦ rw e (omega (arith, weigh_all-insert q sub opt a ix rest))
]

weigh_index-le :
    (q : Constraint → Bool) (sub : ℕ) (opt : Bool) (a : Text)
    (constraints : List (Text × ConstraintIndex))
    → weigh_index q sub opt (or_new (lookup a constraints)) ≤ weigh_all q sub opt constraints
unfolding lookup
weigh_index-le q sub opt a [] = omega arith
weigh_index-le q sub opt a ((b, old) ∷ rest) = elim (Bool-cases (b == a)) [
  | inl e ↦ rw e (omega arith)
  | inr e ↦ rw e (omega (arith, weigh_index-le q sub opt a rest))
]

weigh-le-true :
    (q : Constraint → Bool) (sub : ℕ) (opt : Bool) (items : List ConstraintItem)
    → weigh q sub opt items ≤ weigh (λ _. true) sub opt items
weigh-le-true q sub opt [] = omega arith
weigh-le-true q sub opt (it ∷ rest) = ground (arith, weigh-le-true q sub opt rest)

-- A subscription without pairs has none in the items that pass a test.
pub weigh_all-le-true :
    (q : Constraint → Bool) (sub : ℕ) (opt : Bool) (constraints : List (Text × ConstraintIndex))
    → weigh_all q sub opt constraints ≤ weigh_all (λ _. true) sub opt constraints
weigh_all-le-true q sub opt [] = omega arith
weigh_all-le-true q sub opt ((a, ix) ∷ rest) = omega (
  arith,
  weigh-le-true q sub opt ix.string_equal,
  weigh-le-true q sub opt ix.index,
  weigh_all-le-true q sub opt rest,
)

AreIndexes-insert :
    (a : Text) (ix : ConstraintIndex) (constraints : List (Text × ConstraintIndex))
    → IsIndexOf a ix
    → AreIndexes constraints
    → AreIndexes (insert a ix constraints)
unfolding insert
AreIndexes-insert a ix [] w ws = (w, tt)
AreIndexes-insert a ix ((b, old) ∷ rest) w ws = elim (Bool-cases (b == a)) [
  | inl e ↦ rw e (subst (λ k. IsIndexOf k ix) (sym ((text_beq_iff b a).0 e)) w, ws.1)
  | inr e ↦ rw e (ws.0, AreIndexes-insert a ix rest w ws.1)
]

new_index-IsIndexOf : (a : Text) → IsIndexOf a (or_new none)
new_index-IsIndexOf a = record {
  ordered = record { string_items = tt; sorted = tt };
  string_on = tt;
  index_on = tt;
}

lookup-IsIndexOf :
    (a : Text) (constraints : List (Text × ConstraintIndex))
    → AreIndexes constraints
    → IsIndexOf a (or_new (lookup a constraints))
unfolding lookup
lookup-IsIndexOf a [] ws = new_index-IsIndexOf a
lookup-IsIndexOf a ((b, ix) ∷ rest) ws = elim (Bool-cases (b == a)) [
  | inl e ↦ rw e (subst (λ k. IsIndexOf k ix) ((text_beq_iff b a).0 e) ws.0)
  | inr e ↦ rw e (lookup-IsIndexOf a rest ws.1)
]

-- No item that a constraint could be merged into has the subscription.
pub record IsAbsent (id : ℕ) (constraints : List (Text × ConstraintIndex)) (c : Constraint)
    : Type 0 where
  pub required : weigh_all (equals c) id false constraints ≡ 0
  pub optional : weigh_all (equals c) id true constraints ≡ 0

module _ (c : Constraint) (id : ℕ) (o : Bool) (constraints : List (Text × ConstraintIndex))
    (ws : AreIndexes constraints) where
  found : ConstraintIndex
  found = or_new (lookup (attribute c) constraints)

  found_in_order : IsIndexOf (attribute c) found
  unfolding found
  found_in_order = lookup-IsIndexOf (attribute c) constraints ws

  index_constraint-AreIndexes : AreIndexes (index_constraint c id o constraints).0
  unfolding index_constraint found
  index_constraint-AreIndexes =
      AreIndexes-insert (attribute c) (insert_constraint c id o found).0 constraints
        (insert_constraint-IsIndexOf (attribute c) c id o found refl found_in_order) ws

  attribute-index_constraint : attribute (index_constraint c id o constraints).1 ≡ attribute c
  unfolding index_constraint found
  attribute-index_constraint =
      attribute-insert_constraint (attribute c) c id o found refl found_in_order

  operand-index_constraint :
      is_plain (operand c) ≡ true → operand (index_constraint c id o constraints).1 ≡ operand c
  unfolding index_constraint found
  operand-index_constraint =
      operand-insert_constraint (attribute c) c id o found refl found_in_order

  weigh_all-index_constraint :
      (q : Constraint → Bool) (sub : ℕ) (opt : Bool)
      → IsAbsent id constraints c
      → weigh_all q sub opt (index_constraint c id o constraints).0
        ≡ weigh_all q sub opt constraints
          + share (q (index_constraint c id o constraints).1) (id == sub && flag_beq o opt)
  unfolding index_constraint found
  weigh_all-index_constraint q sub opt absent = omega (
    arith,
    weigh_all-insert q sub opt (attribute c) (insert_constraint c id o found).0 constraints,
    weigh-insert_constraint (attribute c) c id o found refl found_in_order q sub opt
        (omega
          (arith, absent.required, weigh_index-le (equals c) id false (attribute c) constraints))
        (omega
          (arith, absent.optional, weigh_index-le (equals c) id true (attribute c) constraints)),
  )

index_constraint-Unique :
    (c : Constraint) (id : ℕ) (o : Bool) (constraints : List (Text × ConstraintIndex))
    → Unique constraints
    → Unique (index_constraint c id o constraints).0
unfolding index_constraint
index_constraint-Unique c id o constraints u = insert-Unique (attribute c) _ constraints u

-- Every constraint has a string or an integer operand.
abbrev pub ArePlain : List Constraint → Type 0
ArePlain = All (λ c. is_plain (operand c) ≡ true)

-- No constraint equals one before it.
abbrev pub AreDistinct : List Constraint → Type 0
AreDistinct [] = Unit
AreDistinct (c ∷ cs) = All (λ d. constraint_beq c d ≡ false) cs × AreDistinct cs

share-false : (x : Bool) → share false x ≡ 0
share-false x = refl

IsAbsent-after :
    (c d : Constraint) (id : ℕ) (o : Bool) (constraints : List (Text × ConstraintIndex))
    → AreIndexes constraints
    → is_plain (operand c) ≡ true
    → IsAbsent id constraints c
    → IsAbsent id constraints d
    → constraint_beq c d ≡ false
    → IsAbsent id (index_constraint c id o constraints).0 d
IsAbsent-after c d id o constraints ws plain ac ad apart = record {
  required =
      weigh_all-index_constraint c id o constraints ws (equals d) id false ac
      ∙ rw differ (omega (arith, ad.required));
  optional =
      weigh_all-index_constraint c id o constraints ws (equals d) id true ac
      ∙ rw differ (omega (arith, ad.optional));
}
  where
    differ : equals d (index_constraint c id o constraints).1 ≡ false
    differ =
        constraint_beq-agree (index_constraint c id o constraints).1 c d
          (attribute-index_constraint c id o constraints ws)
          (operand-index_constraint c id o constraints ws plain)
        ∙ apart

absents_after :
    (c : Constraint) (ds : List Constraint) (id : ℕ) (o : Bool)
    (constraints : List (Text × ConstraintIndex))
    → AreIndexes constraints
    → is_plain (operand c) ≡ true
    → IsAbsent id constraints c
    → All (IsAbsent id constraints) ds
    → All (λ d. constraint_beq c d ≡ false) ds
    → All (IsAbsent id (index_constraint c id o constraints).0) ds
absents_after c [] id o constraints ws plain ac ads aparts = tt
absents_after c (d ∷ ds) id o constraints ws plain ac ads aparts = (
  IsAbsent-after c d id o constraints ws plain ac ads.0 aparts.0,
  absents_after c ds id o constraints ws plain ac ads.1 aparts.1,
)

pub index_constraints-AreIndexes :
    (cs : List Constraint) (id : ℕ) (o : Bool) (constraints : List (Text × ConstraintIndex))
    → AreIndexes constraints
    → AreIndexes (index_constraints cs id o constraints).0
unfolding index_constraints
index_constraints-AreIndexes [] id o constraints ws = ws
index_constraints-AreIndexes (c ∷ cs) id o constraints ws =
    index_constraints-AreIndexes cs id o (index_constraint c id o constraints).0
      (index_constraint-AreIndexes c id o constraints ws)

pub index_constraints-Unique :
    (cs : List Constraint) (id : ℕ) (o : Bool) (constraints : List (Text × ConstraintIndex))
    → Unique constraints
    → Unique (index_constraints cs id o constraints).0
unfolding index_constraints
index_constraints-Unique [] id o constraints u = u
index_constraints-Unique (c ∷ cs) id o constraints u =
    index_constraints-Unique cs id o (index_constraint c id o constraints).0
      (index_constraint-Unique c id o constraints u)

-- The loop adds, for the subscription and the flag, one pair for each stored constraint.
pub weigh_all-index_constraints :
    (cs : List Constraint) (id : ℕ) (o : Bool) (constraints : List (Text × ConstraintIndex))
    (q : Constraint → Bool) (sub : ℕ) (opt : Bool)
    → AreIndexes constraints
    → ArePlain cs
    → AreDistinct cs
    → All (IsAbsent id constraints) cs
    → weigh_all q sub opt (index_constraints cs id o constraints).0
      ≡ weigh_all q sub opt constraints
        + (if id == sub && flag_beq o opt
            then count q (index_constraints cs id o constraints).1
            else 0)
unfolding index_constraints
weigh_all-index_constraints [] id o constraints q sub opt ws plain distinct absent = ground arith
weigh_all-index_constraints (c ∷ cs) id o constraints q sub opt ws plain distinct absent = ground (
  arith,
  weigh_all-index_constraint c id o constraints ws q sub opt absent.0,
  weigh_all-index_constraints cs id o (index_constraint c id o constraints).0 q sub opt
      (index_constraint-AreIndexes c id o constraints ws) plain.1 distinct.1
      (absents_after c cs id o constraints ws plain.0 absent.0 absent.1 distinct.0),
)

-- A constraint that equals none of a plain list equals none of what is stored for it.
pub count-stored :
    (cs : List Constraint) (id : ℕ) (o : Bool) (constraints : List (Text × ConstraintIndex))
    (e : Constraint)
    → AreIndexes constraints
    → ArePlain cs
    → All (λ c. constraint_beq c e ≡ false) cs
    → count (equals e) (index_constraints cs id o constraints).1 ≡ 0
unfolding index_constraints
count-stored [] id o constraints e ws plain apart = refl
count-stored (c ∷ cs) id o constraints e ws plain apart =
    rw
      (constraint_beq-agree (index_constraint c id o constraints).1 c e
          (attribute-index_constraint c id o constraints ws)
          (operand-index_constraint c id o constraints ws plain.0)
        ∙ apart.0)
      (omega (
        arith,
        count-stored cs id o (index_constraint c id o constraints).0 e
            (index_constraint-AreIndexes c id o constraints ws) plain.1 apart.1,
      ))
