-- ===== src/Index/Insertion/Order.antt =====
-- Insertion keeps the string index sorted, and finds or stores the constraint that it is given.
use u_actor.Prelude.{
  ℕ, ◌≡◌, refl, sym, ap, ◌∙◌, subst, Text, Bool, true, some, List, [], ◌∷◌, ◌==◌, text_eq,
  text_beq_iff, text_ltb, text_ltb_total, All, Bool-cases, inl, inr, arith, ==_comm,
}
use u_actor.Constraint.Predicates.{eq, predicate_beq_iff}
use u_actor.Constraint.{
  Constraint, Operand, monostate, text, number, real, group, attribute, operand, constraint_beq,
}
use u_actor.Constraint.Plain.{is_plain, constraint_beq-plain}
use u_actor.Index.{
  ConstraintItem, string_operand, key_of, item_key, add_subscription_to, insert_string,
  insert_fallback,
}
use u_actor.Index.Tally.{IsStringItem, Above, Above-trans, Sorted}

-- A constraint of the string index is `== v`.
pub string_operand-eq : (o : Operand) (v : Text) → string_operand o ≡ some v → o ≡ text v eq
unfolding string_operand
string_operand-eq monostate v h = cc
string_operand-eq (text s p) v h = ground (arith, predicate_beq_iff p eq)
string_operand-eq (number n p) v h = cc
string_operand-eq (real n p) v h = cc
string_operand-eq (group n p) v h = cc

pub string_operand-plain : (o : Operand) (v : Text) → string_operand o ≡ some v → is_plain o ≡ true
string_operand-plain o v h = rw (string_operand-eq o v h) refl

key_of-string : (o : Operand) (v : Text) → string_operand o ≡ some v → key_of o ≡ v
unfolding key_of
key_of-string o v h = rw (string_operand-eq o v h)

pub stored-add_subscription_to :
    (s : ℕ) (o : Bool) (it : ConstraintItem)
    → (add_subscription_to s o it).stored_constraint ≡ it.stored_constraint
unfolding add_subscription_to
stored-add_subscription_to s o it = ground arith

module _ (v : Text) (c : Constraint) (s : ℕ) (o : Bool)
    (here : string_operand (operand c) ≡ some v) where
  c_key : key_of (operand c) ≡ v
  c_key = key_of-string (operand c) v here

  Above-insert_string :
      (k : Text) (items : List ConstraintItem)
      → text_ltb k v ≡ true
      → Above k items
      → Above k (insert_string v c s o items).0
  unfolding insert_string
  Above-insert_string k [] below a = (rw c_key below, tt)
  Above-insert_string k (it ∷ rest) below a = elim (Bool-cases (text_ltb (item_key it) v)) [
    | inl before ↦ rw before (a.0, Above-insert_string k rest below a.1)
    | inr reached ↦ elim (Bool-cases (v == item_key it)) [
      | inl hit ↦ rw (reached, hit) (rw (stored-add_subscription_to s o it) a)
      | inr miss ↦ rw (reached, miss) (rw c_key below, a)
    ]
  ]

  -- The operands still rise strictly.
  pub Sorted-insert_string :
      (items : List ConstraintItem) → Sorted items → Sorted (insert_string v c s o items).0
  unfolding insert_string
  Sorted-insert_string [] w = (tt, tt)
  Sorted-insert_string (it ∷ rest) w = elim (Bool-cases (text_ltb (item_key it) v)) [
    | inl before ↦
        rw before (Above-insert_string (item_key it) rest before w.0, Sorted-insert_string rest w.1)
    | inr reached ↦ elim (Bool-cases (v == item_key it)) [
      | inl hit ↦ rw (reached, hit) (rw (stored-add_subscription_to s o it) w)
      | inr miss ↦
          let up = text_ltb_total (item_key it) v reached (==_comm (item_key it) v ∙ miss) in
          rw (reached, miss)
            (
              subst (λ k. Above k (it ∷ rest)) (sym c_key)
                  (up, Above-trans v (item_key it) rest up w.0),
              w,
            )
    ]
  ]

  pub string_items-insert_string :
      (items : List ConstraintItem)
      → All IsStringItem items
      → All IsStringItem (insert_string v c s o items).0
  unfolding insert_string
  string_items-insert_string [] w = (here ∙ ap some (sym c_key), tt)
  string_items-insert_string (it ∷ rest) w = elim (Bool-cases (text_ltb (item_key it) v)) [
    | inl before ↦ rw before (w.0, string_items-insert_string rest w.1)
    | inr reached ↦ elim (Bool-cases (v == item_key it)) [
      | inl hit ↦ rw (reached, hit) (rw (stored-add_subscription_to s o it) w)
      | inr miss ↦ rw (reached, miss) (here ∙ ap some (sym c_key), w)
    ]
  ]

  -- The constraint that is returned has the operand of the one that was given.
  pub operand-insert_string :
      (items : List ConstraintItem)
      → All IsStringItem items
      → operand (insert_string v c s o items).1 ≡ operand c
  unfolding insert_string
  operand-insert_string [] w = refl
  operand-insert_string (it ∷ rest) w = elim (Bool-cases (text_ltb (item_key it) v)) [
    | inl before ↦ rw before (operand-insert_string rest w.1)
    | inr reached ↦ elim (Bool-cases (v == item_key it)) [
      | inl hit ↦
          rw (reached, hit)
            (string_operand-eq (operand it.stored_constraint) (item_key it) w.0
              ∙ ap (λ k. text k eq) (sym ((text_beq_iff v (item_key it)).0 hit))
              ∙ sym (string_operand-eq (operand c) v here))
      | inr miss ↦ rw (reached, miss) refl
    ]
  ]

pub operand-insert_fallback :
    (c : Constraint) (s : ℕ) (o : Bool) (items : List ConstraintItem)
    → is_plain (operand c) ≡ true
    → operand (insert_fallback c s o items).1 ≡ operand c
unfolding insert_fallback
operand-insert_fallback c s o [] p = refl
operand-insert_fallback c s o (it ∷ rest) p =
    elim (Bool-cases (constraint_beq it.stored_constraint c)) [
      | inl hit ↦ rw hit ((constraint_beq-plain it.stored_constraint c p).0 hit).1
      | inr miss ↦ rw miss (operand-insert_fallback c s o rest p)
    ]

-- Every item is on the attribute of the index.
abbrev pub IsOn : Text → List ConstraintItem → Type 0
IsOn a = All (λ it. attribute it.stored_constraint ≡ a)

pub IsOn-insert_string :
    (a v : Text) (c : Constraint) (s : ℕ) (o : Bool) (items : List ConstraintItem)
    → attribute c ≡ a
    → IsOn a items
    → IsOn a (insert_string v c s o items).0 × (attribute (insert_string v c s o items).1 ≡ a)
unfolding insert_string
IsOn-insert_string a v c s o [] e w = ((e, tt), e)
IsOn-insert_string a v c s o (it ∷ rest) e w = elim (Bool-cases (text_ltb (item_key it) v)) [
  | inl before ↦ let (x, y) = IsOn-insert_string a v c s o rest e w.1 in rw before ((w.0, x), y)
  | inr reached ↦ elim (Bool-cases (v == item_key it)) [
    | inl hit ↦ rw (reached, hit) (rw (stored-add_subscription_to s o it) w, w.0)
    | inr miss ↦ rw (reached, miss) ((e, w), e)
  ]
]

pub IsOn-insert_fallback :
    (a : Text) (c : Constraint) (s : ℕ) (o : Bool) (items : List ConstraintItem)
    → attribute c ≡ a
    → IsOn a items
    → IsOn a (insert_fallback c s o items).0 × (attribute (insert_fallback c s o items).1 ≡ a)
unfolding insert_fallback
IsOn-insert_fallback a c s o [] e w = ((e, tt), e)
IsOn-insert_fallback a c s o (it ∷ rest) e w =
    elim (Bool-cases (constraint_beq it.stored_constraint c)) [
      | inl hit ↦ rw hit (rw (stored-add_subscription_to s o it) w, w.0)
      | inr miss ↦ let (x, y) = IsOn-insert_fallback a c s o rest e w.1 in rw miss ((w.0, x), y)
    ]
