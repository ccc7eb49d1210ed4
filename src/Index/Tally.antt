-- ===== src/Index/Tally.antt =====
-- What `check` adds to the counters: one for each pair of a subscription and a satisfied constraint.
use u_actor.Prelude.{
  ℕ, ◌+◌, ◌≡◌, refl, ap, ◌∙◌, Text, Bool, true, false, not, ◌&&◌, some, List, [], ◌∷◌, ◌==◌, nat_eq,
  nat_beq_iff, text_eq, text_beq_iff, text_ltb, text_ltb_irrefl, text_ltb_trans, text_ltb_total,
  if◌then◌else◌, bit, All, All-map, Bool-cases, inl, inr, arith, ==_comm, subst,
}
use u_actor.Prelude.Assoc.{lookup, lookup-insert}
use u_actor.Constraint.Predicates.{eq, predicate_beq_iff}
use u_actor.Constraint.{
  Constraint, Operand, monostate, text, number, real, group, operand, accepts_str, accepts_int,
  accepts_float, accepts_map, match_text,
}
use u_actor.Index.{
  SubscriptionCounter, Counter, ConstraintItem, ConstraintIndex, Probe, of_str, of_int, of_float,
  of_map, string_operand, key_of, item_key, or_zero, increment, bump, bump_all, accepts,
  check_string, check_fallback, check,
}

abbrev pub flag_beq : Bool → Bool → Bool
flag_beq true o = o
flag_beq false o = not o

abbrev pub pick : Bool → SubscriptionCounter → ℕ
pick true n = n.optional
pick false n = n.required

-- The count of a subscription in a counter, 0 if it has no entry.
unfoldable pub tally : ℕ → Bool → Counter → ℕ
tally sub opt counter = pick opt (or_zero (lookup sub counter))

-- How often a pair of a subscription and a flag stands in an item.
abbrev pub occurrences : ℕ → Bool → List (ℕ × Bool) → ℕ
occurrences sub opt [] = 0
occurrences sub opt ((s, o) ∷ rest) = bit (s == sub && flag_beq o opt) + occurrences sub opt rest

-- The pairs of a subscription in the items whose constraint passes a test.
abbrev pub weigh : (Constraint → Bool) → ℕ → Bool → List ConstraintItem → ℕ
weigh q sub opt [] = 0
weigh q sub opt (it ∷ rest) =
    (if q it.stored_constraint then occurrences sub opt it.relevant_subscriptions else 0)
    + weigh q sub opt rest

abbrev pub weigh_index : (Constraint → Bool) → ℕ → Bool → ConstraintIndex → ℕ
weigh_index q sub opt ix = weigh q sub opt ix.string_equal + weigh q sub opt ix.index

pick-increment :
    (o opt : Bool) (n : SubscriptionCounter)
    → pick opt (increment o n) ≡ pick opt n + bit (flag_beq o opt)
pick-increment true true n = omega arith
pick-increment true false n = omega arith
pick-increment false true n = omega arith
pick-increment false false n = omega arith

tally-bump :
    (s sub : ℕ) (o opt : Bool) (counter : Counter)
    → tally sub opt (bump s o counter) ≡ tally sub opt counter + bit (s == sub && flag_beq o opt)
unfolding tally bump
tally-bump s sub o opt counter = elim (Bool-cases (s == sub)) [
  | inl same ↦ rw (lookup-insert s sub (increment o (or_zero (lookup s counter))) counter) (
      rw same (
        pick-increment o opt (or_zero (lookup s counter))
        ∙ ap (λ k. pick opt (or_zero (lookup k counter)) + bit (flag_beq o opt))
            ((nat_beq_iff s sub).0 same)))
  | inr other ↦
      rw (lookup-insert s sub (increment o (or_zero (lookup s counter))) counter)
        (rw other (omega arith))
]

pub tally-bump_all :
    (subs : List (ℕ × Bool)) (sub : ℕ) (opt : Bool) (counter : Counter)
    → tally sub opt (bump_all subs counter) ≡ tally sub opt counter + occurrences sub opt subs
unfolding bump_all
tally-bump_all [] sub opt counter = omega arith
tally-bump_all ((s, o) ∷ rest) sub opt counter =
    omega (arith, tally-bump_all rest sub opt (bump s o counter), tally-bump s sub o opt counter)

tally-check_fallback :
    (value : Probe) (items : List ConstraintItem) (sub : ℕ) (opt : Bool) (counter : Counter)
    → tally sub opt (check_fallback value items counter)
      ≡ tally sub opt counter + weigh (λ c. accepts (operand c) value) sub opt items
unfolding check_fallback
tally-check_fallback value [] sub opt counter = omega arith
tally-check_fallback value (it ∷ rest) sub opt counter =
    elim (Bool-cases (accepts (operand it.stored_constraint) value)) [
      | inl hit ↦ rw hit (
          omega (
            arith,
            tally-check_fallback value rest sub opt (bump_all it.relevant_subscriptions counter),
            tally-bump_all it.relevant_subscriptions sub opt counter,
          ))
      | inr miss ↦ rw miss (omega (arith, tally-check_fallback value rest sub opt counter))
    ]

-- An item of the string index holds a constraint `== text`.
abbrev pub IsStringItem : ConstraintItem → Type 0
IsStringItem it = string_operand (operand it.stored_constraint) ≡ some (item_key it)

-- Every item has an operand above `v`.
abbrev pub Above : Text → List ConstraintItem → Type 0
Above v = All (λ it. text_ltb v (item_key it) ≡ true)

-- The operands rise strictly, as `lower_bound` needs.
abbrev pub Sorted : List ConstraintItem → Type 0
Sorted [] = Unit
Sorted (it ∷ rest) = Above (item_key it) rest × Sorted rest

pub record IsOrdered (ix : ConstraintIndex) : Type 0 where
  pub string_items : All IsStringItem ix.string_equal
  pub sorted : Sorted ix.string_equal

accepts-string :
    (o : Operand) (v : Text)
    → string_operand o ≡ some (key_of o)
    → accepts o (of_str v) ≡ (v == key_of o)
unfolding string_operand key_of accepts accepts_str match_text
accepts-string monostate v h = cc
accepts-string (text s p) v h =
    let is_eq : p ≡ eq = (predicate_beq_iff p eq).0 (ground arith) in rw is_eq refl
accepts-string (number n p) v h = cc
accepts-string (real x p) v h = cc
accepts-string (group cs p) v h = cc

weigh_none :
    (q : Constraint → Bool) (sub : ℕ) (opt : Bool) (items : List ConstraintItem)
    → All (λ it. q it.stored_constraint ≡ false) items
    → weigh q sub opt items ≡ 0
weigh_none q sub opt [] h = refl
weigh_none q sub opt (it ∷ rest) h = rw h.0 (rw (weigh_none q sub opt rest h.1) (omega arith))

below-ne : (v k : Text) → text_ltb v k ≡ true → (v == k) ≡ false
below-ne v k h = elim (Bool-cases (v == k)) [
  | inl same ↦ cc (text_ltb_irrefl k, (text_beq_iff v k).0 same)
  | inr other ↦ other
]

-- Items above `v` do not accept it.
Above-reject :
    (v : Text) (items : List ConstraintItem)
    → All IsStringItem items
    → Above v items
    → All (λ it. accepts (operand it.stored_constraint) (of_str v) ≡ false) items
Above-reject v [] s a = tt
Above-reject v (it ∷ rest) s a = (
  accepts-string (operand it.stored_constraint) v s.0 ∙ below-ne v (item_key it) a.0,
  Above-reject v rest s.1 a.1,
)

pub Above-trans :
    (v k : Text) (items : List ConstraintItem) → text_ltb v k ≡ true → Above k items → Above v items
Above-trans v k items h a = All-map (λ it b. text_ltb_trans v k (item_key it) h b) items a

tally-check_string :
    (v : Text) (items : List ConstraintItem) (sub : ℕ) (opt : Bool) (counter : Counter)
    → All IsStringItem items
    → Sorted items
    → tally sub opt (check_string v items counter)
      ≡ tally sub opt counter + weigh (λ c. accepts (operand c) (of_str v)) sub opt items
unfolding check_string
tally-check_string v [] sub opt counter s o = omega arith
tally-check_string v (it ∷ rest) sub opt counter s o =
    elim (Bool-cases (text_ltb (item_key it) v)) [
      | inl before ↦
          rw before
            (rw (reject before) (omega (arith, tally-check_string v rest sub opt counter s.1 o.1)))
      | inr reached ↦ elim (Bool-cases (item_key it == v)) [
        | inl here ↦
            rw (reached, here)
              (rw (accepts-string (operand it.stored_constraint) v s.0) (
                rw (==_comm v (item_key it) ∙ here) (
                  omega (
                    arith,
                    tally-bump_all it.relevant_subscriptions sub opt counter,
                    weigh_none q sub opt rest (
                        Above-reject v rest s.1
                          (subst_above ((text_beq_iff (item_key it) v).0 here))),
                  ))))
        | inr beyond ↦
            rw (reached, beyond)
              (omega (
                arith,
                weigh_none q sub opt (it ∷ rest)
                    (Above-reject v (it ∷ rest) s (all_above reached beyond)),
              ))
      ]
    ]
  where
    q : Constraint → Bool
    q c = accepts (operand c) (of_str v)

    reject :
        text_ltb (item_key it) v ≡ true → accepts (operand it.stored_constraint) (of_str v) ≡ false
    reject b =
        accepts-string (operand it.stored_constraint) v s.0
        ∙ ==_comm v (item_key it)
        ∙ below-ne (item_key it) v b

    subst_above : item_key it ≡ v → Above v rest
    subst_above e = subst (λ k. Above k rest) e o.0

    all_above : text_ltb (item_key it) v ≡ false → (item_key it == v) ≡ false → Above v (it ∷ rest)
    all_above r b =
        let up = text_ltb_total (item_key it) v r b in (up, Above-trans v (item_key it) rest up o.0)

-- A value that is no string passes no constraint of the string index.
accepts-other :
    (o : Operand) (value : Probe) (k : Text)
    → string_operand o ≡ some k
    → ((v : Text) → value ≡ of_str v → ⊥)
    → accepts o value ≡ false
unfolding string_operand accepts accepts_int accepts_float accepts_map
accepts-other o (of_str v) k h n = absurd (n v refl)
accepts-other (text s p) (of_int x) k h n = refl
accepts-other (text s p) (of_float x) k h n = refl
accepts-other (text s p) (of_map x) k h n = refl
accepts-other monostate value k h n = cc
accepts-other (number x p) value k h n = cc
accepts-other (real x p) value k h n = cc
accepts-other (group x p) value k h n = cc

string_items_reject :
    (value : Probe) (items : List ConstraintItem)
    → ((v : Text) → value ≡ of_str v → ⊥)
    → All IsStringItem items
    → All (λ it. accepts (operand it.stored_constraint) value ≡ false) items
string_items_reject value items n s =
    All-map (λ it h. accepts-other (operand it.stored_constraint) value (item_key it) h n) items s

tally-check_other :
    (value : Probe) (ix : ConstraintIndex) (sub : ℕ) (opt : Bool) (counter : Counter)
    → IsOrdered ix
    → ((v : Text) → value ≡ of_str v → ⊥)
    → tally sub opt (check_fallback value ix.index counter)
      ≡ tally sub opt counter + weigh_index (λ c. accepts (operand c) value) sub opt ix
tally-check_other value ix sub opt counter w n = omega (
  arith,
  tally-check_fallback value ix.index sub opt counter,
  weigh_none (λ c. accepts (operand c) value) sub opt ix.string_equal
      (string_items_reject value ix.string_equal n w.string_items),
)

-- The lookup by binary search together with the scan counts what a scan of every stored constraint
-- would: a check of a value adds to each count of each subscription the number of its pairs in
-- items whose constraint accepts the value, if the string index is sorted and holds only
-- constraints that compare a string for equality.
pub tally-check :
    (value : Probe) (ix : ConstraintIndex) (sub : ℕ) (opt : Bool) (counter : Counter)
    → IsOrdered ix
    → tally sub opt (check value ix counter)
      ≡ tally sub opt counter + weigh_index (λ c. accepts (operand c) value) sub opt ix
unfolding check
tally-check (of_str v) ix sub opt counter w = omega (
  arith,
  tally-check_fallback (of_str v) ix.index sub opt (check_string v ix.string_equal counter),
  tally-check_string v ix.string_equal sub opt counter w.string_items w.sorted,
)
tally-check (of_int x) ix sub opt counter w =
    tally-check_other (of_int x) ix sub opt counter w (λ v e. cc)
tally-check (of_float x) ix sub opt counter w =
    tally-check_other (of_float x) ix sub opt counter w (λ v e. cc)
tally-check (of_map x) ix sub opt counter w =
    tally-check_other (of_map x) ix sub opt counter w (λ v e. cc)
