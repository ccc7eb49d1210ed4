-- ===== src/Router/Matching/Counting.antt =====
-- After the loop over the attributes of a publication, the count of a subscription is the number of
-- its pairs in index items whose constraint the publication satisfies.
use u_actor.Prelude.{
  ℕ, ◌+◌, ◌≡◌, refl, sym, ap, ◌∙◌, subst, Text, Bool, false, Option, none, some, List, [], ◌∷◌,
  ◌==◌, text_eq, text_beq_iff, All, All-map, Bool-cases, inl, inr, arith, ==_comm,
}
use mathlib.Core.Path.{fun_ext}
use u_actor.Prelude.Assoc.{lookup, Unique}
use u_actor.Publication.{Value, Map, empty, entry, entries, get_attr}
use u_actor.Publication
use u_actor.Constraint.{Constraint, attribute, operand, Operand}
use u_actor.Index.{Counter, ConstraintItem, ConstraintIndex, Probe, accepts, check}
use u_actor.Index.Tally.{tally, tally-check, weigh, weigh_index, IsOrdered}
use u_actor.Index.Insertion.{IsIndexOf}
use u_actor.Router.{probe, count_attribute, count_matches}

-- Whether a value is accepted by a constraint in the index; a binary value never is.
unfoldable pub accepts_value : Operand → Value → Bool
accepts_value o v = elim (probe v) [ none ↦ false | some value ↦ accepts o value ]

abbrev pub accepted : Operand → Option Value → Bool
accepted o none = false
accepted o (some v) = accepts_value o v

-- The publication has the attribute of the constraint, with a value that the constraint accepts.
unfoldable pub satisfied : Map → Constraint → Bool
satisfied p c = accepted (operand c) (get_attr (attribute c) p)

satisfied-empty : (c : Constraint) → satisfied empty c ≡ false
unfolding satisfied get_attr
satisfied-empty c = refl

-- The pairs of a subscription in the whole index.
abbrev pub weigh_all : (Constraint → Bool) → ℕ → Bool → List (Text × ConstraintIndex) → ℕ
weigh_all q sub opt [] = 0
weigh_all q sub opt ((a, ix) ∷ rest) = weigh_index q sub opt ix + weigh_all q sub opt rest

-- Every index is in order and stands under its attribute.
abbrev pub AreIndexes : List (Text × ConstraintIndex) → Type 0
AreIndexes [] = Unit
AreIndexes ((a, ix) ∷ rest) = IsIndexOf a ix × AreIndexes rest

weigh-cong :
    (q t : Constraint → Bool) (sub : ℕ) (opt : Bool) (items : List ConstraintItem)
    → All (λ it. q it.stored_constraint ≡ t it.stored_constraint) items
    → weigh q sub opt items ≡ weigh t sub opt items
weigh-cong q t sub opt [] h = refl
weigh-cong q t sub opt (it ∷ rest) h = rw (h.0, weigh-cong q t sub opt rest h.1)

weigh_index-cong :
    (a : Text) (q t : Constraint → Bool) (sub : ℕ) (opt : Bool) (ix : ConstraintIndex)
    → IsIndexOf a ix
    → ((c : Constraint) → attribute c ≡ a → q c ≡ t c)
    → weigh_index q sub opt ix ≡ weigh_index t sub opt ix
weigh_index-cong a q t sub opt ix w h = omega (
  arith,
  weigh-cong q t sub opt ix.string_equal
      (All-map (λ it e. h it.stored_constraint e) ix.string_equal w.string_on),
  weigh-cong q t sub opt ix.index (All-map (λ it e. h it.stored_constraint e) ix.index w.index_on),
)

weigh-false :
    (sub : ℕ) (opt : Bool) (items : List ConstraintItem) → weigh (λ _. false) sub opt items ≡ 0
weigh-false sub opt [] = refl
weigh-false sub opt (it ∷ rest) = omega (arith, weigh-false sub opt rest)

-- What one attribute of a publication contributes.
abbrev contribution : Text → Value → ℕ → Bool → List (Text × ConstraintIndex) → ℕ
contribution a v sub opt constraints = elim (lookup a constraints) [
  | none ↦ 0
  | some ix ↦ weigh_index (λ c. accepts_value (operand c) v) sub opt ix
]

weigh_index-false :
    (sub : ℕ) (opt : Bool) (ix : ConstraintIndex) → weigh_index (λ _. false) sub opt ix ≡ 0
weigh_index-false sub opt ix =
    omega (arith, weigh-false sub opt ix.string_equal, weigh-false sub opt ix.index)

abbrev pub OrderedAt : Option ConstraintIndex → Type 0
OrderedAt none = Unit
OrderedAt (some ix) = IsOrdered ix

lookup-ordered :
    (a : Text) (constraints : List (Text × ConstraintIndex))
    → AreIndexes constraints
    → OrderedAt (lookup a constraints)
unfolding lookup
lookup-ordered a [] w = tt
lookup-ordered a ((b, ix) ∷ rest) w = elim (Bool-cases (b == a)) [
  | inl e ↦ rw e w.0.ordered
  | inr e ↦ rw e (lookup-ordered a rest w.1)
]

tally-count_attribute :
    (constraints : List (Text × ConstraintIndex)) (a : Text) (v : Value) (sub : ℕ) (opt : Bool)
    (counter : Counter)
    → AreIndexes constraints
    → tally sub opt (count_attribute constraints a v counter)
      ≡ tally sub opt counter + contribution a v sub opt constraints
unfolding count_attribute accepts_value
tally-count_attribute constraints a v sub opt counter w =
    go (lookup a constraints) (probe v) (lookup-ordered a constraints w)
  where
    go :
        (found : Option ConstraintIndex) (o : Option Probe)
        → OrderedAt found
        → tally sub opt (elim found [
          | none ↦ counter
          | some ix ↦ elim o [ none ↦ counter | some value ↦ check value ix counter ]
        ])
          ≡ tally sub opt counter + (elim found [
            | none ↦ 0
            | some ix ↦
                weigh_index
                  (λ c. elim o [ none ↦ false | some value ↦ accepts (operand c) value ])
                  sub
                  opt
                  ix
          ])
    go none o h = omega arith
    go (some ix) none h = omega (arith, weigh_index-false sub opt ix)
    go (some ix) (some value) h = tally-check value ix sub opt counter h

module _ (k : Text) (v : Value) (m : Map) (sub : ℕ) (opt : Bool) where
  -- On another attribute the new entry changes nothing.
  satisfied-other :
      (c : Constraint) → (k == attribute c) ≡ false → satisfied (entry k v m) c ≡ satisfied m c
  unfolding satisfied get_attr
  satisfied-other c h = rw h refl

  satisfied-here :
      (c : Constraint) → attribute c ≡ k → satisfied (entry k v m) c ≡ accepts_value (operand c) v
  unfolding satisfied get_attr
  satisfied-here c h = rw ((text_beq_iff k (attribute c)).1 (sym h)) refl

  satisfied-none : (c : Constraint) → get_attr k m ≡ none → attribute c ≡ k → satisfied m c ≡ false
  unfolding satisfied
  satisfied-none c absent h =
      ap (λ a. accepted (operand c) (get_attr a m)) h ∙ ap (accepted (operand c)) absent

  weigh_index-other :
      (a : Text) (ix : ConstraintIndex)
      → IsIndexOf a ix
      → (a == k) ≡ false
      → weigh_index (satisfied (entry k v m)) sub opt ix ≡ weigh_index (satisfied m) sub opt ix
  weigh_index-other a ix w h =
      weigh_index-cong a (satisfied (entry k v m)) (satisfied m) sub opt ix w (λ c e.
        satisfied-other c (==_comm k (attribute c) ∙ subst (λ b. (b == k) ≡ false) (sym e) h))

  weigh_all-other :
      (constraints : List (Text × ConstraintIndex))
      → AreIndexes constraints
      → lookup k constraints ≡ none
      → weigh_all (satisfied (entry k v m)) sub opt constraints
        ≡ weigh_all (satisfied m) sub opt constraints
  unfolding lookup
  weigh_all-other [] w h = refl
  weigh_all-other ((a, ix) ∷ rest) w h = elim (Bool-cases (a == k)) [
    | inl e ↦ absurd (ground arith)
    | inr e ↦ omega (arith, weigh_index-other a ix w.0 e, weigh_all-other rest w.1 (rw e at h))
  ]

  -- A new attribute adds its contribution.
  weigh_all-entry :
      (constraints : List (Text × ConstraintIndex))
      → AreIndexes constraints
      → Unique constraints
      → get_attr k m ≡ none
      → weigh_all (satisfied (entry k v m)) sub opt constraints
        ≡ contribution k v sub opt constraints + weigh_all (satisfied m) sub opt constraints
  unfolding lookup
  weigh_all-entry [] w u absent = omega arith
  weigh_all-entry ((a, ix) ∷ rest) w u absent = elim (Bool-cases (a == k)) [
    | inl e ↦
        let same : a ≡ k = (text_beq_iff a k).0 e in
        rw (e, contribution, lookup)
          (omega (
            arith,
            weigh_index-cong a (satisfied (entry k v m)) (λ c. accepts_value (operand c) v) sub opt
                ix w.0 (λ c on_a. satisfied-here c (on_a ∙ same)),
            weigh_index-cong a (satisfied m) (λ c. false) sub opt ix w.0
                (λ c on_a. satisfied-none c absent (on_a ∙ same)),
            weigh_index-false sub opt ix,
            weigh_all-other rest w.1 (subst (λ b. lookup b rest ≡ none) same u.0),
          ))
    | inr e ↦
        rw (e, contribution, lookup)
          (omega (arith, weigh_index-other a ix w.0 e, weigh_all-entry rest w.1 u.1 absent))
  ]

weigh-none :
    (sub : ℕ) (opt : Bool) (constraints : List (Text × ConstraintIndex))
    → weigh_all (λ _. false) sub opt constraints ≡ 0
weigh-none sub opt [] = refl
weigh-none sub opt ((a, ix) ∷ rest) =
    omega (arith, weigh_index-false sub opt ix, weigh-none sub opt rest)

-- Counting the attributes of a publication one by one gives each subscription the number of its
-- pairs in items whose constraint the publication satisfies, on top of what was counted before, if
-- the publication and the index have distinct keys and each index is in order.
pub tally-count_matches :
    (constraints : List (Text × ConstraintIndex)) (p : Map) (sub : ℕ) (opt : Bool)
    (counter : Counter)
    → AreIndexes constraints
    → Unique constraints
    → Publication.Unique p
    → tally sub opt (count_matches constraints (entries p) counter)
      ≡ tally sub opt counter + weigh_all (satisfied p) sub opt constraints
unfolding count_matches entries
tally-count_matches constraints empty sub opt counter w u d = omega (arith, weigh_empty)
  where
    weigh_empty : weigh_all (satisfied empty) sub opt constraints ≡ 0
    weigh_empty = rw (fun_ext satisfied-empty) (weigh-none sub opt constraints)
tally-count_matches constraints (entry k v m) sub opt counter w u d = omega (
  arith,
  tally-count_matches constraints m sub opt (count_attribute constraints k v counter) w u d.1,
  tally-count_attribute constraints k v sub opt counter w,
  weigh_all-entry k v m sub opt constraints w u d.0,
)
