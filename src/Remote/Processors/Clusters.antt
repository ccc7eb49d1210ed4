-- ===== src/Remote/Processors/Clusters.antt =====
-- What the aggregator of clusters announces to a peer covers the filter it was given.
use u_actor.Prelude.{
  ℕ, ◌≡◌, refl, sym, ap, ◌∙◌, Text, Bool, true, false, ◌&&◌, Option, none, some, List, [], ◌∷◌,
  ◌==◌, text_eq, text_beq, All, Bool-cases, inl, inr, if◌then◌else◌,
}
use u_actor.Publication.{Map}
use u_actor.Constraint.Predicates.{eq}
use u_actor.Constraint.{constraint, text, Constraint, accepts_str, match_text}
use u_actor.Filter.{Filter, make_filter, check_required, check_optionals, matches, passes}
use u_actor.Remote.Processors.{
  ClusterLabels, has_equality, has_labels, label_constraints, label_filter, same_cluster,
  cluster_added, Verdict,
}
use u_actor.Remote.Processors.Cover.{
  Names, has_equality-holds, matches-required, counted-matches, announced,
}

-- A publication has a text, given by a function, for the key of every label.
abbrev pub NamesAll : (Text → Text) → Map → ClusterLabels → Type 0
NamesAll value p labels = All (λ label. Names label.0 (value label.0) p) labels

-- One round of the loop over the labels.
abbrev label_round : Option Bool → Option Bool → Option Bool
label_round none rest = none
label_round (some true) rest = rest
label_round (some false) rest = some false

both_found :
    (found rest : Option Bool)
    → label_round found rest ≡ some true
    → (found ≡ some true) × (rest ≡ some true)
both_found none rest h = cc h
both_found (some true) rest h = (refl, h)
both_found (some false) rest h = cc h

has_labels-round :
    (key mine theirs : Text) (labels : ClusterLabels) (cs : List Constraint)
    → has_labels ((key, (mine, theirs)) ∷ labels) cs
      ≡ label_round (has_equality key (λ s. s == mine) cs) (has_labels labels cs)
unfolding has_labels
has_labels-round key mine theirs labels cs = same (has_equality key (λ s. s == mine) cs)
  where
    same :
        (found : Option Bool)
        → elim found as (λ _. Option Bool) [
          | none ↦ none
          | some found ↦ if found then has_labels labels cs else some false
        ]
          ≡ label_round found (has_labels labels cs)
    same none = refl
    same (some true) = refl
    same (some false) = refl

-- The local labels are met by a publication that passes a filter which asks for all of them.
labels-required :
    (labels : ClusterLabels) (cs : List Constraint) (value : Text → Text) (p : Map)
    → has_labels labels cs ≡ some true
    → NamesAll value p labels
    → check_required cs p ≡ true
    → check_required (label_constraints labels) p ≡ true
unfolding label_constraints check_required passes text_beq accepts_str match_text
labels-required [] cs value p h n k = refl
labels-required ((key, (mine, theirs)) ∷ labels) cs value p h n k =
    let found =
      both_found (has_equality key (λ s. s == mine) cs) (has_labels labels cs)
        (sym (has_labels-round key mine theirs labels cs) ∙ h) in
    let met : (value key == mine) ≡ true =
      has_equality-holds key (λ s. s == mine) cs (value key) p found.0 n.0 k in
    rw n.0 (conj met (labels-required labels cs value p found.1 n.1 k))
  where
    conj : {x y : Bool} → x ≡ true → y ≡ true → (x && y) ≡ true
    conj e f = rw e f

label_filter-parts :
    (labels : ClusterLabels)
    → (((label_filter labels).required_constraints ≡ label_constraints labels)
        × ((label_filter labels).optional_constraints ≡ []))
unfolding label_filter label_constraints make_filter
label_filter-parts [] = (refl, refl)
label_filter-parts ((key, (mine, theirs)) ∷ labels) = (
  ap (λ cs. constraint key (text mine eq) false ∷ cs) (label_filter-parts labels).0,
  (label_filter-parts labels).1,
)

label_filter-matches :
    (labels : ClusterLabels) (p : Map)
    → check_required (label_constraints labels) p ≡ true
    → matches (label_filter labels) p ≡ true
unfolding matches
label_filter-matches labels p h =
    rw ((label_filter-parts labels).0, (label_filter-parts labels).1)
      (rw h (unfold check_optionals in refl))

-- A publication that has a text for the key of every cluster label and matches a filter given to the
-- aggregator of clusters also matches what the peer is told: the filter itself, or, if it was counted,
-- the filter for the local labels.
pub cluster_added-matches :
    (labels : ClusterLabels) (f : Filter) (n : ℕ) (p : Map) (v : Verdict) (value : Text → Text)
    → cluster_added labels f n ≡ some v
    → NamesAll value p labels
    → matches f p ≡ true
    → matches (announced (label_filter labels) v) p ≡ true
unfolding cluster_added
cluster_added-matches labels f n p v value e names h = elim (Bool-cases (same_cluster labels)) [
  | inl same ↦
      counted-matches (some false) (label_filter labels) f n p v (rw same at e) h (λ c. cc c)
  | inr other ↦
      counted-matches (has_labels labels f.required_constraints) (label_filter labels) f n p v
        (rw other at e) h
        (λ found. label_filter-matches labels p (
          labels-required labels f.required_constraints value p found names
            (matches-required f p h)))
]
