-- ===== src/Remote/Processors/Cover.antt =====
-- What a processor announces to a peer covers the filter it was given.
use u_actor.Prelude.{
  ◌≡◌, ℕ, nat_eq, subst, refl, sym, ap, ◌∙◌, Text, Bool, true, false, not, ◌&&◌, Option, none, some,
  List, [], ◌∷◌, ◌==◌, text_eq, text_beq_iff, Bool-cases, inl, inr, &&_parts, codes, arith,
  if◌then◌else◌,
}
use u_actor.Publication.{str, Map, get_attr}
use u_actor.Constraint.Predicates.{eq, ne, predicate_beq, predicate_beq_iff}
use u_actor.Constraint.{
  Constraint, constraint, Operand, monostate, text, number, real, group, attribute, operand,
  predicate, accepts_str, match_text,
}
use u_actor.Filter.{Filter, make_filter, passes, check_required, check_optionals, matches}
use u_actor.Remote.Processors.{
  drops_node_local, holds_text, has_equality, get_text, node_id_filter, other_nodes_filter, Verdict,
  count_up, node_id_added, gateway_added, when_found,
}

-- A publication has a text under a name.
abbrev pub Names : Text → Text → Map → Type 0
Names key v p = get_attr key p ≡ some (str v)

-- A required constraint that passes holds of the text that the publication has.
pub required-passes :
    (a : Text) (o : Operand) (b : Bool) (cs : List Constraint) (key v : Text) (p : Map)
    → (a == key) ≡ true
    → Names key v p
    → check_required (constraint a o b ∷ cs) p ≡ true
    → accepts_str o v ≡ true
unfolding check_required passes
required-passes a o b cs key v p k n h =
    let e : get_attr a p ≡ some (str v) = ap (λ x. get_attr x p) ((text_beq_iff a key).0 k) ∙ n in
    (&&_parts (accepts_str o v) (check_required cs p) (rw e at h)).0

pub rest-passes :
    (c : Constraint) (cs : List Constraint) (p : Map)
    → check_required (c ∷ cs) p ≡ true
    → check_required cs p ≡ true
unfolding check_required
rest-passes c cs p h =
    (&&_parts (elim (get_attr (attribute c) p) [ none ↦ false | some v ↦ passes (operand c) v ])
      (check_required cs p) h).1

-- The round of the loop at a constraint on the attribute.
some_eq : {A : Type 0} (a b : A) → some a ≡ some b → a ≡ b
some_eq a b h = cc

abbrev round : (Text → Bool) → Operand → Bool → Option Bool → Option Bool
round test o equality rest = elim (get_text o) [
  | none ↦ none
  | some s ↦ if test s && equality then some true else rest
]

round-holds :
    (test : Text → Bool) (o : Operand) (a : Text) (b : Bool) (rest : Option Bool) (v : Text)
    → accepts_str o v ≡ true
    → round test o (predicate_beq (predicate (constraint a o b)) eq) rest ≡ some true
    → (rest ≡ some true → test v ≡ true)
    → test v ≡ true
unfolding accepts_str predicate
round-holds test monostate a b rest v accepted found others = cc
round-holds test (number n q) a b rest v accepted found others = cc
round-holds test (real n q) a b rest v accepted found others = cc
round-holds test (group n q) a b rest v accepted found others = cc
round-holds test (text s q) a b rest v accepted found others =
    elim (Bool-cases (test s && predicate_beq q eq)) [
      | inl both ↦ met (&&_parts (test s) (predicate_beq q eq) both)
      | inr fails ↦ others (rw fails at found)
    ]
  where
    met : (test s ≡ true) × (predicate_beq q eq ≡ true) → test v ≡ true
    met (t, e) = ap test (meets_eq ((predicate_beq_iff q eq).0 e)) ∙ t
      where
        meets_eq : q ≡ eq → v ≡ s
        meets_eq same =
            unfold match_text in
            (text_beq_iff v s).0 (sym (ap (λ r. match_text r v s) same) ∙ accepted)

-- An equality constraint that the loop finds is met by the text that the publication has.
pub has_equality-holds :
    (key : Text) (test : Text → Bool) (cs : List Constraint) (v : Text) (p : Map)
    → has_equality key test cs ≡ some true
    → Names key v p
    → check_required cs p ≡ true
    → test v ≡ true
unfolding has_equality
has_equality-holds key test [] v p f n h = cc f
has_equality-holds key test (constraint a o b ∷ cs) v p f n h = elim (Bool-cases (a == key)) [
  | inl k ↦
      round-holds test o a b (has_equality key test cs) v (required-passes a o b cs key v p k n h)
        (rw k at f)
        (λ g. has_equality-holds key test cs v p g n (rest-passes (constraint a o b) cs p h))
  | inr k ↦ has_equality-holds key test cs v p (rw k at f) n (rest-passes (constraint a o b) cs p h)
]

-- A filter of one constraint on a string attribute is matched by a text that the constraint accepts.
single-matches :
    (key : Text) (o : Operand) (v : Text) (p : Map)
    → Names key v p
    → accepts_str o v ≡ true
    → matches (make_filter (constraint key o false ∷ [])) p ≡ true
unfolding matches make_filter check_required check_optionals passes
single-matches key o v p n h = rw n (rw h refl)

pub matches-required :
    (f : Filter) (p : Map) → matches f p ≡ true → check_required f.required_constraints p ≡ true
unfolding matches
matches-required f p h = ground arith

-- The filter a peer knows for a filter that a counting processor has seen.
abbrev pub announced : Filter → Verdict → Filter
announced aggregate (dropped, f, n) = if dropped then aggregate else f

count_up-matches :
    (aggregate f : Filter) (n : ℕ) (p : Map)
    → matches aggregate p ≡ true
    → matches (announced aggregate (count_up aggregate f n)) p ≡ true
unfolding count_up
count_up-matches aggregate f n p h = elim (Bool-cases (n == 0)) [
  | inl first ↦ rw first h
  | inr later ↦ rw later h
]

pub counted-matches :
    (found : Option Bool) (aggregate f : Filter) (n : ℕ) (p : Map) (v : Verdict)
    → when_found found (false, f, n) (count_up aggregate f n) ≡ some v
    → matches f p ≡ true
    → (found ≡ some true → matches aggregate p ≡ true)
    → matches (announced aggregate v) p ≡ true
counted-matches none aggregate f n p v e h k = cc e
counted-matches (some true) aggregate f n p v e h k =
    subst (λ w. matches (announced aggregate w) p ≡ true) (some_eq (count_up aggregate f n) v e)
      (count_up-matches aggregate f n p (k refl))
counted-matches (some false) aggregate f n p v e h k =
    subst (λ w. matches (announced aggregate w) p ≡ true) (some_eq (false, f, n) v e) h

-- A publication that names a node and matches a filter given to the aggregator of node ids also
-- matches what the peer is told: the filter itself, or the aggregate if the filter was counted.
pub node_id_added-matches :
    (node : Text) (f : Filter) (n : ℕ) (p : Map) (v : Verdict) (s : Text)
    → node_id_added node f n ≡ some v
    → Names (codes "node_id") s p
    → matches f p ≡ true
    → matches (announced (node_id_filter node) v) p ≡ true
unfolding node_id_added
node_id_added-matches node f n p v s e names h =
    counted-matches _ (node_id_filter node) f n p v e h (λ found.
      let same : (s == node) ≡ true =
        has_equality-holds (codes "node_id") (λ x. x == node) f.required_constraints s p found names
          (matches-required f p h) in
      unfold node_id_filter accepts_str match_text in
      single-matches (codes "node_id") (text node eq) s p names same)

-- A publication that names a node and matches a filter given to the gateway of a leaf also matches
-- what the peer is told: the filter itself, or the filter for all other nodes if it was counted.
pub gateway_added-matches :
    (node : Text) (f : Filter) (n : ℕ) (p : Map) (v : Verdict) (s : Text)
    → gateway_added node f n ≡ some v
    → Names (codes "node_id") s p
    → matches f p ≡ true
    → matches (announced (other_nodes_filter node) v) p ≡ true
unfolding gateway_added
gateway_added-matches node f n p v s e names h =
    counted-matches _ (other_nodes_filter node) f n p v e h (λ found.
      let other : not (s == node) ≡ true =
        has_equality-holds (codes "node_id") (λ x. not (x == node)) f.required_constraints s p found
          names (matches-required f p h) in
      unfold other_nodes_filter accepts_str match_text in
      single-matches (codes "node_id") (text node ne) s p names other)

-- A string operand that equals a text, with the predicate of equality, accepts that text alone.
holds_text-accepts :
    (o : Operand) (a : Text) (b : Bool) (node v : Text)
    → holds_text o node ≡ true
    → predicate_beq (predicate (constraint a o b)) eq ≡ true
    → accepts_str o v ≡ true
    → v ≡ node
unfolding predicate accepts_str
holds_text-accepts monostate a b node v h q k = cc h
holds_text-accepts (number n p) a b node v h q k = cc h
holds_text-accepts (real n p) a b node v h q k = cc h
holds_text-accepts (group n p) a b node v h q k = cc h
holds_text-accepts (text s p) a b node v h q k =
    (text_beq_iff v s).0 (equal ((predicate_beq_iff p eq).0 q)) ∙ (text_beq_iff s node).0 h
  where
    equal : p ≡ eq → (v == s) ≡ true
    equal e = unfold match_text in sym (ap (λ r. match_text r v s) e) ∙ k

drops_node_local-Names :
    (node : Text) (cs : List Constraint) (v : Text) (p : Map)
    → drops_node_local node cs ≡ true
    → Names (codes "publisher_node_id") v p
    → check_required cs p ≡ true
    → v ≡ node
unfolding drops_node_local
drops_node_local-Names node [] v p h n k = cc h
drops_node_local-Names node (constraint a o b ∷ cs) v p h n k = elim (Bool-cases (own a o b)) [
  | inl e ↦
      let outer = &&_parts (a == codes "publisher_node_id") (local_test a o b) e in
      let inner = &&_parts (holds_text o node) (is_eq a o b) outer.1 in
      holds_text-accepts o a b node v inner.0 inner.1
        (required-passes a o b cs (codes "publisher_node_id") v p outer.0 n k)
  | inr e ↦ drops_node_local-Names node cs v p (rw e at h) n (rest-passes (constraint a o b) cs p k)
]
  where
    is_eq : Text → Operand → Bool → Bool
    is_eq x u y = predicate_beq (predicate (constraint x u y)) eq

    local_test : Text → Operand → Bool → Bool
    local_test x u y = holds_text u node && predicate_beq (predicate (constraint x u y)) eq

    own : Text → Operand → Bool → Bool
    own x u y =
        (x == codes "publisher_node_id")
        && (holds_text u node && predicate_beq (predicate (constraint x u y)) eq)

-- A filter that `NodeLocalFilterDrop` withholds from a peer matches no publication of another node: a
-- publication that names its publisher's node and matches the filter names the local node.
pub drops_node_local-matches :
    (node : Text) (f : Filter) (v : Text) (p : Map)
    → drops_node_local node f.required_constraints ≡ true
    → Names (codes "publisher_node_id") v p
    → matches f p ≡ true
    → v ≡ node
drops_node_local-matches node f v p h n k =
    drops_node_local-Names node f.required_constraints v p h n (matches-required f p k)
