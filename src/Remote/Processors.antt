-- ===== src/Remote/Processors.antt =====
-- What is announced to a peer: uActor/include/remote/subscription_processors. A processor returns
-- whether the filter is dropped, the filter that takes its place otherwise, and its new state;
-- `none` is the `bad_variant_access` of `std::get` on an operand that is no string.
pub mod Cover
pub mod Balance
pub mod Clusters
use u_actor.Prelude.{
  ℕ, ◌+◌, ◌-◌, ◌^◌, ◌%◌, Text, Bool, true, false, not, ◌&&◌, ◌||◌, Option, none, some, List, [],
  ◌∷◌, ◌==◌, text_eq, nat_eq, if◌then◌else◌, codes, all, map,
}
use u_actor.Constraint.Predicates.{Predicate, eq, ne, predicate_beq}
use u_actor.Constraint.{Constraint, Operand, constraint, text, attribute, operand, predicate}
use u_actor.Filter.{Filter, make_filter}
use u_actor.Arguments.{SubscriptionArguments, Scope, local, cluster, scope_beq}

-- `std::get<std::string_view>`
abbrev pub get_text : Operand → Option Text
get_text (text s p) = some s
get_text _ = none

-- `std::holds_alternative<std::string_view>`, with the comparison that follows it.
abbrev pub holds_text : Operand → Text → Bool
holds_text (text s p) t = s == t
holds_text _ t = false

-- `NodeLocalFilterDrop`: both methods.
unfoldable pub drops_node_local : Text → List Constraint → Bool
drops_node_local node [] = false
drops_node_local node (c ∷ cs) =
    ((attribute c == codes "publisher_node_id")
      && (holds_text (operand c) node && predicate_beq (predicate c) eq))
    || drops_node_local node cs

-- The loop of `has_equality_constraint`, and of the processors for node ids: the first constraint on
-- an attribute whose operand passes a test and whose predicate is equality.
unfoldable pub has_equality : Text → (Text → Bool) → List Constraint → Option Bool
has_equality key test [] = some false
has_equality key test (c ∷ cs) =
    let rest = has_equality key test cs in
    if attribute c == key
    then (elim (get_text (operand c)) [
      | none ↦ none
      | some s ↦ if test s && predicate_beq (predicate c) eq then some true else rest
    ])
    else rest

-- What a processor leaves: whether the filter is dropped, the filter, and the count.
abbrev pub Verdict : Type 0
Verdict = Bool × Filter × ℕ

-- `count++ == 0` on a `uint32_t`: the first filter is replaced, others are dropped.
unfoldable pub count_up : Filter → Filter → ℕ → Verdict
count_up aggregate f n =
    if n == 0 then (false, aggregate, (n + 1) % 2 ^ 32) else (true, f, (n + 1) % 2 ^ 32)

-- `--count == 0` on a `uint32_t`: the last filter is replaced, others are dropped.
unfoldable pub count_down : Filter → Filter → ℕ → Verdict
count_down aggregate f n =
    let left = (n + (2 ^ 32 - 1)) % 2 ^ 32 in
    if left == 0 then (false, aggregate, left) else (true, f, left)

abbrev pub when_found : Option Bool → Verdict → Verdict → Option Verdict
when_found none other verdict = none
when_found (some true) other verdict = some verdict
when_found (some false) other verdict = some other

unfoldable pub node_id_filter : Text → Filter
node_id_filter node = make_filter (constraint (codes "node_id") (text node eq) false ∷ [])

unfoldable pub other_nodes_filter : Text → Filter
other_nodes_filter node = make_filter (constraint (codes "node_id") (text node ne) false ∷ [])

-- `NodeIdAggregator`
unfoldable pub node_id_added : Text → Filter → ℕ → Option Verdict
unfolding has_equality node_id_filter count_up
node_id_added node f n =
    when_found (has_equality (codes "node_id") (λ s. s == node) f.required_constraints)
      (false, f, n) (count_up (node_id_filter node) f n)

unfoldable pub node_id_removed : Text → Filter → ℕ → Option Verdict
unfolding has_equality node_id_filter count_down
node_id_removed node f n =
    when_found (has_equality (codes "node_id") (λ s. s == node) f.required_constraints)
      (false, f, n) (count_down (node_id_filter node) f n)

-- `LeafNodeIdGateway`
unfoldable pub gateway_added : Text → Filter → ℕ → Option Verdict
unfolding has_equality other_nodes_filter count_up
gateway_added node f n =
    when_found (has_equality (codes "node_id") (λ s. not (s == node)) f.required_constraints)
      (false, f, n) (count_up (other_nodes_filter node) f n)

unfoldable pub gateway_removed : Text → Filter → ℕ → Option Verdict
unfolding has_equality other_nodes_filter count_down
gateway_removed node f n =
    when_found (has_equality (codes "node_id") (λ s. not (s == node)) f.required_constraints)
      (false, f, n) (count_down (other_nodes_filter node) f n)

-- `ClusterLabels`: key, local label, remote label.
abbrev pub ClusterLabels : Type 0
ClusterLabels = List (Text × (Text × Text))

-- `same_cluster`, which the constructors of the two cluster processors compute.
unfoldable pub same_cluster : ClusterLabels → Bool
same_cluster labels = all (λ label. label.1.0 == label.1.1) labels

-- The loop that asks for every local label; it stops at the first that is not there.
unfoldable pub has_labels : ClusterLabels → List Constraint → Option Bool
unfolding has_equality
has_labels [] cs = some true
has_labels ((key, (mine, theirs)) ∷ labels) cs =
    let rest = has_labels labels cs in
    elim (has_equality key (λ s. s == mine) cs) [
      | none ↦ none
      | some found ↦ if found then rest else some false
    ]

unfoldable pub label_constraints : ClusterLabels → List Constraint
label_constraints [] = []
label_constraints ((key, (mine, theirs)) ∷ labels) =
    constraint key (text mine eq) false ∷ label_constraints labels

unfoldable pub label_filter : ClusterLabels → Filter
unfolding label_constraints
label_filter labels = make_filter (label_constraints labels)

-- `ClusterAggregator`
unfoldable pub cluster_added : ClusterLabels → Filter → ℕ → Option Verdict
unfolding same_cluster has_labels label_filter count_up
cluster_added labels f n =
    if same_cluster labels
    then some (false, f, n)
    else when_found (has_labels labels f.required_constraints) (false, f, n)
        (count_up (label_filter labels) f n)

unfoldable pub cluster_removed : ClusterLabels → Filter → ℕ → Option Verdict
unfolding same_cluster has_labels label_filter count_down
cluster_removed labels f n =
    if same_cluster labels
    then some (false, f, n)
    else when_found (has_labels labels f.required_constraints) (false, f, n)
        (count_down (label_filter labels) f n)

-- `ClusterBarrier`: both methods.
has_key_equality : Text → List Constraint → Bool
has_key_equality key [] = false
has_key_equality key (c ∷ cs) =
    ((attribute c == key) && predicate_beq (predicate c) eq) || has_key_equality key cs

has_drop_key : List Text → List Constraint → Bool
unfolding has_key_equality
has_drop_key [] cs = false
has_drop_key (key ∷ keys) cs = has_key_equality key cs || has_drop_key keys cs

unfoldable pub drops_at_barrier : ClusterLabels → List Text → Filter → Bool
unfolding same_cluster has_drop_key
drops_at_barrier labels keys f =
    if not (same_cluster labels) then has_drop_key keys f.required_constraints else false

-- `ScopeLocal`: both methods.
unfoldable pub drops_local_scope : SubscriptionArguments → Bool
drops_local_scope args = scope_beq args.scope local

-- `ScopeCluster`: both methods, with the field that its constructor computes.
unfoldable pub drops_cluster_scope : Text → Text → SubscriptionArguments → Bool
drops_cluster_scope local_cluster peer_cluster args =
    scope_beq args.scope cluster && not (local_cluster == peer_cluster)
