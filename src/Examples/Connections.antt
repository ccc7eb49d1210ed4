-- ===== src/Examples/Connections.antt =====
-- The theorems about the connections to other nodes and the store of code at concrete inputs.
use u_actor.Prelude.{
  ℕ, zero, text_beq, text_eq, arith, ◌≡◌, ◌+◌, refl, ◌↔◌, Text, Bool, true, false, not, Option,
  none, some, List, [], ◌∷◌, ◌++◌, ◌==◌, nat_eq, codes, bit, if◌then◌else◌,
}
use u_actor.Prelude.Assoc.{lookup}
use u_actor.Publication.{Map, empty, entry, str, get_attr}
use u_actor.Constraint.Predicates.{eq, predicate_beq}
use u_actor.Constraint.{constraint, text, predicate, accepts_str, match_text}
use u_actor.Filter.{Filter, matches, check_required, check_optionals, passes}
use u_actor.Remote.Writing.{room, Connection}
use u_actor.Remote.Writing.Streaming.{
  Operation, writing, ready, operate_all, pending, IsPlaced, operate_all-stream,
}
use u_actor.Remote.Framer.{new_framer, process_data}
use u_actor.Remote.Framer.Stream.{IsFraming, reading, feed}
use u_actor.Remote.Framer.Delivery.{
  wire, deliveries, process_data-feed, process_data-append, process_data-wire,
}
use u_actor.Remote.Forwarding.{is_older_than, add_incomming_routing_fields, should_forward}
use u_actor.Remote.Forwarding.Order.{Message, pass, after_all, advance-once}
use u_actor.Remote.Forwarding.Routes.{
  IsRoute, add_incomming_routing_fields-IsRoute, should_forward-IsRoute,
}
use u_actor.Remote.Processors.Clusters.{cluster_added-matches}
use u_actor.Remote.Processors.{
  ClusterLabels, label_filter, same_cluster, has_labels, cluster_added, drops_node_local,
  has_equality, count_up, node_id_added, node_id_filter, gateway_added, other_nodes_filter, Verdict,
}
use u_actor.Remote.Processors.Cover.{
  drops_node_local-matches, announced, node_id_added-matches, gateway_added-matches,
}
use u_actor.Remote.Processors.Balance.{run, run-balance}
use u_actor.CodeStore.{
  CodeIdentifier, CodePacket, identifier_eq, Store, retrieve, insert_or_refresh, cleanup,
}
use u_actor.CodeStore.Laws.{kept, IsAlive, retrieve-insert_or_refresh, cleanup_iff}

-- A decoder that refuses contents that begin with 0.
abbrev build : List ℕ → Option Map
build (zero ∷ rest) = none
build rest = some (entry (codes "body") (str rest) empty)

abbrev half : List ℕ
half = 0 ∷ 0 ∷ []

abbrev other_half : List ℕ
other_half = 0 ∷ 2 ∷ 65 ∷ 66 ∷ []

process_data-feed_example :
    IsFraming build (process_data build new_framer half).0
    × ((
      reading build (process_data build new_framer half).0,
      (process_data build new_framer half).1,
    )
        ≡ feed build (reading build new_framer) half)
unfolding new_framer
process_data-feed_example = process_data-feed build new_framer half (refl, refl)

process_data-append_example :
    (process_data build new_framer (half ++ other_half)).1
    ≡ (process_data build new_framer half).1
      ++ (process_data build (process_data build new_framer half).0 other_half).1
unfolding new_framer
process_data-append_example = process_data-append build new_framer half other_half (refl, refl)

process_data-wire_example :
    (process_data build new_framer (wire ((65 ∷ 66 ∷ []) ∷ [] ∷ (67 ∷ []) ∷ []))).1
    ≡ deliveries build ((65 ∷ 66 ∷ []) ∷ [] ∷ (67 ∷ []) ∷ [])
process_data-wire_example =
    process_data-wire build ((65 ∷ 66 ∷ []) ∷ [] ∷ (67 ∷ []) ∷ [])
      (omega arith, (omega arith, (omega arith, tt)))

abbrev peer : Text
peer = codes "n2"

abbrev sent : Message
sent = record { node = codes "n2"; number = 4; epoch = 7; time = 100 }

abbrev other_sent : Message
other_sent = record { node = codes "n3"; number = 1; epoch = 1; time = 101 }

-- The same message over another connection, later.
abbrev repeated : Message
repeated = record { node = codes "n2"; number = 4; epoch = 7; time = 140 }

advance-once_example : (pass repeated (after_all (other_sent ∷ []) (pass sent []).1)).0 ≡ false
unfolding is_older_than
advance-once_example = advance-once sent repeated (other_sent ∷ []) [] refl refl

abbrev travelled : Map
travelled = entry (codes "_internal_forwarded_by") (str (codes "n3,n2")) empty

add_incomming_routing_fields-IsRoute_example :
    (q : Map) × (add_incomming_routing_fields peer travelled ≡ some q)
    × IsRoute ((codes "n3" ∷ codes "n2" ∷ []) ++ peer ∷ []) q
unfolding get_attr text_beq
add_incomming_routing_fields-IsRoute_example =
    add_incomming_routing_fields-IsRoute peer (codes "n3" ∷ codes "n2" ∷ []) travelled (refl, tt)
      refl

should_forward-IsRoute_example : should_forward peer 5 travelled [] ≡ some (false, [])
unfolding get_attr text_beq
should_forward-IsRoute_example =
    should_forward-IsRoute peer (codes "n3" ∷ codes "n2" ∷ []) 5 travelled [] refl refl refl refl
      refl

abbrev to_peer : Filter
to_peer = record {
  required_constraints = constraint (codes "node_id") (text (codes "n2") eq) false ∷ [];
  optional_constraints = [];
}

abbrev addressed : Map
addressed = entry (codes "node_id") (str (codes "n2")) empty

abbrev dropped : Verdict
dropped = (true, to_peer, 4)

node_id_added-matches_example : matches (announced (node_id_filter peer) dropped) addressed ≡ true
unfolding node_id_added has_equality count_up get_attr text_beq matches check_required
    check_optionals passes accepts_str match_text predicate predicate_beq
node_id_added-matches_example =
    node_id_added-matches peer to_peer 3 addressed dropped (codes "n2") refl refl refl

gateway_added-matches_example :
    matches (announced (other_nodes_filter (codes "n1")) dropped) addressed ≡ true
unfolding gateway_added has_equality count_up get_attr text_beq matches check_required
    check_optionals passes accepts_str match_text predicate predicate_beq
gateway_added-matches_example =
    gateway_added-matches (codes "n1") to_peer 3 addressed dropped (codes "n2") refl refl refl

abbrev counted_filters : List Bool
counted_filters = true ∷ true ∷ false ∷ []

abbrev none_counted : ℕ
none_counted = 0

run-balance_example :
    bit (not (none_counted == 0)) + (run to_peer to_peer counted_filters none_counted).1
    ≡ (run to_peer to_peer counted_filters none_counted).2
      + bit (not ((run to_peer to_peer counted_filters none_counted).0 == 0))
run-balance_example =
    run-balance to_peer to_peer counted_filters none_counted
      (omega arith, (omega arith, (omega arith, omega arith, omega arith)))

abbrev blink : CodeIdentifier
blink = record { type = codes "blink"; version = codes "1"; runtime_type = codes "lua" }

abbrev waiting : Store
waiting = (blink, record { lifetime_end = 20; code_available = false; code = [] }) ∷ []

retrieve-insert_or_refresh_example :
    (retrieve (codes "n1") blink true (insert_or_refresh blink 30 (some (codes "x()")) waiting)).0
    ≡ (if blink == blink
        then some (kept (retrieve (codes "n1") blink true waiting).0 (codes "x()"))
        else (retrieve (codes "n1") blink true waiting).0)
retrieve-insert_or_refresh_example =
    retrieve-insert_or_refresh (codes "n1") blink blink true 30 (codes "x()") waiting

abbrev blink_packet : CodePacket
blink_packet = record { lifetime_end = 20; code_available = false; code = [] }

cleanup_iff_example :
    (lookup blink (cleanup 6000 waiting) ≡ some blink_packet)
    ↔ ((lookup blink waiting ≡ some blink_packet) × IsAlive 6000 blink_packet)
unfolding lookup
cleanup_iff_example = cleanup_iff 6000 blink blink_packet waiting (refl, tt)

abbrev own_filter : Filter
own_filter = record {
  required_constraints = constraint (codes "publisher_node_id") (text (codes "n1") eq) false ∷ [];
  optional_constraints = [];
}

abbrev published_here : Map
published_here = entry (codes "publisher_node_id") (str (codes "n1")) empty

drops_node_local-matches_example : codes "n1" ≡ codes "n1"
unfolding drops_node_local get_attr text_beq matches check_required check_optionals passes
    accepts_str match_text predicate predicate_beq
drops_node_local-matches_example =
    drops_node_local-matches (codes "n1") own_filter (codes "n1") published_here refl refl refl

abbrev labels : ClusterLabels
labels = (codes "node_id", (codes "n2", codes "n9")) ∷ []

abbrev label_value : Text → Text
label_value key = codes "n2"

cluster_added-matches_example : matches (announced (label_filter labels) dropped) addressed ≡ true
unfolding cluster_added same_cluster has_labels has_equality count_up get_attr text_beq matches
    check_required check_optionals passes accepts_str match_text predicate predicate_beq
cluster_added-matches_example =
    cluster_added-matches labels to_peer 3 addressed dropped label_value refl (refl, tt) refl

abbrev fresh_connection : Connection
fresh_connection = record { write_buffer = []; write_offset = 0; last_write_contact = 0 }

abbrev two_operations : List Operation
two_operations = writing (room 2) 7 (1 ∷ (2 ∷ (3 ∷ []))) ∷ (ready (λ n. room 10) (λ n. n) ∷ [])

operate_all-stream_example :
    ((operate_all two_operations fresh_connection).1
        ++ pending
            (operate_all two_operations fresh_connection).0.write_buffer
            (operate_all two_operations fresh_connection).0.write_offset
      ≡ 1 ∷ (2 ∷ (3 ∷ [])))
    × IsPlaced
        (operate_all two_operations fresh_connection).0.write_buffer
        (operate_all two_operations fresh_connection).0.write_offset
operate_all-stream_example = operate_all-stream two_operations fresh_connection refl
