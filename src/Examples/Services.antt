-- ===== src/Examples/Services.antt =====
-- The theorems about the topology manager and the actor that keeps code at concrete inputs.
use u_actor.Prelude.{
  ℕ, zero, suc, ◌+◌, ◌≤◌, Text, ℤ, pos, Bool, true, false, Option, none, List, [], ◌∷◌, ◌++◌, ◌⊎◌,
  codes, arith, count, text_eq, ◌==◌, if◌then◌else◌, length, take,
}
use u_actor.Publication.{Map, entry, empty, str, int}
use u_actor.CodeStore.{CodeIdentifier}
use u_actor.CodeStoreActor.{CodeStoreActor, Clock}
use u_actor.Topology.{Board}
use u_actor.Topology.Attempts.{attempts_to, attempts_to-once}

abbrev announcement : Text → Map
announcement peer = entry (codes "peer_type") (str (codes "tcp_server")) (
    entry (codes "peer_node_id") (str peer) (
      entry (codes "peer_ip") (str (codes "10.0.0.2")) (
        entry (codes "peer_port") (int (pos 1337))
          (entry (codes "forced") (str (codes "n")) empty))))

abbrev at : ℕ → Board
at time = record { server_nodes = []; now = time; later = time }

attempts_to-once_example :
    attempts_to
      (codes "m")
      ((at 100, announcement (codes "m")) ∷ ((at 2000, announcement (codes "m")) ∷ []))
      (record {
        node_id = codes "n";
        actor_type = codes "topology_manager";
        instance_id = codes "1";
        reachable_peers = [];
        connection_in_progress = [];
        persistent_peers = [];
        persistent_announcement_active = false;
      })
    ≤ 1
attempts_to-once_example =
    attempts_to-once 2000 (codes "m")
      ((at 100, announcement (codes "m")) ∷ ((at 2000, announcement (codes "m")) ∷ []))
      (record {
        node_id = codes "n";
        actor_type = codes "topology_manager";
        instance_id = codes "1";
        reachable_peers = [];
        connection_in_progress = [];
        persistent_peers = [];
        persistent_announcement_active = false;
      })
      (((omega arith, omega arith, omega arith)), ((omega arith, omega arith, omega arith), tt)) tt

abbrev store_actor : CodeStoreActor
store_actor = record {
  node_id = codes "n";
  actor_type = codes "code_store";
  instance_id = codes "1";
  code_miss_debounce = [];
  code_fetch_subscription_id = 3;
  store = [];
}

abbrev blink : CodeIdentifier
blink = record { type = codes "blink"; version = codes "1"; runtime_type = codes "lua" }

abbrev parcel : Map
parcel = entry (codes "actor_code_type") (str (codes "blink")) (
    entry (codes "actor_code_version") (str (codes "1")) (
      entry (codes "actor_code_runtime_type") (str (codes "lua")) (
        entry (codes "actor_code_lifetime_end") (int (pos 0))
          (entry (codes "actor_code") (str (codes "x = 1")) empty))))

abbrev request : Map
request = entry (codes "fetch_actor_type") (str (codes "blink")) (
    entry (codes "fetch_actor_version") (str (codes "1")) (
      entry (codes "fetch_actor_runtime_type") (str (codes "lua")) (
        entry (codes "publisher_node_id") (str (codes "n")) (
          entry (codes "publisher_actor_type") (str (codes "blink"))
            (entry (codes "publisher_instance_id") (str (codes "i")) empty)))))

abbrev readings : Clock
readings = record { first = 10; second = 10; third = 11 }
