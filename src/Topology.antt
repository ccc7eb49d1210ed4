-- ===== src/Topology.antt =====
-- The topology manager: uActor/src/controllers/topology_manager.cpp and
-- uActor/include/controllers/topology_manager.hpp. It is an actor; what it does with a message is a
-- program of calls of its wrapper. The list of server nodes and the readings of the clock are
-- parameters. Where the code would read an absent value, the result is `none`.

pub mod Attempts
use u_actor.Prelude.{
  ℕ, ◌+◌, ◌%◌, ◌^◌, Text, ℤ, pos, negsuc, Bool, true, false, not, ◌&&◌, ◌||◌, Option, none, some,
  List, [], ◌∷◌, ◌++◌, ◌==◌, text_eq, if◌then◌else◌, ltb, any, codes,
}
use u_actor.Prelude.Assoc.{lookup, insert, erase}
use u_actor.Publication.{
  Map, empty, str, int, get_str_attr, get_int_attr, has_attr, set_attr, is_some,
}
use u_actor.Constraint.Predicates.{eq}
use u_actor.Constraint.{Constraint, constraint, text}
use u_actor.Filter.{Filter, make_filter}
use u_actor.Arguments.{default_arguments, to_uint32}
use u_actor.Router.{is_text}
use u_actor.Runtime.{Program, return, then_subscribe, then_publish, then_enqueue_wakeup}
use u_actor.Runtime.Methods.{has_type}

pub record TcpPeer : Type 0 where
  pub peer_node_id : Text
  pub peer_ip : Text
  pub peer_port : ℕ

pub record TopologyManager : Type 0 where
  pub node_id : Text
  pub actor_type : Text
  pub instance_id : Text
  pub reachable_peers : List Text
  pub connection_in_progress : List (Text × ℕ)
  pub persistent_peers : List TcpPeer
  pub persistent_announcement_active : Bool

-- `BoardFunctions`: the server nodes, and the two readings of the clock that a message may take.
pub record Board : Type 0 where
  pub server_nodes : List Text
  pub now : ℕ
  pub later : ℕ

-- The constructor.
unfoldable pub new_topology_manager : Text → Text → Text → TopologyManager
new_topology_manager node_id actor_type instance_id = record {
  node_id = node_id;
  actor_type = actor_type;
  instance_id = instance_id;
  reachable_peers = [];
  connection_in_progress = [];
  persistent_peers = [];
  persistent_announcement_active = false;
}

abbrev pub contains_text : Text → List Text → Bool
contains_text name names = any (λ it. it == name) names

-- `std::unordered_set::emplace`, `std::unordered_set::erase`
unfoldable pub emplace_text : Text → List Text → List Text
emplace_text name names = if contains_text name names then names else names ++ name ∷ []

unfoldable pub erase_text : Text → List Text → List Text
erase_text name [] = []
erase_text name (it ∷ rest) =
    let later = erase_text name rest in if it == name then rest else it ∷ later

-- `std::map::emplace`: an attempt that is there stays.
unfoldable pub emplace_attempt : Text → ℕ → List (Text × ℕ) → List (Text × ℕ)
emplace_attempt peer deadline attempts =
    if is_some (lookup peer attempts) then attempts else insert peer deadline attempts

-- The attempts without that of a peer, if its time is over; and whether it is not over.
abbrev pub attempt_over : Option ℕ → Text → ℕ → List (Text × ℕ) → List (Text × ℕ) × Bool
attempt_over none peer now attempts = (attempts, false)
attempt_over (some deadline) peer now attempts =
    if ltb deadline now then (erase peer attempts, false) else (attempts, true)

-- `should_connect`
unfoldable pub should_connect : Board → Text → Bool → TopologyManager → Bool × TopologyManager
should_connect board peer_id forced_mode m =
    let (attempts, in_progress) =
      attempt_over (lookup peer_id m.connection_in_progress) peer_id board.now
        m.connection_in_progress in
    (
      not in_progress
          && (not (contains_text peer_id m.reachable_peers)
              && (forced_mode || contains_text peer_id board.server_nodes)),
      record m { connection_in_progress = attempts },
    )

unfoldable pub connect_message : Text → Text → ℤ → Map
connect_message node_id peer_ip peer_port = set_attr (codes "peer_port") (int peer_port) (
    set_attr (codes "peer_ip") (str peer_ip) (
      set_attr (codes "node_id") (str node_id)
        (set_attr (codes "type") (str (codes "tcp_client_connect")) empty)))

-- What an announcement leads to: the messages that are published, and the new state.
abbrev pub Announced : Type 0
Announced = Option (List Map × TopologyManager)

abbrev pub connect : Board → Text → Option Text → Option ℤ → Bool × TopologyManager → Announced
connect board peer ip port (false, m) = some ([], m)
connect board peer none port (true, m) = none
connect board peer (some ip) none (true, m) = none
connect board peer (some ip) (some port) (true, m) = some (
  connect_message m.node_id ip port ∷ [],
  record m {
    connection_in_progress =
        emplace_attempt peer ((board.later + 5000) % 2 ^ 32) m.connection_in_progress;
  },
)

abbrev pub announced_peer : Board → Option Text → Map → TopologyManager → Announced
announced_peer board none publication m = none
announced_peer board (some peer) publication m =
    connect board peer (get_str_attr (codes "peer_ip") publication)
      (get_int_attr (codes "peer_port") publication)
      (should_connect board peer (is_text (get_str_attr (codes "forced") publication) m.node_id) m)

-- `receive_peer_announcement`
unfoldable pub receive_peer_announcement : Board → Map → TopologyManager → Announced
unfolding should_connect emplace_attempt connect_message
receive_peer_announcement board publication m =
    if is_text (get_str_attr (codes "peer_type") publication) (codes "tcp_server")
      && (has_attr (codes "peer_ip") publication
          && (has_attr (codes "peer_port") publication
              && has_attr (codes "peer_node_id") publication))
    then announced_peer board (get_str_attr (codes "peer_node_id") publication) publication m
    else some ([], m)

-- The report of one connection more or less.
unfoldable pub connections_message : ℤ → Text → Map
connections_message change node_id = set_attr (codes "node") (str node_id) (
    set_attr (codes "tags") (str (codes "node")) (
      set_attr (codes "connections") (int change) (
        set_attr (codes "values") (str (codes "connections")) (
          set_attr (codes "measurement") (str (codes "system"))
            (set_attr (codes "type") (str (codes "data_point")) empty)))))

abbrev pub peer_added : Option Text → TopologyManager → Announced
peer_added none m = none
peer_added (some peer) m = some (
  connections_message (pos 1) m.node_id ∷ [],
  record m {
    reachable_peers = emplace_text peer m.reachable_peers;
    connection_in_progress = erase peer m.connection_in_progress;
  },
)

abbrev pub no_peers : List Text → Bool
no_peers [] = true
no_peers (peer ∷ rest) = false

-- The peers are looked at before the one that is gone is erased.
abbrev pub peer_removed : Option Text → TopologyManager → Announced
peer_removed none m = none
peer_removed (some peer) m = some (
  connections_message (negsuc 0) m.node_id ∷ [],
  record m {
    persistent_announcement_active =
        m.persistent_announcement_active
        || (not m.persistent_announcement_active && no_peers m.reachable_peers);
    reachable_peers = erase_text peer m.reachable_peers;
  },
)

-- `receive_peer_update`
unfoldable pub receive_peer_update : Map → TopologyManager → Announced
unfolding emplace_text erase_text connections_message
receive_peer_update publication m =
    if is_text (get_str_attr (codes "publisher_node_id") publication) m.node_id
      && (has_attr (codes "update_type") publication && has_attr (codes "peer_node_id") publication)
    then (if is_text (get_str_attr (codes "update_type") publication) (codes "peer_added")
        then peer_added (get_str_attr (codes "peer_node_id") publication) m
        else if is_text (get_str_attr (codes "update_type") publication) (codes "peer_removed")
        then peer_removed (get_str_attr (codes "peer_node_id") publication) m
        else some ([], m))
    else some ([], m)

unfoldable pub peer_message : TcpPeer → Map
peer_message peer = set_attr (codes "peer_port") (int (pos peer.peer_port)) (
    set_attr (codes "peer_ip") (str peer.peer_ip) (
      set_attr (codes "peer_node_id") (str peer.peer_node_id) (
        set_attr (codes "peer_type") (str (codes "tcp_server"))
          (set_attr (codes "type") (str (codes "local_peer_announcement")) empty))))

-- `publish_persistent_peers`, without the wake-up.
unfoldable pub persistent_messages : List TcpPeer → List Map
unfolding peer_message
persistent_messages [] = []
persistent_messages (peer ∷ rest) = peer_message peer ∷ persistent_messages rest

-- A static peer; its port is a 16-bit number.
abbrev pub static_peer :
    Option Text → Option Text → Option ℤ → TopologyManager → Option TopologyManager
static_peer (some node_id) (some ip) (some port) m = some (record m {
  persistent_peers =
      m.persistent_peers
      ++ record { peer_node_id = node_id; peer_ip = ip; peer_port = to_uint32 port % 2 ^ 16 } ∷ [];
  persistent_announcement_active =
      m.persistent_announcement_active
      || (not m.persistent_announcement_active && no_peers m.reachable_peers);
})
static_peer (some node_id) (some ip) none m = none
static_peer (some node_id) none port m = none
static_peer none ip port m = none

unfoldable pub add_static_peer : Map → TopologyManager → Option TopologyManager
add_static_peer publication m =
    if has_attr (codes "peer_node_id") publication
      && (has_attr (codes "peer_ip") publication && has_attr (codes "peer_port") publication)
    then static_peer (get_str_attr (codes "peer_node_id") publication)
        (get_str_attr (codes "peer_ip") publication) (get_int_attr (codes "peer_port") publication)
        m
    else some m

-- The subscriptions of an `init` message, in their order, and the message that it publishes.
abbrev pub is_text_constraint : Text → Text → Bool → Constraint
is_text_constraint name value optional = constraint name (text value eq) optional

unfoldable pub initial_filters : Text → List Filter
unfolding make_filter
initial_filters node_id =
    make_filter (
      is_text_constraint (codes "type") (codes "peer_announcement") false
      ∷ (is_text_constraint (codes "node_id") node_id true ∷ []))
    ∷ (make_filter (
          is_text_constraint (codes "type") (codes "local_peer_announcement") false
          ∷ (is_text_constraint (codes "publisher_node_id") node_id false ∷ []))
        ∷ (make_filter (
              is_text_constraint (codes "type") (codes "peer_update") false
              ∷ (is_text_constraint (codes "publisher_node_id") node_id false ∷ []))
            ∷ (make_filter (
                  is_text_constraint (codes "type") (codes "add_static_peer") false
                  ∷ (is_text_constraint (codes "node_id") node_id false ∷ []))
                ∷ [])))

unfoldable pub trigger_message : TopologyManager → Map
trigger_message m = set_attr (codes "type") (str (codes "trigger_static_peer")) (
    set_attr (codes "instance_id") (str m.instance_id) (
      set_attr (codes "actor_type") (str m.actor_type)
        (set_attr (codes "node_id") (str m.node_id) empty)))

abbrev subscribe_each : List Filter → Program TopologyManager → Program TopologyManager
subscribe_each [] next = next
subscribe_each (f ∷ fs) next = then_subscribe f default_arguments (λ sub_id. subscribe_each fs next)

abbrev publish_all : List Map → Program TopologyManager → Program TopologyManager
publish_all [] next = next
publish_all (p ∷ ps) next = then_publish p (publish_all ps next)

abbrev announced_program : Announced → Option (Program TopologyManager)
announced_program none = none
announced_program (some (ps, m)) = some (publish_all ps (return m))

abbrev silent_program : Option TopologyManager → Option (Program TopologyManager)
silent_program none = none
silent_program (some m) = some (return m)

-- `receive`
unfoldable pub receive : Board → Map → TopologyManager → Option (Program TopologyManager)
unfolding initial_filters trigger_message persistent_messages receive_peer_announcement
    receive_peer_update add_static_peer has_type
receive board publication m =
    if has_type (codes "init") publication
    then some
        (subscribe_each (initial_filters m.node_id) (then_publish (trigger_message m) (return m)))
    else if has_type (codes "trigger_static_peer") publication
        || (has_type (codes "wakeup") publication
            && is_text (get_str_attr (codes "wakeup_id") publication) (codes "trigger_static_peer"))
    then some (
        publish_all
          (if m.persistent_announcement_active then persistent_messages m.persistent_peers else [])
          (then_enqueue_wakeup 30000 (codes "trigger_static_peer") (return m)))
    else if has_type (codes "peer_announcement") publication
        || has_type (codes "local_peer_announcement") publication
    then announced_program (receive_peer_announcement board publication m)
    else if has_type (codes "peer_update") publication
    then announced_program (receive_peer_update publication m)
    else if has_type (codes "add_static_peer") publication
    then silent_program (add_static_peer publication m)
    else some (return m)
