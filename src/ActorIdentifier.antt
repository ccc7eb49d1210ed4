-- ===== src/ActorIdentifier.antt =====
-- Names of actors: uActor/src/pubsub/actor_identifier.cpp, uActor/include/pubsub/actor_identifier.hpp.
use u_actor.Prelude.{◌≡◌, refl, Text, Option, none, some, codes, text_beq}
use u_actor.Publication.{str, Map, empty, get_str_attr, get_attr, set_attr}

pub record ActorIdentifier : Type 0 where
  pub node_id : Text
  pub actor_type : Text
  pub instance_id : Text

-- `to_publication_map`
unfoldable pub actor_to_map : ActorIdentifier → Map
actor_to_map a = set_attr (codes "instance_id") (str a.instance_id) (
    set_attr (codes "actor_type") (str a.actor_type)
      (set_attr (codes "node_id") (str a.node_id) empty))

abbrev all_three : Option Text → Option Text → Option Text → Option ActorIdentifier
all_three (some n) (some t) (some i) =
    some (record { node_id = n; actor_type = t; instance_id = i })
all_three (some n) (some t) none = none
all_three (some n) none i = none
all_three none t i = none

-- `from_publication_map`
unfoldable pub actor_from_map : Map → Option ActorIdentifier
actor_from_map m =
    all_three (get_str_attr (codes "node_id") m) (get_str_attr (codes "actor_type") m)
      (get_str_attr (codes "instance_id") m)

-- The name of an actor is read back from the map that it was written to.
pub actor_from_map-actor_to_map : (a : ActorIdentifier) → actor_from_map (actor_to_map a) ≡ some a
unfolding actor_from_map actor_to_map get_str_attr get_attr set_attr text_beq
actor_from_map-actor_to_map a = refl
