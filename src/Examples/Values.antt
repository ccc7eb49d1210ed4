-- ===== src/Examples/Values.antt =====
-- The theorems about publications, constraints and arguments at concrete inputs.
use u_actor.Prelude.{
  ◌≡◌, ◌↔◌, ◌++◌, refl, Text, pos, true, false, some, List, [], ◌∷◌, ◌==◌, text_eq, codes,
  if◌then◌else◌, arith, text_beq,
}
use u_actor.Publication.{str, int, bin, Map, empty, entry, get_attr, set_attr, copy_map}
use u_actor.Publication.Laws.{copied, get_attr-set_attr, get_attr-copy_map}
use u_actor.Publication.Sharing.{
  Action, constructs, copies, sets, run, no_objects, set_object_attr, object_attr,
}
use u_actor.Publication.Sharing.Isolation.{copies_are_independent}
use u_actor.Constraint.Predicates.{
  eq, ct, pf, sf, name, tag, from_string, from_string-name, name-from_string, and_then,
}
use u_actor.Constraint.TextMatch.{suffix_test}
use u_actor.Constraint.Affixes.{accepts_str-pf_ct, accepts_str-sf}
use u_actor.Publication.{is_some}
use u_actor.Constraint.{
  Constraint, constraint, text, attribute, operand, constraint_beq, accepts_str,
}
use u_actor.Constraint.Plain.{constraint_beq-plain}
use u_actor.Arguments.{
  SubscriptionArguments, global, fetch_future, from_map, to_map, from_map-to_map,
}
use u_actor.ActorIdentifier.{
  ActorIdentifier, actor_to_map, actor_from_map, actor_from_map-actor_to_map,
}

abbrev key : Text
key = codes "type"

abbrev message : Map
message = entry (codes "type") (str (codes "ping")) (entry (codes "raw") (bin (1 ∷ [])) empty)

get_attr-set_attr_example :
    get_attr key (set_attr (codes "type") (str (codes "pong")) message)
    ≡ (if codes "type" == key then some (str (codes "pong")) else get_attr key message)
unfolding get_attr text_beq
get_attr-set_attr_example =
    get_attr-set_attr (codes "type") key (str (codes "pong")) message (refl, (refl, tt))

get_attr-copy_map_example :
    get_attr (codes "raw") (copy_map message) ≡ copied (get_attr (codes "raw") message)
unfolding get_attr text_beq
get_attr-copy_map_example = get_attr-copy_map (codes "raw") message (refl, (refl, tt))

abbrev history : List Action
history = constructs 1 ∷ sets 1 (codes "type") (str (codes "ping")) ∷ copies 1 2 ∷ []

copies_are_independent_example :
    object_attr 2 key (set_object_attr 1 key (int (pos 3)) (run history no_objects))
    ≡ object_attr 2 key (run history no_objects)
copies_are_independent_example =
    copies_are_independent history 1 2 key key (int (pos 3)) (omega arith)

abbrev on_ping : Constraint
on_ping = constraint (codes "type") (text (codes "ping") eq) false

constraint_beq-plain_example :
    (constraint_beq on_ping on_ping ≡ true)
    ↔ ((attribute on_ping ≡ attribute on_ping) × (operand on_ping ≡ operand on_ping))
constraint_beq-plain_example = constraint_beq-plain on_ping on_ping refl

accepts_str-pf_ct_example :
    ((accepts_str (text (codes "nan") pf) (codes "banana") ≡ true)
      ↔ ((rest : Text) × (codes "banana" ≡ codes "nan" ++ rest)))
    × ((accepts_str (text (codes "nan") ct) (codes "banana") ≡ true)
        ↔ ((before after : Text) × (codes "banana" ≡ before ++ (codes "nan" ++ after))))
accepts_str-pf_ct_example = accepts_str-pf_ct (codes "nan") (codes "banana")

accepts_str-sf_example :
    ((accepts_str (text (codes "na") sf) (codes "banana") ≡ true)
      ↔ ((before : Text) × (codes "banana" ≡ before ++ codes "na")))
    × (is_some (suffix_test (codes "banana") (codes "na")) ≡ true)
accepts_str-sf_example = accepts_str-sf (codes "na") (codes "banana") (omega arith)

from_string-name_example : and_then (name (tag ct)) from_string ≡ some ct
from_string-name_example = from_string-name ct

name-from_string_example : name (tag ct) ≡ some (codes "CT")
unfolding from_string text_beq
name-from_string_example = name-from_string (codes "CT") ct refl

abbrev loud : SubscriptionArguments
loud = record { scope = global; priority = 3000000000; fetch_policy = fetch_future }

from_map-to_map_example : from_map (to_map loud) ≡ loud
from_map-to_map_example = from_map-to_map loud (omega arith)

abbrev lamp : ActorIdentifier
lamp = record { node_id = codes "n1"; actor_type = codes "lamp"; instance_id = codes "1" }

actor_from_map-actor_to_map_example : actor_from_map (actor_to_map lamp) ≡ some lamp
actor_from_map-actor_to_map_example = actor_from_map-actor_to_map lamp
