-- ===== src/Remote/Forwarding.antt =====
-- Which messages pass between nodes: uActor/src/remote/sequence_number_forwarding_strategy.cpp and
-- uActor/include/remote/sequence_info.hpp. The map of incoming infos is shared by all connections,
-- that of outgoing infos belongs to one. The clock is a parameter, and nothing reads the timestamps.
pub mod Order
pub mod Routes
use u_actor.Prelude.{
  ℕ, suc, zero, ◌+◌, ◌-◌, Text, Bool, true, false, not, ◌&&◌, ◌||◌, Option, none, some, List, [],
  ◌∷◌, ◌++◌, ◌==◌, text_eq, nat_eq, ltb, if◌then◌else◌, codes, length, drop,
}
use u_actor.Prelude.Assoc.{lookup, insert}
use u_actor.Publication.{Map, str, has_attr, get_str_attr, get_int_attr, set_attr}
use u_actor.Arguments.{to_uint32}
use u_actor.Constraint.TextMatch.{starts_with}

pub record SequenceInfo : Type 0 where
  pub sequence_number : ℕ
  pub epoch : ℕ
  pub last_timestamp : ℕ

-- `is_older_than`
unfoldable pub is_older_than : SequenceInfo → ℕ → ℕ → Bool
is_older_than info other_sequence_number other_epoch =
    ltb info.epoch other_epoch
    || ((other_epoch == info.epoch) && ltb info.sequence_number other_sequence_number)

abbrev pub Infos : Type 0
Infos = List (Text × SequenceInfo)

-- The number and the epoch of a message; they are `int32_t` that become `uint32_t`.
unfoldable pub numbers : Map → Option (ℕ × ℕ)
numbers p = elim (get_int_attr (codes "_internal_sequence_number") p) [
  | none ↦ none
  | some number ↦ (elim (get_int_attr (codes "_internal_epoch") p) [
    | none ↦ none
    | some epoch ↦ some (to_uint32 number, to_uint32 epoch)
  ])
]

-- The map lookup that both directions make: a message passes if it is the first of its publisher or
-- newer than the last, which it then replaces.
unfoldable pub advance : ℕ → Text → ℕ → ℕ → Infos → Bool × Infos
unfolding is_older_than
advance now node number epoch infos =
    let new : SequenceInfo = record {
      sequence_number = number;
      epoch = epoch;
      last_timestamp = now;
    } in
    elim (lookup node infos) [
      | none ↦ (true, insert node new infos)
      | some info ↦
          if is_older_than info number epoch then (true, insert node new infos) else (false, infos)
    ]

-- `should_accept`; `none` is the read of a missing publisher.
unfoldable pub should_accept : ℕ → Map → Infos → Option (Bool × Infos)
unfolding numbers advance
should_accept now p infos = elim (get_str_attr (codes "publisher_node_id") p) [
  | none ↦ none
  | some node ↦ (elim (numbers p) [
    | none ↦ some (false, infos)
    | some both ↦ some (advance now node both.0 both.1 infos)
  ])
]

abbrev pub comma : ℕ
comma = b','

-- `add_incomming_routing_fields`; `none` is the read of an attribute that is no string.
unfoldable pub add_incomming_routing_fields : Text → Map → Option Map
add_incomming_routing_fields partner p =
    if has_attr (codes "_internal_forwarded_by") p
    then (elim (get_str_attr (codes "_internal_forwarded_by") p) [
      | none ↦ none
      | some nodes ↦
          some (set_attr (codes "_internal_forwarded_by") (str (nodes ++ comma ∷ partner)) p)
    ])
    else some (set_attr (codes "_internal_forwarded_by") (str partner) p)

-- An end of the text or a comma comes next.
abbrev pub ends_here : Text → Bool
ends_here [] = true
ends_here (c ∷ rest) = c == comma

-- The search loop: `fresh` tells whether the position is at the start or after a comma. `find` skips
-- the positions at which the name does not start, as the recursion does.
unfoldable pub is_listed : Text → Bool → Text → Bool
is_listed partner fresh [] = false
is_listed partner fresh (c ∷ rest) =
    (starts_with (c ∷ rest) partner && (fresh && ends_here (drop (length partner) (c ∷ rest))))
    || is_listed partner (c == comma) rest

-- `should_forward`, with the infos of the connection; `none` is the read of an attribute that is no
-- string.
unfoldable pub should_forward : Text → ℕ → Map → Infos → Option (Bool × Infos)
unfolding is_listed numbers advance
should_forward partner now p infos =
    let fresh : Bool × Infos = (elim (get_str_attr (codes "publisher_node_id") p) [
      | none ↦ (true, infos)
      | some node ↦ (elim (numbers p) [
        | none ↦ (true, infos)
        | some both ↦ advance now node both.0 both.1 infos
      ])
    ]) in
    if has_attr (codes "_internal_forwarded_by") p
    then (elim (get_str_attr (codes "_internal_forwarded_by") p) [
      | none ↦ none
      | some nodes ↦ if is_listed partner true nodes then some (false, infos) else some fresh
    ])
    else some fresh
