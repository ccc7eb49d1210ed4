-- ===== src/CodeStore.antt =====
-- The store of actor code: uActor/src/actor_runtime/code_store.cpp, with
-- uActor/include/actor_runtime/code_store.hpp and code_identifier.hpp beside it. The clock and the
-- node's id are parameters. The store's size in buckets is not modelled.
pub mod Laws
use u_actor.Prelude.{
  ℕ, ◌+◌, ◌%◌, ◌^◌, ◌≡◌, refl, ap, Text, Bool, true, false, not, ◌&&◌, Option, none, some, List, [],
  ◌∷◌, ◌==◌, Eq, text_eq, text_beq_iff, text_beq, nat_eq, ltb, if◌then◌else◌, codes, arith, ◌↔◌,
  &&_parts,
}
use u_actor.Prelude.Assoc.{lookup, insert}
use u_actor.Publication.{Map, str, set_attr}
use u_actor.Router.Meta.{new_publication}

pub record CodeIdentifier : Type 0 where
  pub type : Text
  pub version : Text
  pub runtime_type : Text

-- `CodeIdentifier::operator==`
abbrev pub identifier_beq : CodeIdentifier → CodeIdentifier → Bool
identifier_beq a other =
    (a.type == other.type)
    && ((a.version == other.version) && (a.runtime_type == other.runtime_type))

identifier_ext :
    (a b : CodeIdentifier)
    → a.type ≡ b.type
    → a.version ≡ b.version
    → a.runtime_type ≡ b.runtime_type
    → a ≡ b
identifier_ext a b p q r = cc (p, q, r)

pub identifier_beq_iff : (a b : CodeIdentifier) → (identifier_beq a b ≡ true) ↔ (a ≡ b)
identifier_beq_iff a b = (same, λ e. rw e (reflexive b))
  where
    same : identifier_beq a b ≡ true → a ≡ b
    same h =
        let one =
          &&_parts (a.type == b.type)
            ((a.version == b.version) && (a.runtime_type == b.runtime_type)) h in
        let two = &&_parts (a.version == b.version) (a.runtime_type == b.runtime_type) one.1 in
        identifier_ext a b ((text_beq_iff a.type b.type).0 one.0)
          ((text_beq_iff a.version b.version).0 two.0)
          ((text_beq_iff a.runtime_type b.runtime_type).0 two.1)

    reflexive : (c : CodeIdentifier) → identifier_beq c c ≡ true
    reflexive c = rw ((text_beq_iff c.type c.type).1 refl) (
        rw ((text_beq_iff c.version c.version).1 refl)
          ((text_beq_iff c.runtime_type c.runtime_type).1 refl))

instance abbrev pub identifier_eq : Eq CodeIdentifier
identifier_eq = record { beq = identifier_beq; beq_iff = identifier_beq_iff }

pub record CodePacket : Type 0 where
  pub lifetime_end : ℕ
  pub code_available : Bool
  pub code : Text

abbrev pub Store : Type 0
Store = List (CodeIdentifier × CodePacket)

-- The message of `code_unavailable_hook`.
unfoldable pub code_unavailable : Text → CodeIdentifier → Map
unfolding new_publication
code_unavailable node_id identifier =
    set_attr (codes "unavailable_actor_runtime_type") (str identifier.runtime_type) (
      set_attr (codes "unavailable_actor_version") (str identifier.version) (
        set_attr (codes "unavailable_actor_type") (str identifier.type) (
          set_attr (codes "type") (str (codes "code_unavailable"))
            (new_publication node_id (codes "code_store") (codes "1")))))

-- The message that a miss publishes, if the caller wants it.
abbrev pub hook : Bool → Text → CodeIdentifier → List Map
hook use_hook node_id identifier = if use_hook then code_unavailable node_id identifier ∷ [] else []

-- `retrieve`, after the search: the code, and the messages published.
abbrev pub retrieved : Text → CodeIdentifier → Bool → Option CodePacket → Option Text × List Map
retrieved node_id identifier use_hook none = (none, hook use_hook node_id identifier)
retrieved node_id identifier use_hook (some packet) =
    if packet.code_available
    then (some packet.code, [])
    else (none, hook use_hook node_id identifier)

unfoldable pub retrieve : Text → CodeIdentifier → Bool → Store → Option Text × List Map
retrieve node_id identifier use_hook store =
    retrieved node_id identifier use_hook (lookup identifier store)

abbrev pub new_packet : ℕ → Option Text → CodePacket
new_packet lifetime_end none = record {
  lifetime_end = lifetime_end;
  code_available = false;
  code = [];
}
new_packet lifetime_end (some code) = record {
  lifetime_end = lifetime_end;
  code_available = true;
  code = code;
}

-- The lifetime of a packet that is there: 0 stands for no end.
unfoldable pub refreshed : ℕ → ℕ → ℕ
refreshed lifetime_end old =
    if lifetime_end == 0 then 0 else if ltb lifetime_end old then old else lifetime_end

-- The code of a packet that is there: it is not replaced.
abbrev pub supplied : Option Text → CodePacket → CodePacket
supplied none packet = packet
supplied (some code) packet =
    if not packet.code_available
    then record packet { code_available = true; code = code }
    else packet

-- `insert_or_refresh`, after `try_emplace`: the new packet, or the old one refreshed.
unfoldable pub stored : ℕ → Option Text → Option CodePacket → CodePacket
unfolding refreshed
stored lifetime_end code none = new_packet lifetime_end code
stored lifetime_end code (some packet) =
    supplied code (record packet { lifetime_end = refreshed lifetime_end packet.lifetime_end })

unfoldable pub insert_or_refresh : CodeIdentifier → ℕ → Option Text → Store → Store
unfolding stored
insert_or_refresh identifier lifetime_end code store =
    insert identifier (stored lifetime_end code (lookup identifier store)) store

-- The test of `cleanup`; the sum of two `uint32_t` wraps.
unfoldable pub is_expired : ℕ → CodePacket → Bool
is_expired now packet = ltb 0 packet.lifetime_end && ltb ((packet.lifetime_end + 5000) % 2 ^ 32) now

-- `cleanup`
unfoldable pub cleanup : ℕ → Store → Store
unfolding is_expired
cleanup now [] = []
cleanup now ((identifier, packet) ∷ store) =
    let rest = cleanup now store in
    if is_expired now packet then rest else (identifier, packet) ∷ rest
