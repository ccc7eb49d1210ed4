-- ===== src/Remote/Framer.antt =====
-- Frames of a byte stream: uActor/src/remote/stream_publication_framer.cpp. A frame is its size in
-- four bytes, the most significant first, and then that many bytes of content. The decoder of the
-- content, `PublicationFactory::build`, is a parameter. Bytes are numbers below 256.
pub mod Stream
pub mod Delivery
use u_actor.Prelude.{
  ℕ, suc, zero, ◌+◌, ◌-◌, ◌*◌, Bool, true, false, Option, none, some, List, [], ◌∷◌, ◌++◌, ◌==◌,
  nat_eq, ltb, leb, min, if◌then◌else◌, length, take, drop,
}
use u_actor.Publication.{Map}

-- `ProcessingState`
pub data ProcessingState : Type 0 where
  empty waiting_for_size waiting_for_data : ProcessingState

pub record Framer : Type 0 where
  pub state : ProcessingState
  pub size_buffer : List ℕ
  pub size_field_remaining_bytes : ℕ
  pub publicaton_remaining_bytes : ℕ
  pub publicaton_full_size : ℕ
  pub publication_buffer : List ℕ

-- The member initialisers.
unfoldable pub new_framer : Framer
new_framer = record {
  state = empty;
  size_buffer = 0 ∷ 0 ∷ 0 ∷ 0 ∷ [];
  size_field_remaining_bytes = 0;
  publicaton_remaining_bytes = 0;
  publicaton_full_size = 0;
  publication_buffer = [];
}

-- `std::memcpy(buffer + offset, bytes, length)`
unfoldable pub overwrite : ℕ → List ℕ → List ℕ → List ℕ
overwrite offset bytes buffer = take offset buffer ++ bytes ++ drop (offset + length bytes) buffer

-- `ntohl` of the first four bytes.
unfoldable pub size_of : List ℕ → ℕ
size_of (a ∷ b ∷ c ∷ d ∷ _) = ((a * 256 + b) * 256 + c) * 256 + d
size_of _ = 0

module _ (build : List ℕ → Option Map) where
  -- A call of the callback: the publication and the length of its encoding.
  unfoldable pub completed : ℕ → List ℕ → List (Map × ℕ)
  completed size content =
      if size == 0 then [] else (elim (build content) [ none ↦ [] | some p ↦ (p, size) ∷ [] ])

  -- One round of the loop on the bytes that are left: the new state, the bytes left after it, and
  -- the calls.
  unfoldable pub iterate : ProcessingState → Framer → List ℕ → Framer × List ℕ × List (Map × ℕ)
  unfolding overwrite size_of completed
  iterate empty s bytes =
      if leb 4 (length bytes)
      then (
        record s {
          publicaton_full_size = size_of bytes;
          publicaton_remaining_bytes = size_of bytes;
          state = waiting_for_data;
        },
        drop 4 bytes,
        [],
      )
      else (
        record s {
          size_buffer = overwrite 0 bytes s.size_buffer;
          size_field_remaining_bytes = 4 - length bytes;
          state = waiting_for_size;
        },
        [],
        [],
      )
  iterate waiting_for_size s bytes =
      let missing = s.size_field_remaining_bytes in
      if ltb missing (length bytes)
      then (let filled = overwrite (4 - missing) (take missing bytes) s.size_buffer in
          (
            record s {
              size_buffer = filled;
              publicaton_full_size = size_of filled;
              publicaton_remaining_bytes = size_of filled;
              size_field_remaining_bytes = 0;
              state = waiting_for_data;
            },
            drop missing bytes,
            [],
          ))
      else (
        record s {
          size_buffer = overwrite (4 - missing) bytes s.size_buffer;
          size_field_remaining_bytes = missing - length bytes;
        },
        [],
        [],
      )
  iterate waiting_for_data s bytes =
      let to_move = min s.publicaton_remaining_bytes (length bytes) in
      let content = s.publication_buffer ++ take to_move bytes in
      let left = s.publicaton_remaining_bytes - to_move in
      if left == 0
      then (
        record s { publicaton_remaining_bytes = left; publication_buffer = []; state = empty },
        drop to_move bytes,
        completed s.publicaton_full_size content,
      )
      else (
        record s { publicaton_remaining_bytes = left; publication_buffer = content },
        drop to_move bytes,
        [],
      )

  -- The loop, on fuel: a byte takes at most three rounds.
  unfoldable pub process : ℕ → Framer → List ℕ → Framer × List (Map × ℕ)
  unfolding iterate
  process zero s bytes = (s, [])
  process (suc fuel) s [] = (s, [])
  process (suc fuel) s (b ∷ bytes) =
      let (s1, left, calls) = iterate s.state s (b ∷ bytes) in
      let (s2, more) = process fuel s1 left in (s2, calls ++ more)

  unfoldable pub process_data : Framer → List ℕ → Framer × List (Map × ℕ)
  unfolding process
  process_data s bytes = process (3 * length bytes + 2) s bytes
