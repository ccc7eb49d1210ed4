-- ===== src/Remote/Writing.antt =====
-- The write queue of a connection: `write` and `write_handler` of uActor/src/remote/tcp_forwarder.cpp,
-- with the fields of uActor/include/remote/tcp_connection.hpp. The socket is a parameter: a call of
-- `send` fails, or would block, or takes some of the bytes. The bytes that it takes are a result.

pub mod Streaming
use u_actor.Prelude.{
  ℕ, suc, ◌+◌, ◌-◌, min, Bool, true, false, List, [], ◌∷◌, ◌++◌, ◌==◌, nat_eq, if◌then◌else◌,
  length, take, drop,
}

-- What `send` does: an error, `EAGAIN`, or a number of bytes that it has room for.
pub data Send : Type 0 where
  failed would_block : Send
  room : ℕ → Send

pub record Connection : Type 0 where
  pub write_buffer : List (List ℕ)
  pub write_offset : ℕ
  pub last_write_contact : ℕ

unfoldable pub new_connection : Connection
new_connection = record { write_buffer = []; write_offset = 0; last_write_contact = 0 }

-- The bytes of a call: the remaining ones of the front, as far as there is room.
abbrev pub remaining : List ℕ → ℕ → ℕ
remaining front offset = length front - offset

-- What a call of `send` leaves of the queue: whether it failed, whether the front was completed, the
-- queue, the offset, and the bytes that were taken.
pub record Sent : Type 0 where
  pub error : Bool
  pub completed : Bool
  pub buffer : List (List ℕ)
  pub offset : ℕ
  pub bytes : List ℕ

abbrev pub taken : ℕ → List ℕ → List (List ℕ) → ℕ → Sent
taken written front rest offset =
    if written == remaining front offset
    then record {
      error = false;
      completed = true;
      buffer = rest;
      offset = 0;
      bytes = take written (drop offset front);
    }
    else record {
      error = false;
      completed = false;
      buffer = front ∷ rest;
      offset = offset + written;
      bytes = take written (drop offset front);
    }

-- A call of `send`, with the tests on its result. A call that would block returns -1, which is no
-- size, and leaves the offset.
unfoldable pub send_front : Send → List ℕ → List (List ℕ) → ℕ → Sent
send_front failed front rest offset = record {
  error = true;
  completed = false;
  buffer = front ∷ rest;
  offset = offset;
  bytes = [];
}
send_front would_block front rest offset = record {
  error = false;
  completed = false;
  buffer = front ∷ rest;
  offset = offset;
  bytes = [];
}
send_front (room n) front rest offset = taken (min n (remaining front offset)) front rest offset

-- `write`, after the data has been pushed; the queue is not empty then.
abbrev pub written : Send → ℕ → List (List ℕ) → Connection → Bool × Connection × List ℕ
written outcome now [] c = (false, record c { write_buffer = [] }, [])
written outcome now (front ∷ rest) c =
    let s = send_front outcome front rest c.write_offset in
    (
      s.error,
      record {
        write_buffer = s.buffer;
        write_offset = s.offset;
        last_write_contact = if s.error then c.last_write_contact else now;
      },
      s.bytes,
    )

-- `write`: whether the connection is to be closed, the connection, and the bytes that were taken.
unfoldable pub write : Send → ℕ → List ℕ → Connection → Bool × Connection × List ℕ
unfolding send_front
write outcome now dataset c = written outcome now (c.write_buffer ++ dataset ∷ []) c

-- The loop of `write_handler`, which goes on while the front is completed.
unfoldable pub write_each :
    (ℕ → Send) → (ℕ → ℕ) → ℕ → List (List ℕ) → ℕ → ℕ → Bool × Connection × List ℕ
unfolding send_front
write_each socket clock n [] offset contact =
    (false, record { write_buffer = []; write_offset = offset; last_write_contact = contact }, [])
write_each socket clock n (front ∷ rest) offset contact =
    let s = send_front (socket n) front rest offset in
    let (error, c, more) = write_each socket clock (suc n) rest 0 (clock n) in
    if s.completed then (error, c, s.bytes ++ more) else (
      s.error,
      record { write_buffer = s.buffer; write_offset = s.offset; last_write_contact = contact },
      s.bytes,
    )

-- `write_handler`
unfoldable pub write_handler : (ℕ → Send) → (ℕ → ℕ) → Connection → Bool × Connection × List ℕ
unfolding write_each
write_handler socket clock c =
    write_each socket clock 0 c.write_buffer c.write_offset c.last_write_contact
