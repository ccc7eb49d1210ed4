-- ===== src/Remote/Writing/Streaming.antt =====
-- The socket gets the bytes that are written, each once and in their order.
use u_actor.Prelude.{
  ℕ, zero, suc, ◌+◌, ◌≤◌, ◌≡◌, refl, sym, ap, ◌∙◌, Bool, true, List, [], ◌∷◌, ◌++◌, ◌==◌, nat_eq,
  if_ind, length, length-drop, take, drop, take-append-drop, append_assoc, append_nil, min, arith,
}
use u_actor.Remote.Writing.{
  Send, failed, would_block, room, Connection, remaining, Sent, taken, send_front, written, write,
  write_each, write_handler,
}

abbrev pub concat : List (List ℕ) → List ℕ
concat [] = []
concat (x ∷ xs) = x ++ concat xs

-- The bytes that are still to be sent.
abbrev pub pending : List (List ℕ) → ℕ → List ℕ
pending [] offset = []
pending (front ∷ rest) offset = drop offset front ++ concat rest

-- The offset is within the front of the queue.
abbrev pub IsPlaced : List (List ℕ) → ℕ → Type 0
IsPlaced [] offset = offset ≡ 0
IsPlaced (front ∷ rest) offset = offset ≤ length front

pending-zero : (buffer : List (List ℕ)) → pending buffer 0 ≡ concat buffer
pending-zero [] = refl
pending-zero (front ∷ rest) = refl

IsPlaced-zero : (buffer : List (List ℕ)) → IsPlaced buffer 0
IsPlaced-zero [] = refl
IsPlaced-zero (front ∷ rest) = omega arith

concat-append : (xs : List (List ℕ)) (x : List ℕ) → concat (xs ++ x ∷ []) ≡ concat xs ++ x
concat-append [] x = append_nil x
concat-append (y ∷ ys) x =
    ap (λ l. y ++ l) (concat-append ys x) ∙ sym (append_assoc y (concat ys) x)

pending-append :
    (buffer : List (List ℕ)) (offset : ℕ) (x : List ℕ)
    → IsPlaced buffer offset
    → pending (buffer ++ x ∷ []) offset ≡ pending buffer offset ++ x
pending-append [] offset x p = ap (λ n. drop n x ++ []) p ∙ append_nil x
pending-append (front ∷ rest) offset x p =
    ap (λ l. drop offset front ++ l) (concat-append rest x)
    ∙ sym (append_assoc (drop offset front) (concat rest) x)

IsPlaced-append :
    (buffer : List (List ℕ)) (offset : ℕ) (x : List ℕ)
    → IsPlaced buffer offset
    → IsPlaced (buffer ++ x ∷ []) offset
IsPlaced-append [] offset x p = omega (arith, p)
IsPlaced-append (front ∷ rest) offset x p = p

drop-drop : (m n : ℕ) (xs : List ℕ) → drop n (drop m xs) ≡ drop (m + n) xs
drop-drop zero n xs = let e : n ≡ zero + n = omega arith in ap (λ k. drop k xs) e
drop-drop (suc m) n [] =
    let e : suc (m + n) ≡ suc m + n = omega arith in nothing n ∙ ap (λ (k : ℕ). drop {A = ℕ} k []) e
  where
    nothing : (k : ℕ) → drop {A = ℕ} k [] ≡ drop {A = ℕ} (suc (m + n)) []
    nothing zero = refl
    nothing (suc k) = refl
drop-drop (suc m) n (x ∷ xs) =
    let e : suc (m + n) ≡ suc m + n = omega arith in drop-drop m n xs ∙ ap (λ k. drop k (x ∷ xs)) e

take_all : (xs : List ℕ) → take (length xs) xs ≡ xs
take_all [] = refl
take_all (x ∷ xs) = ap (λ l. x ∷ l) (take_all xs)

-- What a call of `send` does to the stream.
abbrev pub IsSent : List ℕ → Sent → Type 0
IsSent before s = (s.bytes ++ pending s.buffer s.offset ≡ before) × IsPlaced s.buffer s.offset

taken-IsSent :
    (w : ℕ) (front : List ℕ) (rest : List (List ℕ)) (offset : ℕ)
    → offset ≤ length front
    → w ≤ remaining front offset
    → IsSent (pending (front ∷ rest) offset) (taken w front rest offset)
taken-IsSent w front rest offset p l =
    if_ind (IsSent (pending (front ∷ rest) offset)) (w == remaining front offset)
      (λ e. (
        ap (λ d. take w (drop offset front) ++ d) (pending-zero rest)
            ∙ ap (λ d. d ++ concat rest)
                (ap (λ k. take k (drop offset front)) (ground (arith, e, length-drop offset front))
                  ∙ take_all (drop offset front)),
        IsPlaced-zero rest,
      ))
      (λ e. (
        ap (λ d. take w (drop offset front) ++ (d ++ concat rest)) (sym (drop-drop offset w front))
            ∙ sym (
                append_assoc (take w (drop offset front)) (drop w (drop offset front))
                  (concat rest))
            ∙ ap (λ d. d ++ concat rest) (take-append-drop w (drop offset front)),
        omega (arith, p, l),
      ))

send_front-IsSent :
    (outcome : Send) (front : List ℕ) (rest : List (List ℕ)) (offset : ℕ)
    → offset ≤ length front
    → IsSent (pending (front ∷ rest) offset) (send_front outcome front rest offset)
unfolding send_front
send_front-IsSent failed front rest offset p = (refl, p)
send_front-IsSent would_block front rest offset p = (refl, p)
send_front-IsSent (room n) front rest offset p =
    taken-IsSent (min n (remaining front offset)) front rest offset p (omega arith)

-- A completed front leaves the offset at 0.
taken-completed :
    (w : ℕ) (front : List ℕ) (rest : List (List ℕ)) (offset : ℕ)
    → (taken w front rest offset).completed ≡ true
    → ((taken w front rest offset).buffer ≡ rest) × ((taken w front rest offset).offset ≡ 0)
taken-completed w front rest offset =
    if_ind (λ (s : Sent). s.completed ≡ true → (s.buffer ≡ rest) × (s.offset ≡ 0))
      (w == remaining front offset) (λ e h. (refl, refl)) (λ e h. absurd (ground (arith, h)))

send_front-completed :
    (outcome : Send) (front : List ℕ) (rest : List (List ℕ)) (offset : ℕ)
    → (send_front outcome front rest offset).completed ≡ true
    → ((send_front outcome front rest offset).buffer ≡ rest)
      × ((send_front outcome front rest offset).offset ≡ 0)
unfolding send_front
send_front-completed failed front rest offset h = absurd (ground (arith, h))
send_front-completed would_block front rest offset h = absurd (ground (arith, h))
send_front-completed (room n) front rest offset h =
    taken-completed (min n (remaining front offset)) front rest offset h

-- What an operation does: the bytes that the socket took and those still pending are those that were.
abbrev pub IsStream : List ℕ → Bool × Connection × List ℕ → Type 0
IsStream before r =
    (r.2 ++ pending r.1.write_buffer r.1.write_offset ≡ before)
    × IsPlaced r.1.write_buffer r.1.write_offset

write-IsStream :
    (outcome : Send) (now : ℕ) (dataset : List ℕ) (c : Connection)
    → IsPlaced c.write_buffer c.write_offset
    → IsStream (pending c.write_buffer c.write_offset ++ dataset) (write outcome now dataset c)
unfolding write
write-IsStream outcome now dataset c p =
    let k =
      pushed (c.write_buffer ++ dataset ∷ [])
        (IsPlaced-append c.write_buffer c.write_offset dataset p) in
    (k.0 ∙ pending-append c.write_buffer c.write_offset dataset p, k.1)
  where
    pushed :
        (buffer : List (List ℕ))
        → IsPlaced buffer c.write_offset
        → IsStream (pending buffer c.write_offset) (written outcome now buffer c)
    pushed [] q = (refl, q)
    pushed (front ∷ rest) q = send_front-IsSent outcome front rest c.write_offset q

write_each-IsStream :
    (socket : ℕ → Send) (clock : ℕ → ℕ) (n : ℕ) (buffer : List (List ℕ)) (offset contact : ℕ)
    → IsPlaced buffer offset
    → IsStream (pending buffer offset) (write_each socket clock n buffer offset contact)
unfolding write_each
write_each-IsStream socket clock n [] offset contact p = (refl, p)
write_each-IsStream socket clock n (front ∷ rest) offset contact p =
    let s = send_front (socket n) front rest offset in
    let k = send_front-IsSent (socket n) front rest offset p in
    let ih = write_each-IsStream socket clock (suc n) rest 0 (clock n) (IsPlaced-zero rest) in
    let r = write_each socket clock (suc n) rest 0 (clock n) in
    if_ind (IsStream (pending (front ∷ rest) offset)) s.completed
      (λ e.
        let d = send_front-completed (socket n) front rest offset e in
        (
          append_assoc s.bytes r.2 (pending r.1.write_buffer r.1.write_offset)
              ∙ ap (λ l. s.bytes ++ l) (ih.0 ∙ sym (cong_pending d.0 d.1))
              ∙ k.0,
          ih.1,
        ))
      (λ e. k)
  where
    cong_pending : {b : List (List ℕ)} {o : ℕ} → b ≡ rest → o ≡ 0 → pending b o ≡ pending rest 0
    cong_pending e f = cc (e, f)

-- A write of data, or a turn of the handler when the socket is ready.
pub data Operation : Type 0 where
  writing : Send → ℕ → List ℕ → Operation
  ready : (ℕ → Send) → (ℕ → ℕ) → Operation

abbrev pub operate : Operation → Connection → Bool × Connection × List ℕ
operate (writing outcome now dataset) c = write outcome now dataset c
operate (ready socket clock) c = write_handler socket clock c

abbrev pub data_of : Operation → List ℕ
data_of (writing outcome now dataset) = dataset
data_of (ready socket clock) = []

abbrev pub operate_all : List Operation → Connection → Connection × List ℕ
operate_all [] c = (c, [])
operate_all (o ∷ os) c =
    let (error, c', bytes) = operate o c in
    let (c'', more) = operate_all os c' in (c'', bytes ++ more)

abbrev pub all_data : List Operation → List ℕ
all_data [] = []
all_data (o ∷ os) = data_of o ++ all_data os

operate-IsStream :
    (o : Operation) (c : Connection)
    → IsPlaced c.write_buffer c.write_offset
    → IsStream (pending c.write_buffer c.write_offset ++ data_of o) (operate o c)
unfolding write_handler
operate-IsStream (writing outcome now dataset) c p = write-IsStream outcome now dataset c p
operate-IsStream (ready socket clock) c p =
    let k =
      write_each-IsStream socket clock 0 c.write_buffer c.write_offset c.last_write_contact p in
    (k.0 ∙ sym (append_nil (pending c.write_buffer c.write_offset)), k.1)

-- Whatever the socket takes of each call, the bytes that it has taken and those that are still in
-- the queue of a connection are together the bytes of all data that were written, each once and in
-- their order, after those that were in the queue before; and the offset is within the front of
-- the queue, if it was.
pub operate_all-stream :
    (os : List Operation) (c : Connection)
    → IsPlaced c.write_buffer c.write_offset
    → ((operate_all os c).1
          ++ pending (operate_all os c).0.write_buffer (operate_all os c).0.write_offset
        ≡ pending c.write_buffer c.write_offset ++ all_data os)
      × IsPlaced (operate_all os c).0.write_buffer (operate_all os c).0.write_offset
operate_all-stream [] c p = (sym (append_nil (pending c.write_buffer c.write_offset)), p)
operate_all-stream (o ∷ os) c p =
    let k = operate-IsStream o c p in
    let r = operate o c in
    let ih = operate_all-stream os r.1 k.1 in
    let last = (operate_all os r.1).0 in
    (
      append_assoc r.2 (operate_all os r.1).1 (pending last.write_buffer last.write_offset)
          ∙ ap (λ l. r.2 ++ l) ih.0
          ∙ sym (append_assoc r.2 (pending r.1.write_buffer r.1.write_offset) (all_data os))
          ∙ ap (λ l. l ++ all_data os) k.0
          ∙ append_assoc (pending c.write_buffer c.write_offset) (data_of o) (all_data os),
      ih.1,
    )
