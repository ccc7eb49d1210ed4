-- ===== src/Remote/Framer/Stream.antt =====
-- The framer against a machine that reads one byte at a time.
use u_actor.Prelude.{
  ℕ, suc, zero, ◌+◌, ◌-◌, ◌*◌, ◌≡◌, ◌≤◌, ◌<◌, refl, sym, ap, ◌∙◌, true, false, Option, List, [],
  ◌∷◌, ◌++◌, ◌==◌, nat_eq, ltb, leb, min, length, take, drop, arith, Bool-cases, inl, inr, ◌⊎◌,
  length-take, length-drop, take-append-drop, append_nil,
}
use u_actor.Publication.{Map}
use u_actor.Remote.Framer.{
  ProcessingState, empty, waiting_for_size, waiting_for_data, Framer, overwrite, size_of, completed,
  iterate,
}

-- What has been read of the current frame: bytes of its size, or bytes of its content, of which one
-- more than the first number are to come, out of the second.
pub data Reading : Type 0 where
  header : List ℕ → Reading
  body : ℕ → ℕ → List ℕ → Reading

-- After the size is known; an empty frame is over.
abbrev pub in_body : ℕ → ℕ → List ℕ → Reading
in_body zero size bs = header []
in_body (suc left) size bs = body left size bs

abbrev pub sized : ℕ → Reading
sized n = in_body n n []

abbrev pub push_header : List ℕ → ℕ → Reading
push_header (a ∷ b ∷ c ∷ []) d = sized (size_of (a ∷ b ∷ c ∷ d ∷ []))
push_header bs d = header (bs ++ d ∷ [])

abbrev in_header : ℕ → List ℕ → Reading
in_header zero buffer = sized (size_of buffer)
in_header (suc more) buffer = header (take (3 - more) buffer)

take_all : (xs : List ℕ) → take (length xs) xs ≡ xs
take_all [] = refl
take_all (x ∷ xs) = ap (λ r. x ∷ r) (take_all xs)

drop_all : (xs : List ℕ) → drop (length xs) xs ≡ []
drop_all [] = refl
drop_all (x ∷ xs) = drop_all xs

append_snoc : (xs : List ℕ) (y : ℕ) (ys : List ℕ) → (xs ++ y ∷ []) ++ ys ≡ xs ++ y ∷ ys
append_snoc [] y ys = refl
append_snoc (x ∷ xs) y ys = ap (λ r. x ∷ r) (append_snoc xs y ys)

longer : (n : ℕ) (bytes : List ℕ) → n < length bytes → ltb n (length bytes) ≡ true
longer n bytes h = ground arith

module _ (build : List ℕ → Option Map) where
  -- One byte.
  abbrev pub push : Reading → ℕ → Reading × List (Map × ℕ)
  push (header bs) b = (push_header bs b, [])
  push (body zero size bs) b = (header [], completed build size (bs ++ b ∷ []))
  push (body (suc left) size bs) b = (body left size (bs ++ b ∷ []), [])

  -- Many bytes.
  abbrev pub feed : Reading → List ℕ → Reading × List (Map × ℕ)
  feed r [] = (r, [])
  feed r (b ∷ bytes) =
      let (r1, calls) = push r b in let (r2, more) = feed r1 bytes in (r2, calls ++ more)

  -- Where a framer is.
  abbrev pub reading_in : ProcessingState → Framer → Reading
  reading_in empty s = header []
  reading_in waiting_for_size s = in_header s.size_field_remaining_bytes s.size_buffer
  reading_in waiting_for_data s =
      in_body s.publicaton_remaining_bytes s.publicaton_full_size s.publication_buffer

  abbrev pub reading : Framer → Reading
  reading s = reading_in s.state s

  -- What holds between two rounds.
  abbrev pub IsSound : ProcessingState → Framer → Type 0
  IsSound empty s = s.publication_buffer ≡ []
  IsSound waiting_for_size s = (s.publication_buffer ≡ []) × (s.size_field_remaining_bytes ≤ 3)
  IsSound waiting_for_data s = (s.publicaton_full_size ≡ 0) ⊎ (1 ≤ s.publicaton_remaining_bytes)

  abbrev pub IsFraming : Framer → Type 0
  IsFraming s = (length s.size_buffer ≡ 4) × IsSound s.state s

  -- How many rounds a state may take without reading a byte.
  abbrev pub pause : ProcessingState → ℕ
  pause empty = 0
  pause waiting_for_data = 1
  pause waiting_for_size = 2

  abbrev pub after : List (Map × ℕ) → Reading × List (Map × ℕ) → Reading × List (Map × ℕ)
  after calls (r, more) = (r, calls ++ more)

  -- What a round owes: the invariant, the bytes it took read one at a time, and progress.
  pub record IsRound (s : Framer) (bytes : List ℕ) (next : Framer × List ℕ × List (Map × ℕ))
      : Type 0 where
    pub framing : IsFraming next.0
    pub reads : feed (reading s) bytes ≡ after next.2 (feed (reading next.0) next.1)
    pub progress : suc (3 * length next.1 + pause next.0.state) ≤ 3 * length bytes + pause s.state

  -- The bytes of a body that goes on after them.
  pub feed-body :
      (bytes : List ℕ) (m k n : ℕ) (bs : List ℕ)
      → m ≡ k + length bytes
      → feed (body m n bs) bytes ≡ (body k n (bs ++ bytes), [])
  feed-body [] m k n bs h =
      rw (append_nil bs) (let e : m ≡ k = omega (arith, h) in ap (λ x. (body x n bs, [])) e)
  feed-body (b ∷ bytes) zero k n bs h = absurd (omega (arith, h))
  feed-body (b ∷ bytes) (suc m) k n bs h =
      rw (feed-body bytes m k n (bs ++ b ∷ []) (omega (arith, h)))
        (rw (append_snoc bs b bytes) refl)

  -- The last bytes of a body.
  pub feed-last :
      (bytes rest : List ℕ) (m n : ℕ) (bs : List ℕ)
      → length bytes ≡ suc m
      → feed (body m n bs) (bytes ++ rest)
        ≡ after (completed build n (bs ++ bytes)) (feed (header []) rest)
  feed-last [] rest m n bs h = absurd (omega (arith, h))
  feed-last (b ∷ []) rest zero n bs h = refl
  feed-last (b ∷ c ∷ bytes) rest zero n bs h = absurd (omega (arith, h))
  feed-last (b ∷ bytes) rest (suc m) n bs h =
      rw (feed-last bytes rest m n (bs ++ b ∷ []) (omega (arith, h)))
        (rw (append_snoc bs b bytes) refl)

  abbrev pub framer : ProcessingState → List ℕ → ℕ → ℕ → ℕ → List ℕ → Framer
  framer st buffer missing left size content = record {
    state = st;
    size_buffer = buffer;
    size_field_remaining_bytes = missing;
    publicaton_remaining_bytes = left;
    publicaton_full_size = size;
    publication_buffer = content;
  }

  announced_or_none : (n : ℕ) → (n ≡ 0) ⊎ (1 ≤ n)
  announced_or_none zero = inl refl
  announced_or_none (suc n) = inr (omega arith)

  pub empty-IsRound :
      (w x y z r m n b : ℕ) (bytes : List ℕ)
      → IsRound
          (framer empty (w ∷ x ∷ y ∷ z ∷ []) r m n [])
          (b ∷ bytes)
          (iterate build empty (framer empty (w ∷ x ∷ y ∷ z ∷ []) r m n []) (b ∷ bytes))
  unfolding iterate overwrite
  empty-IsRound w x y z r m n b [] = record {
    framing = (refl, (refl, omega arith));
    reads = refl;
    progress = omega arith;
  }
  empty-IsRound w x y z r m n b (c ∷ []) = record {
    framing = (refl, (refl, omega arith));
    reads = refl;
    progress = omega arith;
  }
  empty-IsRound w x y z r m n b (c ∷ d ∷ []) = record {
    framing = (refl, (refl, omega arith));
    reads = refl;
    progress = omega arith;
  }
  empty-IsRound w x y z r m n b (c ∷ d ∷ e ∷ rest) =
      rw long record { framing = (refl, announced_or_none _); reads = refl; progress = omega arith }
    where
      long : leb 4 (length (b ∷ c ∷ d ∷ e ∷ rest)) ≡ true
      long = ground arith

  pub size-IsRound :
      (w x y z r m n b : ℕ) (bytes : List ℕ)
      → r ≤ 3
      → IsRound (framer waiting_for_size (w ∷ x ∷ y ∷ z ∷ []) r m n []) (b ∷ bytes) (
          iterate build waiting_for_size
            (framer waiting_for_size (w ∷ x ∷ y ∷ z ∷ []) r m n [])
            (b ∷ bytes))
  unfolding iterate overwrite
  size-IsRound w x y z zero m n b bytes h =
      rw (longer 0 (b ∷ bytes) (omega arith))
        record { framing = (refl, announced_or_none _); reads = refl; progress = omega arith }
  size-IsRound w x y z (suc zero) m n b [] h = record {
    framing = (refl, (refl, omega arith));
    reads = refl;
    progress = omega arith;
  }
  size-IsRound w x y z (suc zero) m n b (c ∷ rest) h =
      rw (longer 1 (b ∷ c ∷ rest) (omega arith))
        record { framing = (refl, announced_or_none _); reads = refl; progress = omega arith }
  size-IsRound w x y z (suc (suc zero)) m n b [] h = record {
    framing = (refl, (refl, omega arith));
    reads = refl;
    progress = omega arith;
  }
  size-IsRound w x y z (suc (suc zero)) m n b (c ∷ []) h = record {
    framing = (refl, (refl, omega arith));
    reads = refl;
    progress = omega arith;
  }
  size-IsRound w x y z (suc (suc zero)) m n b (c ∷ d ∷ rest) h =
      rw (longer 2 (b ∷ c ∷ d ∷ rest) (omega arith))
        record { framing = (refl, announced_or_none _); reads = refl; progress = omega arith }
  size-IsRound w x y z (suc (suc (suc zero))) m n b [] h = record {
    framing = (refl, (refl, omega arith));
    reads = refl;
    progress = omega arith;
  }
  size-IsRound w x y z (suc (suc (suc zero))) m n b (c ∷ []) h = record {
    framing = (refl, (refl, omega arith));
    reads = refl;
    progress = omega arith;
  }
  size-IsRound w x y z (suc (suc (suc zero))) m n b (c ∷ d ∷ []) h = record {
    framing = (refl, (refl, omega arith));
    reads = refl;
    progress = omega arith;
  }
  size-IsRound w x y z (suc (suc (suc zero))) m n b (c ∷ d ∷ e ∷ rest) h =
      rw (longer 3 (b ∷ c ∷ d ∷ e ∷ rest) (omega arith))
        record { framing = (refl, announced_or_none _); reads = refl; progress = omega arith }
  size-IsRound w x y z (suc (suc (suc (suc r)))) m n b bytes h = absurd (omega (arith, h))

  pub data-IsRound :
      (buffer : List ℕ) (r m n b : ℕ) (bs bytes : List ℕ)
      → length buffer ≡ 4
      → (n ≡ 0) ⊎ (1 ≤ m)
      → IsRound
          (framer waiting_for_data buffer r m n bs)
          (b ∷ bytes)
          (iterate build waiting_for_data (framer waiting_for_data buffer r m n bs) (b ∷ bytes))
  unfolding iterate
  data-IsRound buffer r zero n b bs bytes l h =
      rw none_taken (rw silent record { framing = (l, refl); reads = refl; progress = omega arith })
    where
      none_taken : min 0 (suc (length bytes)) ≡ 0
      none_taken = omega arith

      no_size : (n ≡ 0) ⊎ (1 ≤ 0) → n ≡ 0
      no_size (inl e) = e
      no_size (inr k) = absurd (omega (arith, k))

      silent : completed build n (bs ++ []) ≡ []
      silent = unfold completed in rw (no_size h) refl
  data-IsRound buffer r (suc m) n b bs bytes l h =
      elim (Bool-cases (leb (suc m) (suc (length bytes)))) [
        | inl enough ↦
            let whole : min (suc m) (suc (length bytes)) ≡ suc m = ground arith in
            let done : suc m - suc m ≡ 0 = omega arith in
            rw whole (
              rw done record {
                framing = (l, refl);
                reads = ends enough;
                progress = omega (arith, length-drop m bytes, leb_le enough);
              })
        | inr short ↦
            let part : min (suc m) (suc (length bytes)) ≡ suc (length bytes) = ground arith in
            let left : suc m - suc (length bytes) ≡ suc (m - suc (length bytes)) = ground arith in
            let more : (suc (m - suc (length bytes)) == 0) ≡ false = ground arith in
            rw part (
              rw left (
                rw more (
                  rw (take_all bytes) (
                    rw (drop_all bytes) record {
                      framing = (l, inr (omega arith));
                      reads = feed-body (b ∷ bytes) m (m - suc (length bytes)) n bs (ground arith);
                      progress = omega arith;
                    }))))
      ]
    where
      leb_le : leb (suc m) (suc (length bytes)) ≡ true → m ≤ length bytes
      leb_le e = ground arith

      ends :
          leb (suc m) (suc (length bytes)) ≡ true
          → feed (body m n bs) (b ∷ bytes)
            ≡ after (completed build n (bs ++ b ∷ take m bytes)) (feed (header []) (drop m bytes))
      ends e =
          ap (λ x. feed (body m n bs) (b ∷ x)) (sym (take-append-drop m bytes))
          ∙ feed-last (b ∷ take m bytes) (drop m bytes) m n bs
              (omega (arith, length-take m bytes, leb_le e))
