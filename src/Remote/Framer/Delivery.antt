-- ===== src/Remote/Framer/Delivery.antt =====
-- What a framer hands to its callback does not depend on how the stream is cut.
use u_actor.Prelude.{
  ℕ, suc, zero, ◌+◌, ◌*◌, ◌^◌, ◌/◌, ◌%◌, ◌≡◌, ◌≤◌, ◌<◌, refl, sym, ap, ◌∙◌, Option, List, [], ◌∷◌,
  ◌++◌, length, arith, All, append_assoc,
}
use u_actor.Publication.{Map}
use u_actor.Remote.Framer.{
  ProcessingState, empty, waiting_for_size, waiting_for_data, Framer, new_framer, size_of,
  completed, iterate, process, process_data,
}
use u_actor.Remote.Framer.Stream.{
  Reading, header, sized, push, feed, reading, IsFraming, IsRound, framer, pause, after,
  empty-IsRound, size-IsRound, data-IsRound, feed-last,
}

-- The size of a frame, as it is sent.
abbrev pub size_field : ℕ → List ℕ
size_field n = n / 2 ^ 24 ∷ (n / 2 ^ 16) % 256 ∷ (n / 2 ^ 8) % 256 ∷ n % 256 ∷ []

size_of-size_field : (n : ℕ) → n < 2 ^ 32 → size_of (size_field n) ≡ n
unfolding size_of
size_of-size_field n h = omega (arith, h)

-- Frames one after the other.
abbrev pub wire : List (List ℕ) → List ℕ
wire [] = []
wire (c ∷ contents) = size_field (length c) ++ (c ++ wire contents)

-- What the contents of frames give.
unfoldable pub deliveries : (List ℕ → Option Map) → List (List ℕ) → List (Map × ℕ)
deliveries build [] = []
deliveries build (c ∷ contents) = completed build (length c) c ++ deliveries build contents

module _ (build : List ℕ → Option Map) where
  any-IsRound :
      (st : ProcessingState) (buffer : List ℕ) (r m n : ℕ) (content : List ℕ) (b : ℕ)
      (bytes : List ℕ)
      → IsFraming build (framer build st buffer r m n content)
      → IsRound build
          (framer build st buffer r m n content)
          (b ∷ bytes)
          (iterate build st (framer build st buffer r m n content) (b ∷ bytes))
  any-IsRound waiting_for_data buffer r m n content b bytes w =
      data-IsRound build buffer r m n b content bytes w.0 w.1
  any-IsRound empty (x ∷ y ∷ z ∷ u ∷ []) r m n content b bytes w =
      rw w.1 (empty-IsRound build x y z u r m n b bytes)
  any-IsRound waiting_for_size (x ∷ y ∷ z ∷ u ∷ []) r m n content b bytes w =
      rw w.1.0 (size-IsRound build x y z u r m n b bytes w.1.1)
  any-IsRound empty [] r m n content b bytes w = absurd (omega (arith, w.0))
  any-IsRound empty (x ∷ []) r m n content b bytes w = absurd (omega (arith, w.0))
  any-IsRound empty (x ∷ y ∷ []) r m n content b bytes w = absurd (omega (arith, w.0))
  any-IsRound empty (x ∷ y ∷ z ∷ []) r m n content b bytes w = absurd (omega (arith, w.0))
  any-IsRound empty (x ∷ y ∷ z ∷ u ∷ v ∷ more) r m n content b bytes w = absurd (omega (arith, w.0))
  any-IsRound waiting_for_size [] r m n content b bytes w = absurd (omega (arith, w.0))
  any-IsRound waiting_for_size (x ∷ []) r m n content b bytes w = absurd (omega (arith, w.0))
  any-IsRound waiting_for_size (x ∷ y ∷ []) r m n content b bytes w = absurd (omega (arith, w.0))
  any-IsRound waiting_for_size (x ∷ y ∷ z ∷ []) r m n content b bytes w =
      absurd (omega (arith, w.0))
  any-IsRound waiting_for_size (x ∷ y ∷ z ∷ u ∷ v ∷ more) r m n content b bytes w =
      absurd (omega (arith, w.0))

  -- Enough fuel reads all bytes, one after the other.
  process-feed :
      (fuel : ℕ) (s : Framer) (bytes : List ℕ)
      → IsFraming build s
      → 3 * length bytes + pause build s.state ≤ fuel
      → IsFraming build (process build fuel s bytes).0
        × ((reading build (process build fuel s bytes).0, (process build fuel s bytes).1)
            ≡ feed build (reading build s) bytes)
  unfolding process
  process-feed zero s [] w h = (w, refl)
  process-feed zero s (b ∷ bytes) w h = absurd (omega (arith, h))
  process-feed (suc fuel) s [] w h = (w, refl)
  process-feed (suc fuel) s (b ∷ bytes) w h =
      let next = iterate build s.state s (b ∷ bytes) in
      let round : IsRound build s (b ∷ bytes) next =
        any-IsRound s.state s.size_buffer s.size_field_remaining_bytes s.publicaton_remaining_bytes
          s.publicaton_full_size s.publication_buffer b bytes w in
      let rest = process-feed fuel next.0 next.1 round.framing (omega (arith, round.progress, h)) in
      (rest.0, ap (after build next.2) rest.1 ∙ sym round.reads)

  -- A framer that is handed bytes does with them what the machine does that reads one at a time:
  -- the loop ends with all bytes read, in a state that stands for the machine's, after the same calls,
  -- and its invariant, which it starts with, holds again.
  pub process_data-feed :
      (s : Framer) (bytes : List ℕ)
      → IsFraming build s
      → IsFraming build (process_data build s bytes).0
        × ((reading build (process_data build s bytes).0, (process_data build s bytes).1)
            ≡ feed build (reading build s) bytes)
  unfolding process_data
  process_data-feed s bytes w = process-feed (3 * length bytes + 2) s bytes w (bound s.state)
    where
      bound : (st : ProcessingState) → 3 * length bytes + pause build st ≤ 3 * length bytes + 2
      bound empty = omega arith
      bound waiting_for_size = omega arith
      bound waiting_for_data = omega arith

  feed-append :
      (xs ys : List ℕ) (r : Reading)
      → feed build r (xs ++ ys)
        ≡ after build (feed build r xs).1 (feed build (feed build r xs).0 ys)
  feed-append [] ys r = refl
  feed-append (x ∷ xs) ys r =
      let (next, calls) = push build r x in
      let first = feed build next xs in
      ap (after build calls) (feed-append xs ys next)
      ∙ ap (λ c. ((feed build first.0 ys).0, c))
          (sym (append_assoc calls first.1 (feed build first.0 ys).1))

  -- However a stream is cut in two, the calls are those for the whole, for a framer in a state that
  -- its invariant allows, as the new one is.
  pub process_data-append :
      (s : Framer) (xs ys : List ℕ)
      → IsFraming build s
      → (process_data build s (xs ++ ys)).1
        ≡ (process_data build s xs).1 ++ (process_data build (process_data build s xs).0 ys).1
  process_data-append s xs ys w =
      let whole = process_data-feed s (xs ++ ys) w in
      let first = process_data-feed s xs w in
      let second = process_data-feed (process_data build s xs).0 ys first.0 in
      ap (λ t. t.1) (whole.1 ∙ feed-append xs ys (reading build s))
      ∙ ap (λ t. t.1 ++ (feed build t.0 ys).1) (sym first.1)
      ∙ ap (λ t. (process_data build s xs).1 ++ t.1) (sym second.1)

  feed-wire :
      (contents : List (List ℕ))
      → All (λ c. length c < 2 ^ 32) contents
      → feed build (header []) (wire contents) ≡ (header [], deliveries build contents)
  unfolding deliveries size_of completed
  feed-wire [] h = refl
  feed-wire ([] ∷ rest) h = feed-wire rest h.1
  feed-wire ((x ∷ c) ∷ rest) h =
      ap (λ n. feed build (sized n) ((x ∷ c) ++ wire rest))
        (size_of-size_field (length (x ∷ c)) h.0)
      ∙ feed-last build (x ∷ c) (wire rest) (length c) (length (x ∷ c)) [] refl
      ∙ ap (after build (completed build (length (x ∷ c)) (x ∷ c))) (feed-wire rest h.1)

  -- From a stream of frames, each below 2 ^ 32 bytes, a new framer hands over what the decoder makes
  -- of each content, in order and with its length; empty frames and contents that the decoder refuses
  -- give nothing.
  pub process_data-wire :
      (contents : List (List ℕ))
      → All (λ c. length c < 2 ^ 32) contents
      → (process_data build new_framer (wire contents)).1 ≡ deliveries build contents
  unfolding new_framer
  process_data-wire contents h =
      ap (λ t. t.1)
        ((process_data-feed new_framer (wire contents) (refl, refl)).1 ∙ feed-wire contents h)
