-- ===== src/Topology/Attempts.antt =====
-- How often the topology manager tries to connect to a peer.
use u_actor.Prelude.{
  ℕ, ◌+◌, ◌%◌, ◌^◌, ◌≤◌, ◌<◌, ◌≡◌, refl, sym, ap, ◌∙◌, Text, ℤ, Bool, true, false, not, ◌&&◌,
  Option, none, some, List, [], ◌∷◌, ◌==◌, text_eq, text_beq_iff, if◌then◌else◌, if_ind, ltb,
  length, codes, arith, inl, inr, ◌⊎◌, subst, All,
}
use u_actor.Prelude.Assoc.{
  lookup, insert, Unique, lookup-insert, insert-Unique, lookup-erase, erase-Unique,
}
use u_actor.Publication.{Map, get_str_attr, has_attr}
use u_actor.Router.{is_text}
use u_actor.Topology.{
  TopologyManager, Board, attempt_over, should_connect, emplace_attempt, Announced, connect,
  announced_peer, receive_peer_announcement,
}

-- An attempt to connect to a peer that is not over before a time.
abbrev pub IsBlocked : ℕ → Text → List (Text × ℕ) → Type 0
IsBlocked time peer attempts = (d : ℕ) × (lookup peer attempts ≡ some d) × (time ≤ d)

-- The reading of the clock that matters for an attempt.
abbrev pub IsWithin : ℕ → Board → Type 0
IsWithin time board =
    (board.now ≤ time) × (time ≤ board.later + 5000) × (board.later + 5000 < 2 ^ 32)

-- What the look at an attempt finds.
record IsLooked (time : ℕ) (peer : Text) (attempts : List (Text × ℕ)) (r : List (Text × ℕ) × Bool)
    : Type 0 where
  looked_Unique : Unique r.0
  looked_none : r.1 ≡ false → lookup peer r.0 ≡ none
  looked_keeps : (other : Text) → IsBlocked time other attempts → IsBlocked time other r.0
  looked_blocked : IsBlocked time peer attempts → r.1 ≡ true

attempt_over-IsLooked :
    (time now : ℕ) (peer : Text) (attempts : List (Text × ℕ)) (o : Option ℕ)
    → lookup peer attempts ≡ o
    → Unique attempts
    → now ≤ time
    → IsLooked time peer attempts (attempt_over o peer now attempts)
attempt_over-IsLooked time now peer attempts none e u l = record {
  looked_Unique = u;
  looked_none = λ f. e;
  looked_keeps = λ other b. b;
  looked_blocked = λ (d, f, t). absurd (ground (arith, e, f));
}
attempt_over-IsLooked time now peer attempts (some deadline) e u l =
    if_ind (IsLooked time peer attempts) (ltb deadline now)
      (λ over. record {
        looked_Unique = erase-Unique peer attempts u;
        looked_none = λ f. lookup-erase peer peer attempts u ∙ rw (same peer) refl;
        looked_keeps = λ other (d, f, t). (
          d,
          lookup-erase peer other attempts u
              ∙ if_ind (λ o. o ≡ some d) (peer == other)
                  (λ s. absurd (
                    passed over
                      (sym e ∙ (ap (λ p. lookup p attempts) ((text_beq_iff peer other).0 s) ∙ f))
                      t))
                  (λ s. f),
          t,
        );
        looked_blocked = λ (d, f, t). absurd (passed over (sym e ∙ f) t);
      })
      (λ left. record {
        looked_Unique = u;
        looked_none = λ f. absurd (ground (arith, f));
        looked_keeps = λ other b. b;
        looked_blocked = λ b. refl;
      })
  where
    same : (p : Text) → (p == p) ≡ true
    same p = (text_beq_iff p p).1 refl

    passed : ltb deadline now ≡ true → {d : ℕ} → some deadline ≡ some d → time ≤ d → ⊥
    passed over s t = ground (arith, over, s, t, l)

-- What one announcement does to the attempts: with `ps`, the messages that it publishes.
record IsStep (time : ℕ) (announced : Text) (m : TopologyManager) (r : List Map × TopologyManager)
    : Type 0 where
  step_Unique : Unique r.1.connection_in_progress
  step_keeps :
      (other : Text)
      → IsBlocked time other m.connection_in_progress
      → IsBlocked time other r.1.connection_in_progress
  step_quiet : IsBlocked time announced m.connection_in_progress → r.0 ≡ []
  step_tries : (r.0 ≡ []) ⊎ ((length r.0 ≡ 1) × IsBlocked time announced r.1.connection_in_progress)

abbrev Holds : (List Map × TopologyManager → Type 0) → Announced → Type 0
Holds P none = Unit
Holds P (some r) = P r

not_first : (a b : Bool) → (not a && b) ≡ true → a ≡ false
not_first true b h = absurd (ground (arith, h))
not_first false b h = refl

module _ (time : ℕ) (board : Board) (w : IsWithin time board) where
  connect-IsStep :
      (peer : Text) (ip : Option Text) (port : Option ℤ) (m : TopologyManager)
      (r : Bool × TopologyManager) (progress : Bool)
      → IsLooked time peer m.connection_in_progress (r.1.connection_in_progress, progress)
      → (r.0 ≡ true → progress ≡ false)
      → Holds (IsStep time peer m) (connect board peer ip port r)
  connect-IsStep peer ip port m (false, m') progress k c = record {
    step_Unique = k.looked_Unique;
    step_keeps = k.looked_keeps;
    step_quiet = λ b. refl;
    step_tries = inl refl;
  }
  connect-IsStep peer none port m (true, m') progress k c = tt
  connect-IsStep peer (some ip) none m (true, m') progress k c = tt
  connect-IsStep peer (some ip) (some port) m (true, m') progress k c =
      let deadline = (board.later + 5000) % 2 ^ 32 in
      let late : time ≤ deadline = omega (arith, w.1, w.2) in
      record {
        step_Unique =
            subst Unique (sym emplaced)
              (insert-Unique peer deadline m'.connection_in_progress k.looked_Unique);
        step_keeps = λ other b.
            subst (IsBlocked time other) (sym emplaced) (kept late other (k.looked_keeps other b));
        step_quiet = λ b. absurd (ground (arith, c refl, k.looked_blocked b));
        step_tries = inr (
          refl,
          subst (IsBlocked time peer) (sym emplaced) (
            deadline,
            lookup-insert peer peer deadline m'.connection_in_progress
                ∙ rw ((text_beq_iff peer peer).1 refl) refl,
            late,
          ),
        );
      }
    where
      emplaced :
          emplace_attempt peer ((board.later + 5000) % 2 ^ 32) m'.connection_in_progress
          ≡ insert peer ((board.later + 5000) % 2 ^ 32) m'.connection_in_progress
      emplaced = unfold emplace_attempt in rw (k.looked_none (c refl)) refl

      kept :
          time ≤ (board.later + 5000) % 2 ^ 32
          → (other : Text) → IsBlocked time other m'.connection_in_progress
          → IsBlocked time other
              (insert peer ((board.later + 5000) % 2 ^ 32) m'.connection_in_progress)
      kept late other (d, f, t) =
          if_ind
            (λ o.
              lookup other (insert peer ((board.later + 5000) % 2 ^ 32) m'.connection_in_progress)
                ≡ o
              → IsBlocked time other
                  (insert peer ((board.later + 5000) % 2 ^ 32) m'.connection_in_progress))
            (peer == other) (λ s e. (_, e, late)) (λ s e. (d, e ∙ f, t))
            (lookup-insert peer other ((board.later + 5000) % 2 ^ 32) m'.connection_in_progress)

  receive_peer_announcement-IsStep :
      (publication : Map) (m : TopologyManager)
      → Unique m.connection_in_progress
      → (peer : Text) → get_str_attr (codes "peer_node_id") publication ≡ some peer
      → Holds (IsStep time peer m) (receive_peer_announcement board publication m)
  unfolding receive_peer_announcement should_connect
  receive_peer_announcement-IsStep publication m u peer e =
      if_ind (Holds (IsStep time peer m))
        (is_text (get_str_attr (codes "peer_type") publication) (codes "tcp_server")
          && (has_attr (codes "peer_ip") publication
              && (has_attr (codes "peer_port") publication
                  && has_attr (codes "peer_node_id") publication)))
        (λ h.
          subst (λ o. Holds (IsStep time peer m) (announced_peer board o publication m)) (sym e)
            (connect-IsStep peer _ _ m _ looked.1
              (attempt_over-IsLooked time board.now peer m.connection_in_progress
                (lookup peer m.connection_in_progress) refl u w.0)
              (λ c. not_first looked.1 _ c)))
        (λ h. record {
          step_Unique = u;
          step_keeps = λ other b. b;
          step_quiet = λ b. refl;
          step_tries = inl refl;
        })
    where
      looked : List (Text × ℕ) × Bool
      looked =
          attempt_over (lookup peer m.connection_in_progress) peer board.now
            m.connection_in_progress

-- The connections that an announcement of a peer tries, if it is the given peer.
abbrev pub tried : Bool → List Map → ℕ
tried same ps = if same then length ps else 0

abbrev pub then_count : Bool → Announced → (TopologyManager → ℕ) → ℕ
then_count same none next = 0
then_count same (some (ps, m)) next = tried same ps + next m

-- How many connections to a peer a list of announcements tries, each at its time.
unfoldable pub attempts_to : Text → List (Board × Map) → TopologyManager → ℕ
unfolding receive_peer_announcement
attempts_to peer [] m = 0
attempts_to peer ((board, publication) ∷ rest) m =
    then_count (is_text (get_str_attr (codes "peer_node_id") publication) peer)
      (receive_peer_announcement board publication m) (attempts_to peer rest)

-- What is counted of a step.
record IsCounted (time : ℕ) (peer : Text) (same : Bool) (m : TopologyManager)
    (r : List Map × TopologyManager) : Type 0 where
  counted_Unique : Unique r.1.connection_in_progress
  counted_blocked :
      IsBlocked time peer m.connection_in_progress
      → (tried same r.0 ≡ 0) × IsBlocked time peer r.1.connection_in_progress
  counted_tries :
      (tried same r.0 ≡ 0) ⊎ ((tried same r.0 ≡ 1) × IsBlocked time peer r.1.connection_in_progress)

IsStep-IsCounted :
    (time : ℕ) (peer announced : Text) (m : TopologyManager) (r : List Map × TopologyManager)
    (same : Bool)
    → (same ≡ true → announced ≡ peer)
    → IsStep time announced m r
    → IsCounted time peer same m r
IsStep-IsCounted time peer announced m r false e k = record {
  counted_Unique = k.step_Unique;
  counted_blocked = λ b. (refl, k.step_keeps peer b);
  counted_tries = inl refl;
}
IsStep-IsCounted time peer announced m r true e k =
    let s : IsStep time peer m r = subst (λ p. IsStep time p m r) (e refl) k in
    record {
      counted_Unique = s.step_Unique;
      counted_blocked = λ b. (ap length (s.step_quiet b), s.step_keeps peer b);
      counted_tries = elim s.step_tries [ inl q ↦ inl (ap length q) | inr t ↦ inr t ];
    }

announcement-IsCounted :
    (time : ℕ) (peer : Text) (board : Board) (publication : Map) (m : TopologyManager)
    → IsWithin time board
    → Unique m.connection_in_progress
    → Holds
        (IsCounted time peer (is_text (get_str_attr (codes "peer_node_id") publication) peer) m)
        (receive_peer_announcement board publication m)
unfolding receive_peer_announcement
announcement-IsCounted time peer board publication m w u =
    named (get_str_attr (codes "peer_node_id") publication) refl
  where
    named :
        (o : Option Text)
        → get_str_attr (codes "peer_node_id") publication ≡ o
        → Holds
            (IsCounted time peer (is_text o peer) m)
            (receive_peer_announcement board publication m)
    named none e =
        let idle : IsCounted time peer false m ([], m) = record {
          counted_Unique = u;
          counted_blocked = λ b. (refl, b);
          counted_tries = inl refl;
        } in
        if_ind (Holds (IsCounted time peer false m))
          (is_text (get_str_attr (codes "peer_type") publication) (codes "tcp_server")
            && (has_attr (codes "peer_ip") publication
                && (has_attr (codes "peer_port") publication
                    && has_attr (codes "peer_node_id") publication)))
          (λ h.
            subst (λ o. Holds (IsCounted time peer false m) (announced_peer board o publication m))
              (sym e) tt)
          (λ h. idle)
    named (some announced) e =
        stepped (receive_peer_announcement board publication m)
          (receive_peer_announcement-IsStep time board w publication m u announced e)
      where
        stepped :
            (o : Announced)
            → Holds (IsStep time announced m) o
            → Holds (IsCounted time peer (announced == peer) m) o
        stepped none k = tt
        stepped (some r) k =
            IsStep-IsCounted time peer announced m r (announced == peer)
              ((text_beq_iff announced peer).0) k

-- While an attempt is not over, there is no other.
blocked_attempts :
    (time : ℕ) (peer : Text) (run : List (Board × Map)) (m : TopologyManager)
    → All (λ (i : Board × Map). IsWithin time i.0) run
    → Unique m.connection_in_progress
    → IsBlocked time peer m.connection_in_progress
    → attempts_to peer run m ≡ 0
unfolding attempts_to
blocked_attempts time peer [] m w u b = refl
blocked_attempts time peer ((board, publication) ∷ rest) m w u b =
    after (blocked_attempts time peer rest) _
      (announcement-IsCounted time peer board publication m w.0 u)
  where
    same : Bool
    same = is_text (get_str_attr (codes "peer_node_id") publication) peer

    after :
        ((n : TopologyManager)
          → All (λ (i : Board × Map). IsWithin time i.0) rest
          → Unique n.connection_in_progress
          → IsBlocked time peer n.connection_in_progress
          → attempts_to peer rest n ≡ 0)
        → (o : Announced) → Holds (IsCounted time peer same m) o
        → then_count same o (attempts_to peer rest) ≡ 0
    after ih none k = refl
    after ih (some (ps, n)) k =
        omega (arith, (k.counted_blocked b).0, ih n w.1 k.counted_Unique (k.counted_blocked b).1)

-- Of all announcements within five seconds, those of one peer lead to one attempt to connect to it
-- at most, whatever other peers are announced in between: if all readings of the clock of the run
-- are up to some time and none is more than five seconds before it, the sums do not wrap, and there
-- is one attempt in progress to each peer at most at the start.
pub attempts_to-once :
    (time : ℕ) (peer : Text) (run : List (Board × Map)) (m : TopologyManager)
    → All (λ (i : Board × Map). IsWithin time i.0) run
    → Unique m.connection_in_progress
    → attempts_to peer run m ≤ 1
unfolding attempts_to
attempts_to-once time peer [] m w u = omega arith
attempts_to-once time peer ((board, publication) ∷ rest) m w u =
    after (attempts_to-once time peer rest) _
      (announcement-IsCounted time peer board publication m w.0 u)
  where
    same : Bool
    same = is_text (get_str_attr (codes "peer_node_id") publication) peer

    after :
        ((n : TopologyManager)
          → All (λ (i : Board × Map). IsWithin time i.0) rest
          → Unique n.connection_in_progress
          → attempts_to peer rest n ≤ 1)
        → (o : Announced) → Holds (IsCounted time peer same m) o
        → then_count same o (attempts_to peer rest) ≤ 1
    after ih none k = omega arith
    after ih (some (ps, n)) k = elim k.counted_tries [
      | inl none_tried ↦ omega (arith, none_tried, ih n w.1 k.counted_Unique)
      | inr (one, b) ↦ omega (arith, one, blocked_attempts time peer rest n w.1 k.counted_Unique b)
    ]
