-- ===== src/CodeStore/Laws.antt =====
-- What the store of code keeps.
use u_actor.Prelude.{
  ℕ, ◌≡◌, refl, sym, ap, subst, ◌∙◌, Text, Bool, true, false, Option, none, some, [], ◌∷◌, ◌==◌,
  nat_eq, ◌+◌, ◌%◌, ◌^◌, ◌≤◌, ◌⊎◌, ◌↔◌, if◌then◌else◌, Bool-cases, inl, inr, arith,
}
use u_actor.Prelude.Assoc.{lookup, lookup-insert, Unique}
use u_actor.CodeStore.{
  CodeIdentifier, identifier_eq, identifier_beq_iff, CodePacket, Store, retrieve, retrieved, stored,
  insert_or_refresh, is_expired, cleanup,
}

-- Only the packet of the inserted identifier changes: it is the new one, or the old one with its
-- lifetime extended and, if it had no code, the new code.
pub lookup-insert_or_refresh :
    (identifier key : CodeIdentifier) (lifetime_end : ℕ) (code : Option Text) (store : Store)
    → lookup key (insert_or_refresh identifier lifetime_end code store) ≡ (
        if identifier == key
        then some (stored lifetime_end code (lookup identifier store))
        else lookup key store)
unfolding insert_or_refresh
lookup-insert_or_refresh identifier key lifetime_end code store =
    lookup-insert identifier key (stored lifetime_end code (lookup identifier store)) store

-- What is retrieved for an identifier that a store has a packet for or not.
abbrev available : Option CodePacket → Option Text
available none = none
available (some packet) = if packet.code_available then some packet.code else none

retrieve-available :
    (node_id : Text) (key : CodeIdentifier) (use_hook : Bool) (store : Store)
    → (retrieve node_id key use_hook store).0 ≡ available (lookup key store)
unfolding retrieve
retrieve-available node_id key use_hook store = chosen (lookup key store)
  where
    chosen : (o : Option CodePacket) → (retrieved node_id key use_hook o).0 ≡ available o
    chosen none = refl
    chosen (some packet) = elim (Bool-cases packet.code_available) [
      | inl a ↦ rw a refl
      | inr a ↦ rw a refl
    ]

-- The code that was there, or else the new one.
abbrev pub kept : Option Text → Text → Text
kept none code = code
kept (some old) code = old

-- After code has been inserted for an identifier, it is retrieved, unless other code was available
-- before, which stays; and the code of any other identifier is as it was.
pub retrieve-insert_or_refresh :
    (node_id : Text) (identifier key : CodeIdentifier) (use_hook : Bool) (lifetime_end : ℕ)
    (code : Text) (store : Store)
    → (retrieve node_id key use_hook
        (insert_or_refresh identifier lifetime_end (some code) store)).0
      ≡ (if identifier == key
          then some (kept (retrieve node_id identifier use_hook store).0 code)
          else (retrieve node_id key use_hook store).0)
retrieve-insert_or_refresh node_id identifier key use_hook lifetime_end code store =
    retrieve-available node_id key use_hook
      (insert_or_refresh identifier lifetime_end (some code) store)
    ∙ ap available (lookup-insert_or_refresh identifier key lifetime_end (some code) store)
    ∙ elim (Bool-cases (identifier == key)) [
      | inl e ↦ rw e (
          now_there (lookup identifier store)
          ∙ ap (λ o. some (kept o code))
              (sym (retrieve-available node_id identifier use_hook store)))
      | inr e ↦ rw e (sym (retrieve-available node_id key use_hook store))
    ]
  where
    now_there :
        (o : Option CodePacket)
        → available (some (stored lifetime_end (some code) o)) ≡ some (kept (available o) code)
    now_there none = unfold stored in refl
    now_there (some packet) =
        unfold stored in
        elim (Bool-cases packet.code_available) [
          | inl a ↦ rw a (ground (arith, a))
          | inr a ↦ rw a refl
        ]

-- What a clean-up leaves of a packet.
abbrev unexpired : ℕ → Option CodePacket → Option CodePacket
unexpired now none = none
unexpired now (some packet) = if is_expired now packet then none else some packet

lookup-cleanup :
    (now : ℕ) (key : CodeIdentifier) (store : Store)
    → Unique store
    → lookup key (cleanup now store) ≡ unexpired now (lookup key store)
unfolding cleanup lookup
lookup-cleanup now key [] u = refl
lookup-cleanup now key ((identifier, packet) ∷ store) u =
    elim (Bool-cases (is_expired now packet)) [
      | inl x ↦ rw x (elim (Bool-cases (identifier == key)) [
        | inl k ↦
            rw k (lookup-cleanup now key store u.1 ∙ ap (unexpired now) (absent k) ∙ sym (gone x))
        | inr k ↦ rw k (lookup-cleanup now key store u.1)
      ])
      | inr x ↦ rw x (elim (Bool-cases (identifier == key)) [
        | inl k ↦ rw k (sym (stays x))
        | inr k ↦ rw k (lookup-cleanup now key store u.1)
      ])
    ]
  where
    absent : (identifier == key) ≡ true → lookup key store ≡ none
    absent k = ap (λ i. lookup i store) (sym ((identifier_beq_iff identifier key).0 k)) ∙ u.0

    gone : is_expired now packet ≡ true → unexpired now (some packet) ≡ none
    gone x = rw x refl

    stays : is_expired now packet ≡ false → unexpired now (some packet) ≡ some packet
    stays x = rw x refl

-- A packet whose lifetime has no end, or is over for five seconds at most.
abbrev pub IsAlive : ℕ → CodePacket → Type 0
IsAlive now packet = (packet.lifetime_end ≡ 0) ⊎ (now ≤ (packet.lifetime_end + 5000) % 2 ^ 32)

is_expired-IsAlive :
    (now : ℕ) (packet : CodePacket) → (is_expired now packet ≡ false) ↔ IsAlive now packet
unfolding is_expired
is_expired-IsAlive now packet = (alive (packet.lifetime_end == 0) refl, kept_back)
  where
    alive :
        (b : Bool)
        → (packet.lifetime_end == 0) ≡ b
        → is_expired now packet ≡ false
        → IsAlive now packet
    alive true e h = inl (ground (arith, e))
    alive false e h = inr (ground (arith, e, h))

    kept_back : IsAlive now packet → is_expired now packet ≡ false
    kept_back (inl e) = ground (arith, e)
    kept_back (inr l) = ground (arith, l)

unexpired-IsAlive :
    (now : ℕ) (packet : CodePacket) (o : Option CodePacket)
    → (unexpired now o ≡ some packet) ↔ ((o ≡ some packet) × IsAlive now packet)
unfolding is_expired
unexpired-IsAlive now packet none =
    (λ h. absurd (ground (arith, h)), λ h. absurd (ground (arith, h.0)))
unexpired-IsAlive now packet (some old) = (forward, λ (e, l). backward (same e) l)
  where
    same : some old ≡ some packet → old ≡ packet
    same = ap (λ o. elim o [ none ↦ old | some x ↦ x ])

    forward : unexpired now (some old) ≡ some packet → (some old ≡ some packet) × IsAlive now packet
    forward h = elim (Bool-cases (is_expired now old)) [
      | inl x ↦ absurd (ground (arith, x, h))
      | inr x ↦
          let e : some old ≡ some packet = rw x at h in
          (e, subst (IsAlive now) (same e) ((is_expired-IsAlive now old).0 x))
    ]

    backward : old ≡ packet → IsAlive now packet → unexpired now (some old) ≡ some packet
    backward e l = rw ((is_expired-IsAlive now old).1 (subst (IsAlive now) (sym e) l)) (ap some e)

-- After a clean-up, a packet is there for an identifier exactly when it was there before and its
-- lifetime has no end (0) or the 32-bit sum of its end and 5000 ms has not passed; if no identifier
-- is there twice.
pub cleanup_iff :
    (now : ℕ) (key : CodeIdentifier) (packet : CodePacket) (store : Store)
    → Unique store
    → (lookup key (cleanup now store) ≡ some packet)
      ↔ ((lookup key store ≡ some packet) × IsAlive now packet)
cleanup_iff now key packet store u =
    let k = unexpired-IsAlive now packet (lookup key store) in
    let e = lookup-cleanup now key store u in (λ h. k.0 (sym e ∙ h), λ h. e ∙ k.1 h)
