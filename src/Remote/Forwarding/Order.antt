-- ===== src/Remote/Forwarding/Order.antt =====
-- What the sequence numbers keep out.
use u_actor.Prelude.{
  ℕ, ◌≡◌, refl, sym, ap, ◌∙◌, Text, Bool, true, false, none, some, List, [], ◌∷◌, ◌==◌, text_eq,
  text_beq_iff, nat_eq, if◌then◌else◌, arith, Bool-cases, Option-cases, inl, inr, ◌⊎◌, subst,
}
use u_actor.Prelude.Assoc.{lookup, insert, lookup-insert}
use u_actor.Remote.Forwarding.{SequenceInfo, is_older_than, Infos, advance}

-- What a connection reads of a message, and the time at which it does.
pub record Message : Type 0 where
  pub node : Text
  pub number : ℕ
  pub epoch : ℕ
  pub time : ℕ

abbrev pub pass : Message → Infos → Bool × Infos
pass m infos = advance m.time m.node m.number m.epoch infos

-- The infos after messages, one after the other.
abbrev pub after_all : List Message → Infos → Infos
after_all [] infos = infos
after_all (m ∷ ms) infos = after_all ms (pass m infos).1

abbrev pub info_of : Message → SequenceInfo
info_of m = record { sequence_number = m.number; epoch = m.epoch; last_timestamp = m.time }

-- The info of a message's publisher is not older than the message.
abbrev pub AtLeast : Message → Infos → Type 0
AtLeast m infos =
    (info : SequenceInfo) × (lookup m.node infos ≡ some info)
    × (is_older_than info m.number m.epoch ≡ false)

some_eq : (a b : SequenceInfo) → some a ≡ some b → a ≡ b
some_eq a b h = cc

-- The order of the infos is transitive where it is not strict.
older_trans :
    (info : SequenceInfo) (n e m f : ℕ) (t : ℕ)
    → is_older_than info n e ≡ false
    → is_older_than (record { sequence_number = n; epoch = e; last_timestamp = t }) m f ≡ false
    → is_older_than info m f ≡ false
unfolding is_older_than
older_trans info n e m f t h k = ground (arith, h, k)

older_irrefl : (m : Message) → is_older_than (info_of m) m.number m.epoch ≡ false
unfolding is_older_than
older_irrefl m = ground arith

-- A message that passes is new or newer than the info, and becomes the info; one that does not
-- leaves an info that is at least at it.
abbrev IsPassed : Message → Infos → Type 0
IsPassed x infos =
    (pass x infos ≡ (true, insert x.node (info_of x) infos))
    × ((info : SequenceInfo)
        → lookup x.node infos ≡ some info
        → is_older_than info x.number x.epoch ≡ true)

first_passes :
    (x : Message) (infos : Infos)
    → lookup x.node infos ≡ none
    → pass x infos ≡ (true, insert x.node (info_of x) infos)
unfolding advance
first_passes x infos e =
    ap
      (λ o. elim o as (λ _. Bool × Infos) [
        | none ↦ (true, insert x.node (info_of x) infos)
        | some info ↦
            if is_older_than info x.number x.epoch
            then (true, insert x.node (info_of x) infos)
            else (false, infos)
      ])
      e

known_passes :
    (x : Message) (infos : Infos) (info : SequenceInfo)
    → lookup x.node infos ≡ some info
    → pass x infos ≡ (
        if is_older_than info x.number x.epoch
        then (true, insert x.node (info_of x) infos)
        else (false, infos))
unfolding advance
known_passes x infos i e =
    ap
      (λ o. elim o as (λ _. Bool × Infos) [
        | none ↦ (true, insert x.node (info_of x) infos)
        | some info ↦
            if is_older_than info x.number x.epoch
            then (true, insert x.node (info_of x) infos)
            else (false, infos)
      ])
      e

pass-cases :
    (x : Message) (infos : Infos)
    → IsPassed x infos ⊎ ((pass x infos ≡ (false, infos)) × AtLeast x infos)
pass-cases x infos = elim (Option-cases (lookup x.node infos)) [
  | inl e ↦ inl (first_passes x infos e, λ info h. let c : none ≡ some info = sym e ∙ h in cc c)
  | inr (info, e) ↦ elim (Bool-cases (is_older_than info x.number x.epoch)) [
    | inl newer ↦ inl (
      known_passes x infos info e ∙ rw newer refl,
      λ other h.
          ap (λ i. is_older_than i x.number x.epoch) (some_eq other info (sym h ∙ e)) ∙ newer,
    )
    | inr not_newer ↦ inr (known_passes x infos info e ∙ rw not_newer refl, (info, e, not_newer))
  ]
]

found_self :
    (m : Message) (infos : Infos)
    → lookup m.node (insert m.node (info_of m) infos) ≡ some (info_of m)
found_self m infos =
    lookup-insert m.node m.node (info_of m) infos ∙ rw ((text_beq_iff m.node m.node).1 refl) refl

-- A message leaves the info of its publisher at least at itself.
pass-AtLeast : (m : Message) (infos : Infos) → AtLeast m (pass m infos).1
pass-AtLeast m infos = elim (pass-cases m infos) [
  | inl (e, newer) ↦
      subst (λ r. AtLeast m r.1) (sym e) (info_of m, found_self m infos, older_irrefl m)
  | inr (e, w) ↦ subst (λ r. AtLeast m r.1) (sym e) w
]

-- No message takes an info back.
pass-keeps : (m x : Message) (infos : Infos) → AtLeast m infos → AtLeast m (pass x infos).1
pass-keeps m x infos (info, e, least) = elim (pass-cases x infos) [
  | inr (same, w) ↦ subst (λ r. AtLeast m r.1) (sym same) (info, e, least)
  | inl (next, newer) ↦
      subst (λ r. AtLeast m r.1) (sym next)
        (elim (Bool-cases (x.node == m.node)) [
          | inl k ↦ (
            info_of x,
            lookup-insert x.node m.node (info_of x) infos ∙ rw k refl,
            raised info
                (newer info (ap (λ n. lookup n infos) ((text_beq_iff x.node m.node).0 k) ∙ e))
                least,
          )
          | inr k ↦ (info, lookup-insert x.node m.node (info_of x) infos ∙ rw k e, least)
        ])
]
  where
    raised :
        (i : SequenceInfo)
        → is_older_than i x.number x.epoch ≡ true
        → is_older_than i m.number m.epoch ≡ false
        → is_older_than (info_of x) m.number m.epoch ≡ false
    raised i h k = unfold is_older_than in ground (arith, h, k)

all-keep :
    (m : Message) (xs : List Message) (infos : Infos)
    → AtLeast m infos
    → AtLeast m (after_all xs infos)
all-keep m [] infos w = w
all-keep m (x ∷ xs) infos w = all-keep m xs (pass x infos).1 (pass-keeps m x infos w)

-- A publisher's message that is no newer than its info does not pass.
AtLeast-refused :
    (m later : Message) (infos : Infos)
    → AtLeast m infos
    → later.node ≡ m.node
    → is_older_than (info_of m) later.number later.epoch ≡ false
    → (pass later infos).0 ≡ false
AtLeast-refused m later infos (info, e, least) same no_newer = elim (pass-cases later infos) [
  | inr (refused, w) ↦ ap (λ r. r.0) refused
  | inl (passed, newer) ↦
      let h = newer info (ap (λ n. lookup n infos) same ∙ e) in
      let k = older_trans info m.number m.epoch later.number later.epoch m.time least no_newer in
      let c : true ≡ false = sym h ∙ k in cc c
]

-- Once a message has come in, whether it passed or not, no message of its publisher passes that is
-- not newer than it in epoch and number, whatever messages come in between; so none passes twice.
pub advance-once :
    (m later : Message) (between : List Message) (infos : Infos)
    → later.node ≡ m.node
    → is_older_than (info_of m) later.number later.epoch ≡ false
    → (pass later (after_all between (pass m infos).1)).0 ≡ false
advance-once m later between infos same no_newer =
    AtLeast-refused m later (after_all between (pass m infos).1)
      (all-keep m between (pass m infos).1 (pass-AtLeast m infos)) same no_newer
