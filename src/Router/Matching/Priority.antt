-- ===== src/Router/Matching/Priority.antt =====
-- Of the subscriptions that match, those with the highest priority are served.
use mathlib.Core.List.{append_assoc, append-nil}
use u_actor.Prelude.{
  ℕ, ◌<◌, ◌^◌, ◌≡◌, refl, ap, ◌∙◌, true, false, List, [], ◌∷◌, ◌++◌, ◌==◌, nat_eq, nat_beq_iff,
  if◌then◌else◌, ltb, leb, All, Bool-cases, inl, inr, arith, ◌⊎◌,
}
use Prim.Native.Nat.{max}
use u_actor.Subscription.{Subscription}
use u_actor.Router.{Selection, consider, receivers_of, no_selection}

abbrev pub priority_of : Subscription → ℕ
priority_of sub = sub.arguments.priority

unfoldable pub consider_all : List Subscription → Selection → Selection
consider_all [] sel = sel
consider_all (sub ∷ rest) sel = consider_all rest (consider sub sel)

pub consider_all-append :
    (xs ys : List Subscription) (sel : Selection)
    → consider_all (xs ++ ys) sel ≡ consider_all ys (consider_all xs sel)
unfolding consider_all
consider_all-append [] ys sel = refl
consider_all-append (x ∷ xs) ys sel = consider_all-append xs ys (consider x sel)

-- The highest priority, 0 if there is no subscription.
abbrev pub top : List Subscription → ℕ
top [] = 0
top (sub ∷ rest) = max (priority_of sub) (top rest)

-- The receivers of the subscriptions of one priority, in order.
abbrev pub receivers_at : ℕ → List Subscription → List (ℕ × ℕ)
receivers_at n [] = []
receivers_at n (sub ∷ rest) =
    if priority_of sub == n then receivers_of sub ++ receivers_at n rest else receivers_at n rest

-- `current_priority` has 8 bits.
abbrev pub IsByte : Subscription → Type 0
IsByte sub = priority_of sub < 2 ^ 8

consider_higher :
    (sub : Subscription) (sel : Selection)
    → sel.current_priority < priority_of sub
    → IsByte sub
    → consider sub sel
      ≡ record { current_priority = priority_of sub; current_receivers = receivers_of sub }
unfolding consider
consider_higher sub sel h b = ground arith

consider_lower :
    (sub : Subscription) (sel : Selection)
    → priority_of sub < sel.current_priority
    → consider sub sel ≡ sel
unfolding consider
consider_lower sub sel h = ground arith

consider_equal :
    (sub : Subscription) (sel : Selection)
    → priority_of sub ≡ sel.current_priority
    → consider sub sel
      ≡ record sel { current_receivers = sel.current_receivers ++ receivers_of sub }
unfolding consider
consider_equal sub sel h = ground arith

order : (a c : ℕ) → (c < a) ⊎ ((a < c) ⊎ (a ≡ c))
order a c = elim (Bool-cases (ltb c a)) [
  | inl h ↦ inl (ground arith)
  | inr h ↦ elim (Bool-cases (ltb a c)) [
    | inl k ↦ inr (inl (ground arith))
    | inr k ↦ inr (inr (ground arith))
  ]
]

-- What is selected from subscriptions with the highest priority `t`, after a selection of priority
-- `c` with the receivers `xs`, where `ys` are the receivers at the higher of the two.
out : ℕ → ℕ → List (ℕ × ℕ) → List (ℕ × ℕ) → List (ℕ × ℕ)
out t c xs ys = (if leb t c then xs else []) ++ ys

module _ (p t c : ℕ) (xs ys : List (ℕ × ℕ)) (at : ℕ → List (ℕ × ℕ)) where
  with_receivers : ℕ → List (ℕ × ℕ)
  with_receivers m = if p == m then ys ++ at m else at m

  out-higher :
      c < p → out t p ys (at (max p t)) ≡ out (max p t) c xs (with_receivers (max c (max p t)))
  unfolding out with_receivers
  out-higher h =
      let e : max c (max p t) ≡ max p t = omega arith in
      rw e (elim (Bool-cases (leb t p)) [
        | inl low ↦ rw (low, le_low low, (nat_beq_iff p (max p t)).1 (same low)) refl
        | inr high ↦ rw (high, le_low_not high, ne_high high) refl
      ])
    where
      le_low : leb t p ≡ true → leb (max p t) c ≡ false
      le_low l = ground arith

      le_low_not : leb t p ≡ false → leb (max p t) c ≡ false
      le_low_not l = ground arith

      same : leb t p ≡ true → p ≡ max p t
      same l = ground arith

      ne_high : leb t p ≡ false → (p == max p t) ≡ false
      ne_high l = ground arith

  out-lower :
      p < c → out t c xs (at (max c t)) ≡ out (max p t) c xs (with_receivers (max c (max p t)))
  unfolding out with_receivers
  out-lower h = let e : max c (max p t) ≡ max c t = omega arith in rw e (rw (ne, les) refl)
    where
      ne : (p == max c t) ≡ false
      ne = ground arith

      les : leb (max p t) c ≡ leb t c
      les = ground arith

  out-equal :
      p ≡ c
      → out t c (xs ++ ys) (at (max c t)) ≡ out (max p t) c xs (with_receivers (max c (max p t)))
  unfolding out with_receivers
  out-equal h =
      let e : max c (max p t) ≡ max c t = omega arith in
      rw e (elim (Bool-cases (leb t c)) [
        | inl low ↦
            rw (low, les ∙ low, (nat_beq_iff p (max c t)).1 (same low))
              (append_assoc xs ys (at (max c t)))
        | inr high ↦ rw (high, les ∙ high, ne_high high) refl
      ])
    where
      les : leb (max p t) c ≡ leb t c
      les = ground arith

      same : leb t c ≡ true → p ≡ max c t
      same l = ground arith

      ne_high : leb t c ≡ false → (p == max c t) ≡ false
      ne_high l = ground arith

consider_all-receivers :
    (subs : List Subscription) (sel : Selection)
    → All IsByte subs
    → (consider_all subs sel).current_receivers
      ≡ out
          (top subs)
          sel.current_priority
          sel.current_receivers
          (receivers_at (max sel.current_priority (top subs)) subs)
unfolding consider_all
consider_all-receivers [] sel b = unfold out in ground (arith, append-nil sel.current_receivers)
consider_all-receivers (sub ∷ rest) sel b = elim (order (priority_of sub) c) [
  | inl higher ↦
      ap after (consider_higher sub sel higher b.0)
      ∙ consider_all-receivers rest _ b.1
      ∙ (unfold with_receivers in out-higher p (top rest) c xs (receivers_of sub) at higher)
  | inr (inl lower) ↦
      ap after (consider_lower sub sel lower)
      ∙ consider_all-receivers rest sel b.1
      ∙ (unfold with_receivers in out-lower p (top rest) c xs (receivers_of sub) at lower)
  | inr (inr same) ↦
      ap after (consider_equal sub sel same)
      ∙ consider_all-receivers rest _ b.1
      ∙ (unfold with_receivers in out-equal p (top rest) c xs (receivers_of sub) at same)
]
  where
    c : ℕ
    c = sel.current_priority

    p : ℕ
    p = priority_of sub

    xs : List (ℕ × ℕ)
    xs = sel.current_receivers

    at : ℕ → List (ℕ × ℕ)
    at m = receivers_at m rest

    after : Selection → List (ℕ × ℕ)
    after s = (consider_all rest s).current_receivers

-- From an empty selection, the receivers of the subscriptions of the highest priority are selected.
pub select-highest :
    (subs : List Subscription)
    → All IsByte subs
    → (consider_all subs no_selection).current_receivers ≡ receivers_at (top subs) subs
unfolding no_selection
select-highest subs b =
    consider_all-receivers subs no_selection b
    ∙ (unfold out in
        elim (Bool-cases (leb (top subs) 0)) [
          | inl e ↦ rw e (ap (λ m. receivers_at m subs) (omega arith))
          | inr e ↦ rw e (ap (λ m. receivers_at m subs) (omega arith))
        ])
