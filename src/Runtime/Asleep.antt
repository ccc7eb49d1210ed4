-- ===== src/Runtime/Asleep.antt =====
-- What an actor that has handled a message goes on to do, and the messages that it keeps.
use u_actor.Prelude.{
  ℕ, zero, suc, ◌≤◌, ◌≡◌, refl, sym, subst, Bool, true, false, not, ◌||◌, Option, none, some, List,
  [], ◌∷◌, text_eq, Bool-cases, inl, inr, ◌⊎◌, if_ind, arith, count, any,
}
use u_actor.Publication.{Map}
use u_actor.Filter.{matches}
use u_actor.Runtime.{RuntimeReturnValue, ExecutorApi, Actor}
use u_actor.Runtime.Methods.{
  ReceiveResult, extract, found_first, settle, conclude, is_failure, run_again,
}

-- A predicate on a result, if there is one.
abbrev pub Holds : {A : Type 0} → (A → Type 0) → Option A → Type 0
Holds P none = Unit
Holds P (some a) = P a

pub Holds-map :
    {A : Type 0} {P Q : A → Type 0} → ((a : A) → P a → Q a) → (o : Option A) → Holds P o → Holds Q o
Holds-map f none h = tt
Holds-map f (some a) h = f a h

-- The first message of a queue is one that the actor may take.
abbrev pub takes_first : Bool → (Map → Bool) → List Map → Bool
takes_first waiting expected [] = false
takes_first waiting expected (m ∷ ms) = not waiting || expected m

-- No message of a queue is one that the actor may take.
abbrev pub takes_none : Bool → (Map → Bool) → List Map → Bool
takes_none true expected queue = not (any expected queue)
takes_none false expected [] = true
takes_none false expected (m ∷ ms) = false

module _ {E : Type 0} where
  abbrev pub has_work : Actor E → Bool
  has_work a = takes_first a.waiting (λ m. matches a.pattern m) a.message_queue

  abbrev pub is_idle : Actor E → Bool
  is_idle a = takes_none a.waiting (λ m. matches a.pattern m) a.message_queue

  -- An actor ends, or is to run at once and has a message that it may take, or sleeps for the time
  -- of its timeout and has none, or is to run at once because its timeout is 0 and has none.
  abbrev pub IsConcluded : {W : Type 0} → ReceiveResult × Actor E × W → Type 0
  IsConcluded (result, a, w) =
      (result.exit ≡ true)
      ⊎ ((result.exit ≡ false) × (result.next_timeout ≡ 0) × (has_work a ≡ true))
      ⊎ ((result.exit ≡ false)
          × (1 ≤ result.next_timeout)
          × (result.next_timeout ≡ a.timeout)
          × (is_idle a ≡ true))
      ⊎ ((result.exit ≡ false) × (result.next_timeout ≡ 0) × (a.timeout ≡ 0) × (is_idle a ≡ true))

  idle-IsConcluded :
      {W : Type 0} (a : Actor E) (w : W)
      → is_idle a ≡ true
      → IsConcluded (record { exit = false; next_timeout = a.timeout }, a, w)
  idle-IsConcluded a w i = by_timeout a.timeout refl
    where
      by_timeout :
          (n : ℕ)
          → a.timeout ≡ n
          → IsConcluded (record { exit = false; next_timeout = a.timeout }, a, w)
      by_timeout zero e = inr (inr (inr (refl, e, e, i)))
      by_timeout (suc n) e = inr (inr (inl (refl, omega (arith, e), refl, i)))

module _ {A : Type 0} where
  -- What `extract` finds, and how often each message is left.
  abbrev Extracted : (A → Bool) → List A → Option (A × List A) → Type 0
  Extracted q xs none = any q xs ≡ false
  Extracted q xs (some (y, ys)) = (q y ≡ true) × ((r : A → Bool) → count r (y ∷ ys) ≡ count r xs)

  extract-Extracted : (q : A → Bool) (xs : List A) → Extracted q xs (extract q xs)
  unfolding extract
  extract-Extracted q [] = refl
  extract-Extracted q (x ∷ xs) = elim (Bool-cases (q x)) [
    | inl e ↦ rw e (e, λ r. refl)
    | inr e ↦ rw e (behind e (extract q xs) (extract-Extracted q xs))
  ]
    where
      behind :
          q x ≡ false
          → (o : Option (A × List A)) → Extracted q xs o
          → Extracted q (x ∷ xs) (elim o [ none ↦ none | some (y, ys) ↦ some (y, x ∷ ys) ])
      behind e none h = rw e h
      behind e (some (y, ys)) h = (h.0, λ r. omega (arith, h.1 r))

module _ {E W : Type 0} (api : ExecutorApi W) where
  -- After a message, an actor ends or is settled with the messages that it had.
  abbrev pub IsOutcome : Actor E → ReceiveResult × Actor E × W → Type 0
  IsOutcome a r =
      IsConcluded r
      × (r.1.code_fetch_retries ≡ a.code_fetch_retries)
      × ((q : Map → Bool) → count q r.1.message_queue ≡ count q a.message_queue)

  settle-IsOutcome : (a : Actor E) (w : W) → IsOutcome a (settle api a w)
  unfolding settle
  settle-IsOutcome a w =
      if_ind (IsOutcome a) a.waiting
        (λ e. searched e _ (extract-Extracted (λ m. matches a.pattern m) a.message_queue))
        (λ e. (resumed e a.message_queue refl, refl, λ q. refl))
    where
      searched :
          a.waiting ≡ true
          → (o : Option (Map × List Map)) → Extracted (λ m. matches a.pattern m) a.message_queue o
          → IsOutcome a (found_first api o a w)
      searched e none h = (idle-IsConcluded a w (rw e (rw h refl)), refl, λ q. refl)
      searched e (some (m, ms)) h = (inr (inl (refl, refl, rw e h.0)), refl, h.1)

      resumed :
          a.waiting ≡ false
          → (queue : List Map) → a.message_queue ≡ queue
          → IsConcluded
              (record { exit = false; next_timeout = run_again a.message_queue a.timeout }, a, w)
      resumed e [] h =
          subst
            (λ q. IsConcluded (record { exit = false; next_timeout = run_again q a.timeout }, a, w))
            (sym h) (idle-IsConcluded a w (rw e (rw h refl)))
      resumed e (m ∷ ms) h = rw h (inr (inl (refl, refl, rw e refl)))

  pub conclude-IsOutcome :
      (is_exit : Bool) (ret : RuntimeReturnValue) (a : Actor E) (w : W)
      → IsOutcome a (conclude api is_exit (ret, a, w))
  unfolding conclude
  conclude-IsOutcome is_exit ret a w =
      if_ind (IsOutcome a) (is_failure ret || is_exit) (λ e. (inl refl, refl, λ q. refl))
        (λ e. settle-IsOutcome a w)
