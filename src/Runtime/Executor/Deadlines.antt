-- ===== src/Runtime/Executor/Deadlines.antt =====
-- The timeouts of an executor: the set in its order, and the loop that ends those that are over.
use u_actor.Prelude.{
  ℕ, ◌≤◌, ◌<◌, ◌≡◌, refl, sym, ap, ◌∙◌, subst, true, not, Option, none, some, List, [], ◌∷◌, ◌++◌,
  ◌==◌, nat_eq, nat_beq_iff, if_ind, ltb, arith, inl, inr, All, All-map, In,
}
use u_actor.Prelude.Assoc.{lookup, insert, lookup-insert}
use u_actor.Publication.{is_some}
use u_actor.Subscription.{member}
use u_actor.Runtime.{Actor}
use u_actor.Runtime.Methods.{trigger_timeout}
use u_actor.Runtime.Executor.{Executor, Timeout, timeout_ltb, emplace_timeout, schedule, keep_actor}
use u_actor.Runtime.Executor.Loop.{expire, fire_timeouts}
use u_actor.Runtime.Executor.Turns.{Grows, fire_timeouts-Grows}

-- Each timeout is at its time or before the ones that follow.
abbrev pub IsSorted : List Timeout → Type 0
IsSorted [] = Unit
IsSorted (t ∷ rest) = All (λ (u : Timeout). t.timeout ≤ u.timeout) rest × IsSorted rest

timeout_ltb-le : (t u : Timeout) → timeout_ltb t u ≡ true → t.timeout ≤ u.timeout
unfolding timeout_ltb
timeout_ltb-le t u =
    if_ind (λ b. b ≡ true → t.timeout ≤ u.timeout) (not (u.timeout == t.timeout))
      (λ e h. ground (arith, h)) (λ e h. ground (arith, e))

emplace_timeout-All :
    (n : ℕ) (t : Timeout) (ts : List Timeout)
    → n ≤ t.timeout
    → All (λ (u : Timeout). n ≤ u.timeout) ts
    → All (λ (u : Timeout). n ≤ u.timeout) (emplace_timeout t ts)
unfolding emplace_timeout
emplace_timeout-All n t [] l h = (l, tt)
emplace_timeout-All n t (u ∷ ts) l h =
    if_ind (All (λ (v : Timeout). n ≤ v.timeout)) (timeout_ltb t u) (λ e. (l, h))
      (λ e.
        if_ind (All (λ (v : Timeout). n ≤ v.timeout)) (timeout_ltb u t)
          (λ f. (h.0, emplace_timeout-All n t ts l h.1)) (λ f. h))

-- A new timeout keeps the set in the order of the times.
pub emplace_timeout-IsSorted :
    (t : Timeout) (ts : List Timeout) → IsSorted ts → IsSorted (emplace_timeout t ts)
unfolding emplace_timeout
emplace_timeout-IsSorted t [] s = (tt, tt)
emplace_timeout-IsSorted t (u ∷ ts) s =
    if_ind IsSorted (timeout_ltb t u)
      (λ e. (
        (
          timeout_ltb-le t u e,
          All-map (λ (v : Timeout) h. later u v (timeout_ltb-le t u e) h) ts s.0,
        ),
        s,
      ))
      (λ e.
        if_ind IsSorted (timeout_ltb u t)
          (λ f. (
            emplace_timeout-All u.timeout t ts (timeout_ltb-le u t f) s.0,
            emplace_timeout-IsSorted t ts s.1,
          ))
          (λ f. s))
  where
    later : (u v : Timeout) → t.timeout ≤ u.timeout → u.timeout ≤ v.timeout → t.timeout ≤ v.timeout
    later u v a b = omega (arith, a, b)

member-Grows : (n : ℕ) (p q : List ℕ) → Grows p q → member n p ≡ true → member n q ≡ true
member-Grows n p q (more, e) h = subst (λ l. member n l ≡ true) (sym e) (left p h)
  where
    left : (l : List ℕ) → member n l ≡ true → member n (l ++ more) ≡ true
    left [] g = absurd (ground (arith, g))
    left (m ∷ l) g = ground (arith, g, left l)

schedule-member : (task : ℕ) (ready : List ℕ) → member task (schedule task ready) ≡ true
unfolding schedule
schedule-member task ready =
    if_ind (λ q. member task q ≡ true) (member task ready) (λ e. e) (λ e. behind ready)
  where
    behind : (l : List ℕ) → member task (l ++ task ∷ []) ≡ true
    behind [] = ground (arith, nat_beq_iff task task)
    behind (m ∷ l) = ground (arith, behind l)

listed :
    (start : ℕ) (u : Timeout) (us : List Timeout)
    → All (λ (v : Timeout). start ≤ v.timeout) us
    → In u us
    → start ≤ u.timeout
listed start u [] h i = absurd i
listed start u (v ∷ us) h (inl e) = subst (λ x. start ≤ x.timeout) (sym e) h.0
listed start u (v ∷ us) h (inr i) = listed start u us h.1 i

module _ {E : Type 0} where
  -- No timeout that is over is left, and the actor of each one is ready, if there is the actor.
  abbrev pub AreOver : ℕ → List Timeout → Executor E → Executor E → Type 0
  AreOver start ts ex after =
      All (λ (u : Timeout). start ≤ u.timeout) after.timeouts
      × ((t : Timeout)
          → In t ts
          → t.timeout < start
          → is_some (lookup t.actor_id ex.actors) ≡ true
          → member t.actor_id after.ready_queue ≡ true)

  expire-actors :
      (id : ℕ) (o : Option (Actor E)) (t : Timeout) (ex : Executor E)
      → is_some (lookup id ex.actors) ≡ true
      → is_some (lookup id (expire o t ex).actors) ≡ true
  unfolding keep_actor
  expire-actors id none t ex h = h
  expire-actors id (some a) t ex h =
      if_ind
        (λ o.
          lookup id (insert t.actor_id (trigger_timeout t.user_defined t.trigger_id a) ex.actors)
            ≡ o
          → is_some (
              lookup id
                (insert t.actor_id (trigger_timeout t.user_defined t.trigger_id a) ex.actors))
            ≡ true)
        (t.actor_id == id) (λ e l. ap is_some l) (λ e l. ap is_some l ∙ h)
        (lookup-insert t.actor_id id (trigger_timeout t.user_defined t.trigger_id a) ex.actors)

  expire-member :
      (o : Option (Actor E)) (t : Timeout) (ex : Executor E)
      → is_some o ≡ true
      → member t.actor_id (expire o t ex).ready_queue ≡ true
  unfolding keep_actor
  expire-member none t ex h = absurd (ground (arith, h))
  expire-member (some a) t ex h = schedule-member t.actor_id ex.ready_queue

  over :
      (start : ℕ) (ts : List Timeout) (ex : Executor E)
      → ex.timeouts ≡ ts
      → IsSorted ts
      → AreOver start ts ex (fire_timeouts start ts ex)
  unfolding fire_timeouts
  over start [] ex e s =
      (subst (All (λ (u : Timeout). start ≤ u.timeout)) (sym e) tt, λ t i. absurd i)
  over start (t ∷ ts) ex e s =
      let ex' : Executor E = record (expire (lookup t.actor_id ex.actors) t ex) { timeouts = ts } in
      let ih = over start ts ex' refl s.1 in
      if_ind (AreOver start (t ∷ ts) ex) (ltb t.timeout start)
        (λ l. (
          ih.0,
          λ u i h k. elim i [
            | inl same ↦ member-Grows u.actor_id _ _ (fire_timeouts-Grows start ts ex') (
                subst (λ v. member v.actor_id ex'.ready_queue ≡ true) (sym same)
                  (expire-member (lookup t.actor_id ex.actors) t ex
                    (subst (λ v. is_some (lookup v.actor_id ex.actors) ≡ true) same k)))
            | inr later ↦
                ih.1 u later h (expire-actors u.actor_id (lookup t.actor_id ex.actors) t ex k)
          ],
        ))
        (λ l. (
          subst (All (λ (u : Timeout). start ≤ u.timeout)) (sym e) (all_later (ground (arith, l))),
          λ u i h k.
              absurd (omega (arith, h, listed start u (t ∷ ts) (all_later (ground (arith, l))) i)),
        ))
    where
      all_later : start ≤ t.timeout → All (λ (u : Timeout). start ≤ u.timeout) (t ∷ ts)
      all_later l = (l, All-map (λ (u : Timeout) h. reach u h) ts s.0)
        where
          reach : (u : Timeout) → t.timeout ≤ u.timeout → start ≤ u.timeout
          reach u h = omega (arith, l, h)

  -- The loop over the timeouts ends all that are over: none of those left is before the time at
  -- which it starts, and for each that was, the actor is ready, if there is the actor; if the set
  -- is in its order.
  pub fire_timeouts-AreOver :
      (start : ℕ) (ex : Executor E)
      → IsSorted ex.timeouts
      → AreOver start ex.timeouts ex (fire_timeouts start ex.timeouts ex)
  fire_timeouts-AreOver start ex s = over start ex.timeouts ex refl s
