-- ===== src/Remote/Processors/Balance.antt =====
-- How often an aggregate is announced and withdrawn.
use u_actor.Prelude.{
  ℕ, ◌+◌, ◌-◌, ◌%◌, ◌^◌, ◌≤◌, ◌<◌, ◌≡◌, refl, Bool, true, false, not, List, [], ◌∷◌, ◌==◌, nat_eq,
  bit, arith, Bool-cases, inl, inr,
}
use u_actor.Filter.{Filter}
use u_actor.Remote.Processors.{count_up, count_down}

-- A history of a counting processor, `true` for a filter that it counts and `false` for one that it
-- counts out: the last count, the announcements, and the withdrawals.
module _ (aggregate f : Filter) where
  unfoldable pub run : List Bool → ℕ → ℕ × ℕ × ℕ
  run [] n = (n, 0, 0)
  run (true ∷ events) n =
      let v = count_up aggregate f n in let r = run events v.2 in (r.0, bit (not v.0) + r.1, r.2)
  run (false ∷ events) n =
      let v = count_down aggregate f n in let r = run events v.2 in (r.0, r.1, bit (not v.0) + r.2)

  -- No more filters are counted out than in, and fewer than 2 ^ 32 are counted at a time.
  abbrev pub IsBalanced : List Bool → ℕ → Type 0
  IsBalanced [] n = n < 2 ^ 32
  IsBalanced (true ∷ events) n = (n + 1 < 2 ^ 32) × IsBalanced events (n + 1)
  IsBalanced (false ∷ events) n = (1 ≤ n) × (n < 2 ^ 32) × IsBalanced events (n - 1)

  count_up-values :
      (n : ℕ)
      → n + 1 < 2 ^ 32
      → ((count_up aggregate f n).0 ≡ not (n == 0)) × ((count_up aggregate f n).2 ≡ n + 1)
  unfolding count_up
  count_up-values n h =
      let fits : (n + 1) % 2 ^ 32 ≡ n + 1 = omega (arith, h) in
      elim (Bool-cases (n == 0)) [ inl e ↦ rw e (refl, fits) | inr e ↦ rw e (refl, fits) ]

  count_down-values :
      (n : ℕ)
      → 1 ≤ n
      → n < 2 ^ 32
      → ((count_down aggregate f n).0 ≡ not (n - 1 == 0)) × ((count_down aggregate f n).2 ≡ n - 1)
  unfolding count_down
  count_down-values n h k =
      let fits : (n + (2 ^ 32 - 1)) % 2 ^ 32 ≡ n - 1 = omega (arith, h, k) in
      rw fits
        (elim (Bool-cases (n - 1 == 0)) [ inl e ↦ rw e (refl, refl) | inr e ↦ rw e (refl, refl) ])

  -- In a history in which no more filters are counted out than in, and fewer than 2 ^ 32 at a time,
  -- announcements and withdrawals of the aggregate alternate: there is one announcement more than
  -- withdrawals if the last count is not 0 and the first was, one less in the opposite case, and else
  -- as many.
  pub run-balance :
      (events : List Bool) (n : ℕ)
      → IsBalanced events n
      → bit (not (n == 0)) + (run events n).1 ≡ (run events n).2 + bit (not ((run events n).0 == 0))
  unfolding run
  run-balance [] n w = ground arith
  run-balance (true ∷ events) n w =
      let v = count_up-values n w.0 in
      rw (v.0, v.1) (ground (arith, run-balance events (n + 1) w.1))
  run-balance (false ∷ events) n w =
      let v = count_down-values n w.0 w.1 in
      rw (v.0, v.1) (ground (arith, run-balance events (n - 1) w.2, w.0))
