-- ===== src/Runtime/CodeFetch.antt =====
-- An actor whose code does not arrive: it gets timeouts only, one after the other.
use u_actor.Prelude.{
  ℕ, zero, suc, ◌+◌, ◌≤◌, ◌≡◌, refl, ap, ◌∙◌, Bool, true, false, Option, none, some, [],
  if◌then◌else◌, if_ind, arith, ltb, leb, text_beq,
}
use u_actor.Publication.{get_str_attr, get_attr, set_attr}
use u_actor.Router.Meta.{new_publication}
use u_actor.Runtime.{Engine, ExecutorApi, Actor}
use u_actor.Runtime.Methods.{
  ReceiveResult, trigger_timeout, timeout_message, has_type, conclude, trigger_code_fetch,
  deffered_block_for,
}
use u_actor.Runtime.Reception.{receive_next_internal, handle_message, code_timeout, unblocked}

module _ {E W : Type 0} where
  abbrev pub continue_timeouts :
      (Actor E → W → Option (ReceiveResult × Actor E × W))
      → Option (ReceiveResult × Actor E × W)
      → Option (ReceiveResult × Actor E × W)
  continue_timeouts next none = none
  continue_timeouts next (some (result, a, w)) =
      if result.exit then some (result, a, w) else next a w

  abbrev pub ends : Option (ReceiveResult × Actor E × W) → Option Bool
  ends none = none
  ends (some (result, a, w)) = some result.exit

module _ {E W : Type 0} (api : ExecutorApi W) (methods : Engine E) (hibernation : Bool) where
  -- A timeout of the executor, which the actor handles next.
  abbrev after_timeout : Actor E → W → Option (ReceiveResult × Actor E × W)
  after_timeout a w = receive_next_internal api methods hibernation (trigger_timeout false [] a) w

  after_timeout-code_timeout :
      (a : Actor E) (w : W)
      → a.waiting_for_code ≡ true
      → after_timeout a w
        ≡ some (
            code_timeout api methods hibernation false
              (unblocked api methods hibernation a.message_queue a)
              w)
  unfolding receive_next_internal handle_message trigger_timeout timeout_message has_type
      get_str_attr get_attr set_attr new_publication text_beq unblocked
  after_timeout-code_timeout a w h =
      if_ind
        (λ o.
          o
          ≡ some (
              code_timeout api methods hibernation false
                (unblocked api methods hibernation a.message_queue a) w))
        a.waiting_for_code (λ e. refl) (λ e. absurd (ground (arith, e, h)))

  -- The timeouts of an actor until it ends, one and `n` more at most.
  abbrev pub timeouts_only : ℕ → Actor E → W → Option (ReceiveResult × Actor E × W)
  timeouts_only zero a w = after_timeout a w
  timeouts_only (suc n) a w = continue_timeouts (timeouts_only n) (after_timeout a w)

  -- An actor that waits for its code and gets timeouts only ends: after as many timeouts as it has
  -- requests left of twenty it still waits, and the next timeout ends it.
  pub timeouts_only-ends :
      (n : ℕ) (a : Actor E) (w : W)
      → a.waiting_for_code ≡ true
      → a.code_fetch_retries + n ≤ 20
      → ends (timeouts_only n a w) ≡ some (leb 20 (a.code_fetch_retries + n))
  unfolding code_timeout trigger_code_fetch deffered_block_for conclude unblocked
  timeouts_only-ends zero a w h l =
      ap ends (after_timeout-code_timeout a w h)
      ∙ if_ind
          (λ (r : ReceiveResult × Actor E × W).
            some r.0.exit ≡ some (leb 20 (a.code_fetch_retries + 0)))
          (ltb a.code_fetch_retries 20) (λ e. ground (arith, e)) (λ e. ground (arith, e))
  timeouts_only-ends (suc n) a w h l =
      ap (λ o. ends (continue_timeouts (timeouts_only n) o)) (after_timeout-code_timeout a w h)
      ∙ if_ind
          (λ (r : ReceiveResult × Actor E × W).
            ends (continue_timeouts (timeouts_only n) (some r))
            ≡ some (leb 20 (a.code_fetch_retries + suc n)))
          (ltb a.code_fetch_retries 20)
          (λ e.
            timeouts_only-ends n _ _ refl (omega (arith, l))
            ∙ ap (λ k. some (leb 20 k)) (omega arith))
          (λ e. absurd (ground (arith, e, l)))
