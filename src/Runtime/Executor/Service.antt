-- ===== src/Runtime/Executor/Service.antt =====
-- The rounds of the event loop serve the actors in the order of the ready queue.
use u_actor.Prelude.{ℕ, ◌≡◌, Bool, List, [], ◌∷◌, nat_eq, true, false}
use u_actor.Runtime.{Engine}
use u_actor.Runtime.Executor.{Executor}
use u_actor.Runtime.Executor.Loop.{Round, undefined, stopped, out_of_fuel, running}
use u_actor.Runtime.Executor.Turns.{Grows}

-- The loop over the messages of a receiver has not ended within its fuel.
abbrev pub is_out_of_fuel : {A : Type 0} → Round A → Bool
is_out_of_fuel out_of_fuel = true
is_out_of_fuel _ = false

-- A round that has come to its end, with a predicate on what it leads to if the loop goes on: it may
-- have been told to stop, or have read an absent value.
abbrev pub Continues : {A : Type 0} → (A → Type 0) → Round A → Type 0
Continues P undefined = Unit
Continues P stopped = Unit
Continues P out_of_fuel = ⊥
Continues P (running a) = P a

module _ {E : Type 0} (methods : Engine E) (hibernation : Bool) (initial : E) where
  -- A turn serves the first actor of a ready queue, and leaves the others before any new ones.
  abbrev IsTurn : List ℕ → List ℕ × Executor E → Type 0
  IsTurn [] r = Unit
  IsTurn (task ∷ rest) r = (r.0 ≡ task ∷ []) × Grows rest r.1.ready_queue
