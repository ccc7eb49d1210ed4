-- ===== src/Prelude/Assoc.antt =====
-- Association lists with one entry for each key: `std::map`, `std::unordered_map` and `std::set` of
-- the program. New keys go to the end; the order of entries stands for the iteration order.
use mathlib.Core.Path.{◌≡◌, refl}
use mathlib.Core.Option.{Option, none, some}
use mathlib.Core.List.{List, [], ◌∷◌}
use native.Mathlib.Omega.{arith}
use mathlib.Core.Path.{sym, ap}
use mathlib.Core.Logic.{inl, inr}
use u_actor.Prelude.Tests.{if◌then◌else◌, Bool-cases}
use u_actor.Prelude.Lists.{In}
use u_actor.Prelude.Equality.{Eq, ◌==◌}

module _ {ℓ κ} {K : Type ℓ} {V : Type κ} ⦃e : Eq K⦄ where
  -- find
  unfoldable pub lookup : K → List (K × V) → Option V
  lookup wanted [] = none
  lookup wanted ((key, value) ∷ rest) = if key == wanted then some value else lookup wanted rest

  -- insert_or_assign
  unfoldable pub insert : K → V → List (K × V) → List (K × V)
  insert new value [] = (new, value) ∷ []
  insert new value ((key, old) ∷ rest) =
      if key == new then (key, value) ∷ rest else (key, old) ∷ insert new value rest

  -- erase by key
  unfoldable pub erase : K → List (K × V) → List (K × V)
  erase k [] = []
  erase k ((j, v) ∷ m) = if j == k then m else (j, v) ∷ erase k m

  -- No key occurs twice.
  abbrev pub Unique : List (K × V) → Type κ
  Unique [] = Unit
  Unique ((k, v) ∷ m) = (lookup k m ≡ none) × Unique m

  pub lookup-insert :
      (new wanted : K) (value : V) (m : List (K × V))
      → lookup wanted (insert new value m) ≡ (if new == wanted then some value else lookup wanted m)
  unfolding lookup insert
  lookup-insert new wanted value [] = refl
  lookup-insert new wanted value ((key, old) ∷ m) = ground (
    lookup-insert new wanted value m,
    e.beq_iff key wanted,
    e.beq_iff new wanted,
    e.beq_iff key new,
    arith,
  )

  pub insert-Unique : (k : K) (v : V) (m : List (K × V)) → Unique m → Unique (insert k v m)
  unfolding insert lookup
  insert-Unique k v [] u = (refl, tt)
  insert-Unique k v ((j, w) ∷ m) u =
      ground (arith, e.beq_iff j k, e.beq_iff k j, insert-Unique k v m u.1, lookup-insert k j v m)

  pub lookup-erase :
      (k j : K) (m : List (K × V))
      → Unique m
      → lookup j (erase k m) ≡ (if k == j then none else lookup j m)
  unfolding lookup erase
  lookup-erase k j [] u = ground arith
  lookup-erase k j ((i, v) ∷ m) u =
      ground (arith, e.beq_iff k j, e.beq_iff i k, e.beq_iff i j, lookup-erase k j m u.1)

  pub erase-Unique : (k : K) (m : List (K × V)) → Unique m → Unique (erase k m)
  unfolding erase lookup
  erase-Unique k [] u = tt
  erase-Unique k ((j, w) ∷ m) u = ground (arith, erase-Unique k m u.1, lookup-erase k j m u.1)

some_eq : {A : Type 0} (a b : A) → some a ≡ some b → a ≡ b
some_eq a b h = cc

module _ {K V : Type 0} ⦃e : Eq K⦄ where
  pub In-lookup : (k : K) (v : V) (m : List (K × V)) → lookup k m ≡ some v → In (k, v) m
  unfolding lookup
  In-lookup k v [] h = cc
  In-lookup k v ((j, w) ∷ m) h = elim (Bool-cases (j == k)) [
    | inl same ↦ inl (cc ((e.beq_iff j k).0 same, some_eq w v (rw same at h)))
    | inr other ↦ inr (In-lookup k v m (rw other at h))
  ]

  pub lookup-In : (k : K) (v : V) (m : List (K × V)) → Unique m → In (k, v) m → lookup k m ≡ some v
  unfolding lookup
  lookup-In k v [] u h = absurd h
  lookup-In k v ((j, w) ∷ m) u (inl h) =
      rw ((e.beq_iff j k).1 (sym (ap (λ t. t.0) h))) (ap (λ t. some (t.1)) (sym h))
  lookup-In k v ((j, w) ∷ m) u (inr h) = elim (Bool-cases (j == k)) [
    | inl same ↦ cc (lookup-In k v m u.1 h, u.0, (e.beq_iff j k).0 same)
    | inr other ↦ rw other (lookup-In k v m u.1 h)
  ]
