-- ===== src/Publication/Sharing/Isolation.antt =====
-- Copy on write gives every `Publication` the behaviour of a value of its own.
use u_actor.Prelude.{
  ℕ, ◌≡◌, ◌≢◌, refl, Text, false, Option, none, some, ◌==◌, nat_eq, nat_beq_iff, arith,
  Option-cases, Bool-cases, inl, inr, sym, ap, ◌∙◌, List, [], ◌∷◌,
}
use u_actor.Publication.{Value, Map, erase_attr, set_attr, copy_map, has_map_attrs}
use u_actor.Publication.Sharing.{
  Handle, World, update, with_own_map, with_shared_map, write_in_place, construct, copy_from,
  copy_construct, move_construct, write_from, write, set_object_attr, erase_object_attr, attr_of,
  object_attr, IsShared, Action, constructs, copies, moves, sets, erases, act, run, no_objects,
}

-- What object `j` reads is not changed by a write to a cell that it does not point to.
attr_of-heap :
    (w v : World) (c : ℕ) (x : Map) (name : Text) (o : Option Handle)
    → v.heap ≡ update w.heap c x
    → ((p : ℕ) (h : Handle) → o ≡ some h → h.attributes ≡ some p → c ≢ p)
    → attr_of v name o ≡ attr_of w name o
attr_of-heap w v c x name none e h = refl
attr_of-heap w v c x name (some k) e h = elim (Option-cases k.attributes) [
  | inl n ↦ rw n refl
  | inr (p, n) ↦ rw (n, e) (ground (arith, h p k refl n))
]

-- An object other than `i` reads what it did, if the world changed only object `i` and a cell that
-- the other one does not point to.
attr_of-change :
    (w v : World) (i j c : ℕ) (x : Map) (name : Text) (new : Option Handle)
    → i ≢ j
    → v.heap ≡ update w.heap c x
    → v.objects ≡ update w.objects i new
    → ((p : ℕ) (h : Handle) → w.objects j ≡ some h → h.attributes ≡ some p → c ≢ p)
    → attr_of v name (v.objects j) ≡ attr_of w name (w.objects j)
attr_of-change w v i j c x name new d eh eo apart = rw eo (elim (Bool-cases (i == j)) [
  | inl same ↦ absurd (d ((nat_beq_iff i j).0 same))
  | inr other ↦ rw other (attr_of-heap w v c x name (w.objects j) eh apart)
])

next-apart :
    {w : World} (j : ℕ)
    → IsShared w
    → (p : ℕ) (h : Handle) → w.objects j ≡ some h
    → h.attributes ≡ some p
    → w.next ≢ p
next-apart j v p h e n = omega (arith, v.below j p h e n)

-- A handle that is not marked as shared is the only one of its map.
alone :
    {w : World} (i j p : ℕ) (h : Handle)
    → IsShared w
    → i ≢ j
    → w.objects i ≡ some h
    → h.attributes ≡ some p
    → h.shallow_copy ≡ false
    → (q : ℕ) (k : Handle) → w.objects j ≡ some k
    → k.attributes ≡ some q
    → p ≢ q
alone i j p h v d e n s q k ek nk same =
    cc (v.marked i j p h k e ek n (nk ∙ ap some (sym same)) d).0

write_from_isolated :
    (i j : ℕ) (f : Map → Map) (h : Handle) (w : World) (name : Text)
    → IsShared w
    → w.objects i ≡ some h
    → i ≢ j
    → object_attr j name (write_from i f h w) ≡ object_attr j name w
unfolding write_from object_attr
write_from_isolated i j f h w name v e d = elim (Option-cases h.attributes) [
  | inl n ↦ rw (n, write_from) refl
  | inr (p, n) ↦ elim (Bool-cases h.shallow_copy) [
    | inl s ↦
        rw (n, write_from)
          (rw s (
            attr_of-change w (with_own_map i (f (copy_map (w.heap p))) w) i j w.next _ name _ d refl
              refl (next-apart j v)))
    | inr s ↦
        rw (n, write_from)
          (rw s (
            attr_of-heap w (write_in_place p f w) p (f (w.heap p)) name (w.objects j) refl
              (alone i j p h v d e n s)))
  ]
]

-- A write through one object (`set_attr`, `erase_attr`) changes no attribute that another object
-- reads, in a world where objects that share a map are marked.
pub set_object_attr_isolated :
    (i j : ℕ) (k name : Text) (x : Value) (w : World)
    → IsShared w
    → i ≢ j
    → object_attr j name (set_object_attr i k x w) ≡ object_attr j name w
unfolding set_object_attr write
set_object_attr_isolated i j k name x w v d = elim (Option-cases (w.objects i)) [
  | inl e ↦ rw (e, write) refl
  | inr (h, e) ↦ rw (e, write) (write_from_isolated i j (set_attr k x) h w name v e d)
]

pub erase_object_attr_isolated :
    (i j : ℕ) (k name : Text) (w : World)
    → IsShared w
    → i ≢ j
    → object_attr j name (erase_object_attr i k w) ≡ object_attr j name w
unfolding erase_object_attr write
erase_object_attr_isolated i j k name w v d = elim (Option-cases (w.objects i)) [
  | inl e ↦ rw (e, write) refl
  | inr (h, e) ↦ rw (e, write) (write_from_isolated i j (erase_attr k) h w name v e d)
]

with_own_map-IsShared : (i : ℕ) (m : Map) (w : World) → IsShared w → IsShared (with_own_map i m w)
with_own_map-IsShared i m w v = record {
  below = λ a p h e n. ground (arith, v.below a p h);
  marked = λ a b p h k e g n o d. ground (arith, v.marked a b p h k, v.below a p h, v.below b p k);
}

write_in_place-IsShared :
    (p : ℕ) (f : Map → Map) (w : World) → IsShared w → IsShared (write_in_place p f w)
write_in_place-IsShared p f w v = record { below = v.below; marked = v.marked }

with_shared_map-IsShared :
    (i j : ℕ) (old : Handle) (w : World)
    → IsShared w
    → w.objects i ≡ some old
    → IsShared (with_shared_map i j old w)
with_shared_map-IsShared i j old w v e = record {
  below = λ a p h x n. ground (arith, v.below a p h, v.below i p old e);
  marked = λ a b p h k x y n o d.
      ground (
        arith,
        v.marked a b p h k,
        v.marked i b p old k e,
        v.marked a i p h old,
        v.below i p old e,
      );
}

write_from-IsShared :
    (i : ℕ) (f : Map → Map) (h : Handle) (w : World) → IsShared w → IsShared (write_from i f h w)
unfolding write_from
write_from-IsShared i f h w v = elim (Option-cases h.attributes) [
  | inl n ↦ rw (n, write_from) v
  | inr (p, n) ↦ elim (Bool-cases h.shallow_copy) [
    | inl s ↦ rw (n, write_from) (rw s (with_own_map-IsShared i (f (copy_map (w.heap p))) w v))
    | inr s ↦ rw (n, write_from) (rw s (write_in_place-IsShared p f w v))
  ]
]

write-IsShared : (i : ℕ) (f : Map → Map) (w : World) → IsShared w → IsShared (write i f w)
unfolding write
write-IsShared i f w v = elim (Option-cases (w.objects i)) [
  | inl e ↦ rw (e, write) v
  | inr (h, e) ↦ rw (e, write) (write_from-IsShared i f h w v)
]

copy_from-IsShared :
    (i j : ℕ) (old : Handle) (w : World)
    → IsShared w
    → w.objects i ≡ some old
    → IsShared (copy_from i j old w)
unfolding copy_from
copy_from-IsShared i j old w v e = elim (Option-cases old.attributes) [
  | inl n ↦ rw (n, copy_from) v
  | inr (p, n) ↦ elim (Bool-cases (has_map_attrs (w.heap p))) [
    | inl s ↦ rw (n, copy_from) (rw s (with_own_map-IsShared j (copy_map (w.heap p)) w v))
    | inr s ↦ rw (n, copy_from) (rw s (with_shared_map-IsShared i j old w v e))
  ]
]

copy_construct-IsShared : (i j : ℕ) (w : World) → IsShared w → IsShared (copy_construct i j w)
unfolding copy_construct
copy_construct-IsShared i j w v = elim (Option-cases (w.objects i)) [
  | inl e ↦ rw (e, copy_construct) v
  | inr (old, e) ↦ rw (e, copy_construct) (copy_from-IsShared i j old w v e)
]

moved : ℕ → ℕ → Handle → World → World
moved i j old w = record w {
  objects = update (update w.objects i (some (record old { attributes = none }))) j (some old);
}

moved-IsShared :
    (i j : ℕ) (old : Handle) (w : World)
    → IsShared w
    → w.objects i ≡ some old
    → IsShared (moved i j old w)
unfolding moved
moved-IsShared i j old w v e = record {
  below = λ a p h x n. ground (arith, v.below a p h, v.below i p old e);
  marked = λ a b p h k x y n o d.
      ground (arith, v.marked a b p h k, v.marked i b p old k e, v.marked a i p h old);
}

move_construct-IsShared : (i j : ℕ) (w : World) → IsShared w → IsShared (move_construct i j w)
unfolding move_construct moved
move_construct-IsShared i j w v = elim (Option-cases (w.objects i)) [
  | inl e ↦ rw (e, move_construct) v
  | inr (old, e) ↦ rw (e, move_construct) (moved-IsShared i j old w v e)
]

act-IsShared : (a : Action) (w : World) → IsShared w → IsShared (act a w)
unfolding act construct set_object_attr erase_object_attr
act-IsShared (constructs i) w v = with_own_map-IsShared i _ w v
act-IsShared (copies i j) w v = copy_construct-IsShared i j w v
act-IsShared (moves i j) w v = move_construct-IsShared i j w v
act-IsShared (sets i name x) w v = write-IsShared i (set_attr name x) w v
act-IsShared (erases i name) w v = write-IsShared i (erase_attr name) w v

run-IsShared : (actions : List Action) (w : World) → IsShared w → IsShared (run actions w)
unfolding run
run-IsShared [] w v = v
run-IsShared (a ∷ actions) w v = run-IsShared actions (act a w) (act-IsShared a w v)

no_objects-IsShared : IsShared no_objects
unfolding no_objects
no_objects-IsShared = record { below = λ a p h e n. cc; marked = λ a b p h k e g n o d. cc }

-- After any sequence of constructions, copies, moves and writes of publications, a write of an
-- attribute through one object leaves every attribute of every other object as it was.
pub copies_are_independent :
    (actions : List Action) (i j : ℕ) (k name : Text) (x : Value)
    → i ≢ j
    → object_attr j name (set_object_attr i k x (run actions no_objects))
      ≡ object_attr j name (run actions no_objects)
copies_are_independent actions i j k name x d =
    set_object_attr_isolated i j k name x (run actions no_objects)
      (run-IsShared actions no_objects no_objects-IsShared) d
