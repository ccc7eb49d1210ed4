-- ===== src/Publication/Sharing.antt =====
-- The copy-on-write handles of `Publication`: the copy constructor, `set_attr`, `erase_attr`,
-- `deep_copy` and the move constructor, on a heap of attribute maps. The raw handles that
-- `root_handle` and `root_ptr` give out are not modelled.
pub mod Isolation
use u_actor.Prelude.{
  ℕ, suc, ◌<◌, ◌≡◌, ◌≢◌, refl, Text, Bool, true, false, Option, none, some, ◌==◌, nat_eq,
  nat_beq_iff, arith, if◌then◌else◌, List, [], ◌∷◌,
}
use u_actor.Publication.{Value, Map, empty, get_attr, erase_attr, set_attr, copy_map, has_map_attrs}

-- `attributes` is a cell of the heap, or null in a moved-from object.
pub record Handle : Type 0 where
  pub attributes : Option ℕ
  pub shallow_copy : Bool

-- The heap of maps, the next free cell, and the live objects by an identifier each.
pub record World : Type 0 where
  pub heap : ℕ → Map
  pub next : ℕ
  pub objects : ℕ → Option Handle

abbrev pub update {ℓ} : {V : Type ℓ} (cells : ℕ → V) (at : ℕ) (v : V) → (ℕ → V)
update cells at v = λ other. if at == other then v else cells other

-- Object `j` gets a fresh map that holds `m`.
abbrev pub with_own_map : ℕ → Map → World → World
with_own_map j m w = record {
  heap = update w.heap w.next m;
  next = suc w.next;
  objects = update w.objects j (some (record { attributes = some w.next; shallow_copy = false }));
}

-- Object `j` shares the map of object `i`, and both are marked.
abbrev pub with_shared_map : ℕ → ℕ → Handle → World → World
with_shared_map i j old w = record w {
  objects =
      update (update w.objects i (some (record old { shallow_copy = true }))) j
        (some (record old { shallow_copy = true }));
}

-- `Publication()`
unfoldable pub construct : ℕ → World → World
construct i w = with_own_map i empty w

copy_from : ℕ → ℕ → Handle → World → World
copy_from i j old w = elim old.attributes [
  | none ↦ w
  | some p ↦
      if has_map_attrs (w.heap p)
      then with_own_map j (copy_map (w.heap p)) w
      else with_shared_map i j old w
]

-- `Publication(const Publication& old)`: object `j` is made from object `i`. The source reads
-- through a null pointer if `i` was moved from; callers copy live objects only.
unfoldable pub copy_construct : ℕ → ℕ → World → World
unfolding copy_from
copy_construct i j w = elim (w.objects i) [ none ↦ w | some old ↦ copy_from i j old w ]

-- `Publication(Publication&& old)`
unfoldable pub move_construct : ℕ → ℕ → World → World
move_construct i j w = elim (w.objects i) [
  | none ↦ w
  | some old ↦ record w {
    objects = update (update w.objects i (some (record old { attributes = none }))) j (some old);
  }
]

-- A write through a handle: `deep_copy` first, if the map may be shared.
abbrev pub write_in_place : ℕ → (Map → Map) → World → World
write_in_place p f w = record w { heap = update w.heap p (f (w.heap p)) }

write_from : ℕ → (Map → Map) → Handle → World → World
write_from i f h w = elim h.attributes [
  | none ↦ w
  | some p ↦
      if h.shallow_copy then with_own_map i (f (copy_map (w.heap p))) w else write_in_place p f w
]

unfoldable pub write : ℕ → (Map → Map) → World → World
unfolding write_from
write i f w = elim (w.objects i) [ none ↦ w | some h ↦ write_from i f h w ]

-- `Publication::set_attr`
unfoldable pub set_object_attr : ℕ → Text → Value → World → World
unfolding write
set_object_attr i name v = write i (set_attr name v)

-- `Publication::erase_attr`
unfoldable pub erase_object_attr : ℕ → Text → World → World
unfolding write
erase_object_attr i name = write i (erase_attr name)

-- `Publication::get_attr`, with its check for a moved-from object.
abbrev pub attr_of : World → Text → Option Handle → Option Value
attr_of w name none = none
attr_of w name (some h) = elim h.attributes [ none ↦ none | some p ↦ get_attr name (w.heap p) ]

unfoldable pub object_attr : ℕ → Text → World → Option Value
object_attr i name w = attr_of w name (w.objects i)

-- Handles point below `next`, and two objects that share a map both know it.
pub record IsShared (w : World) : Type 0 where
  pub below : (i p : ℕ) (h : Handle) → w.objects i ≡ some h → h.attributes ≡ some p → p < w.next
  pub marked :
      (i j p : ℕ) (h k : Handle)
      → w.objects i ≡ some h
      → w.objects j ≡ some k
      → h.attributes ≡ some p
      → k.attributes ≡ some p
      → i ≢ j
      → (h.shallow_copy ≡ true) × (k.shallow_copy ≡ true)

-- One operation on some object of the program.
pub data Action : Type 0 where
  constructs : ℕ → Action
  copies : ℕ → ℕ → Action
  moves : ℕ → ℕ → Action
  sets : ℕ → Text → Value → Action
  erases : ℕ → Text → Action

pub act : Action → World → World
act (constructs i) w = construct i w
act (copies i j) w = copy_construct i j w
act (moves i j) w = move_construct i j w
act (sets i name v) w = set_object_attr i name v w
act (erases i name) w = erase_object_attr i name w

pub run : List Action → World → World
run [] w = w
run (a ∷ actions) w = run actions (act a w)

pub no_objects : World
no_objects = record { heap = λ _. empty; next = 0; objects = λ _. none }
