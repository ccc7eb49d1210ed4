-- ===== src/Publication/Laws.antt =====
-- What reads of an attribute map see after its writes.
use u_actor.Prelude.{
  ◌≡◌, refl, Text, Bool, true, false, Option, none, some, ◌==◌, text_eq, text_beq_iff, arith,
  if◌then◌else◌, ap, ◌∙◌, subst, List, ℕ,
}
use u_actor.Publication.{
  Value, str, int, flt, bin, nested, Map, empty, entry, get_attr, erase_attr, insert_or_assign,
  emplace, set_attr, Unique, copy_map,
}

get_attr-insert_or_assign :
    (k j : Text) (v : Value) (m : Map)
    → get_attr j (insert_or_assign k v m) ≡ (if k == j then some v else get_attr j m)
unfolding get_attr insert_or_assign
get_attr-insert_or_assign k j v empty = refl
get_attr-insert_or_assign k j v (entry i w m) =
    ground (
      arith,
      text_beq_iff k j,
      text_beq_iff i k,
      text_beq_iff i j,
      get_attr-insert_or_assign k j v m,
    )

get_attr-emplace :
    (k j : Text) (v : Value) (m : Map)
    → get_attr k m ≡ none
    → get_attr j (emplace k v m) ≡ (if k == j then some v else get_attr j m)
unfolding get_attr emplace
get_attr-emplace k j v empty h = refl
get_attr-emplace k j v (entry i w m) h =
    ground (arith, text_beq_iff k j, text_beq_iff i k, text_beq_iff i j, get_attr-emplace k j v m)

pub get_attr-erase_attr :
    (k j : Text) (m : Map)
    → Unique m
    → get_attr j (erase_attr k m) ≡ (if k == j then none else get_attr j m)
unfolding get_attr erase_attr
get_attr-erase_attr k j empty u = ground arith
get_attr-erase_attr k j (entry i w m) u =
    ground
      (arith, text_beq_iff k j, text_beq_iff i k, text_beq_iff i j, get_attr-erase_attr k j m u.1)

get_attr-erase_attr_self : (k : Text) (m : Map) → Unique m → get_attr k (erase_attr k m) ≡ none
get_attr-erase_attr_self k m u = ground (arith, get_attr-erase_attr k k m u, text_beq_iff k k)

-- After a write of one attribute, a read of that attribute returns the value written and a read of
-- any other returns what it returned before, for every type of value, in a map with distinct keys.
pub get_attr-set_attr :
    (k j : Text) (v : Value) (m : Map)
    → Unique m
    → get_attr j (set_attr k v m) ≡ (if k == j then some v else get_attr j m)
unfolding set_attr
get_attr-set_attr k j (str s) m u = ground (
  arith,
  get_attr-emplace k j (str s) (erase_attr k m) (get_attr-erase_attr_self k m u),
  get_attr-erase_attr k j m u,
)
get_attr-set_attr k j (int n) m u = get_attr-insert_or_assign k j (int n) m
get_attr-set_attr k j (flt x) m u = get_attr-insert_or_assign k j (flt x) m
get_attr-set_attr k j (bin b) m u = get_attr-insert_or_assign k j (bin b) m
get_attr-set_attr k j (nested n) m u = get_attr-insert_or_assign k j (nested n) m

insert_or_assign-Unique :
    (k : Text) (v : Value) (m : Map) → Unique m → Unique (insert_or_assign k v m)
unfolding insert_or_assign get_attr
insert_or_assign-Unique k v empty u = (refl, tt)
insert_or_assign-Unique k v (entry i w m) u = ground (
  arith,
  insert_or_assign-Unique k v m u.1,
  get_attr-insert_or_assign k i v m,
  text_beq_iff i k,
  text_beq_iff k i,
)

emplace-Unique :
    (k : Text) (v : Value) (m : Map) → get_attr k m ≡ none → Unique m → Unique (emplace k v m)
unfolding emplace get_attr
emplace-Unique k v empty h u = (refl, tt)
emplace-Unique k v (entry i w m) h u =
    ground
      (arith, emplace-Unique k v m, get_attr-emplace k i v m, text_beq_iff i k, text_beq_iff k i)

erase_attr-Unique : (k : Text) (m : Map) → Unique m → Unique (erase_attr k m)
unfolding erase_attr get_attr
erase_attr-Unique k empty u = tt
erase_attr-Unique k (entry i w m) u =
    ground (arith, erase_attr-Unique k m u.1, get_attr-erase_attr k i m u.1)

-- Every write keeps the keys distinct.
pub set_attr-Unique : (k : Text) (v : Value) (m : Map) → Unique m → Unique (set_attr k v m)
unfolding set_attr
set_attr-Unique k (str s) m u =
    emplace-Unique k (str s) (erase_attr k m) (get_attr-erase_attr_self k m u)
      (erase_attr-Unique k m u)
set_attr-Unique k (int n) m u = insert_or_assign-Unique k (int n) m u
set_attr-Unique k (flt x) m u = insert_or_assign-Unique k (flt x) m u
set_attr-Unique k (bin b) m u = insert_or_assign-Unique k (bin b) m u
set_attr-Unique k (nested n) m u = insert_or_assign-Unique k (nested n) m u

-- What a copy of a map holds at a key: nested maps copied, binary values dropped.
abbrev pub copied : Option Value → Option Value
copied none = none
copied (some (bin b)) = none
copied (some (nested n)) = some (nested (copy_map n))
copied (some v) = some v

copied-if :
    (b : Bool) (v : Value) (o r : Option Value)
    → r ≡ copied o
    → (if b then copied (some v) else r) ≡ copied (if b then some v else o)
copied-if true v o r e = refl
copied-if false v o r e = e

copied-absent :
    (b : Bool) (c : List ℕ) (o r : Option Value)
    → r ≡ copied o
    → (b ≡ true → o ≡ none)
    → r ≡ copied (if b then some (bin c) else o)
copied-absent true c o r e absent = rw (e, absent refl)
copied-absent false c o r e absent = e

-- The copy constructor keeps each attribute with its value, a nested map as its copy, except that
-- an attribute with a binary value is missing from the copy; this in a map with distinct keys.
pub get_attr-copy_map :
    (k : Text) (m : Map) → Unique m → get_attr k (copy_map m) ≡ copied (get_attr k m)
unfolding copy_map get_attr
get_attr-copy_map k empty u = refl
get_attr-copy_map k (entry i (str s) m) u = copied-if _ (str s) _ _ (get_attr-copy_map k m u.1)
get_attr-copy_map k (entry i (int s) m) u = copied-if _ (int s) _ _ (get_attr-copy_map k m u.1)
get_attr-copy_map k (entry i (flt s) m) u = copied-if _ (flt s) _ _ (get_attr-copy_map k m u.1)
get_attr-copy_map k (entry i (bin s) m) u =
    copied-absent (i == k) s _ _ (get_attr-copy_map k m u.1)
      (λ e. subst (λ j. get_attr j m ≡ none) ((text_beq_iff i k).0 e) u.0)
get_attr-copy_map k (entry i (nested s) m) u =
    copied-if _ (nested s) _ _ (get_attr-copy_map k m u.1)

-- A binary attribute does not survive a copy.
pub copy_map_drops_bin :
    (k : Text) (b : List ℕ) (m : Map)
    → Unique m
    → get_attr k m ≡ some (bin b)
    → get_attr k (copy_map m) ≡ none
copy_map_drops_bin k b m u e = get_attr-copy_map k m u ∙ ap copied e

-- Every copy has distinct keys.
pub copy_map-Unique : (m : Map) → Unique m → Unique (copy_map m)
unfolding copy_map
copy_map-Unique empty u = tt
copy_map-Unique (entry k (str s) m) u =
    (get_attr-copy_map k m u.1 ∙ ap copied u.0, copy_map-Unique m u.1)
copy_map-Unique (entry k (int s) m) u =
    (get_attr-copy_map k m u.1 ∙ ap copied u.0, copy_map-Unique m u.1)
copy_map-Unique (entry k (flt s) m) u =
    (get_attr-copy_map k m u.1 ∙ ap copied u.0, copy_map-Unique m u.1)
copy_map-Unique (entry k (bin s) m) u = copy_map-Unique m u.1
copy_map-Unique (entry k (nested n) m) u =
    (get_attr-copy_map k m u.1 ∙ ap copied u.0, copy_map-Unique m u.1)
