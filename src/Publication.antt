-- ===== src/Publication.antt =====
-- The attribute map of a publication: `Publication::Map` of uActor/include/pubsub/publication.hpp and
-- uActor/src/pubsub/publication.cpp. A map is an association list, whose order stands for the
-- iteration order of the `unordered_map`; a nested `shared_ptr<Map>` is the map that it points to.
pub mod Laws
pub mod Sharing
use u_actor.Prelude.{
  ℕ, ◌+◌, ◌≡◌, Text, ℤ, Bool, true, false, Option, none, some, List, [], ◌∷◌, ◌==◌, text_eq,
  if◌then◌else◌,
}

mutual
  -- `Map::VariantType`; a float is its IEEE 754 bit pattern.
  pub data Value : Type 0 where
    str : Text → Value
    int : ℤ → Value
    flt : ℕ → Value
    bin : List ℕ → Value
    nested : Map → Value

  -- `Map::DataType`
  pub data Map : Type 0 where
    empty : Map
    entry : Text → Value → Map → Map

-- The pairs that a range-based `for` visits.
unfoldable pub entries : Map → List (Text × Value)
entries empty = []
entries (entry k v m) = (k, v) ∷ entries m

unfoldable pub size : Map → ℕ
size empty = 0
size (entry k v m) = 1 + size m

-- `Map::get_attr`; `none` is `std::monostate`.
unfoldable pub get_attr : Text → Map → Option Value
get_attr name empty = none
get_attr name (entry k v m) = if k == name then some v else get_attr name m

abbrev pub is_some {ℓ} : {A : Type ℓ} → Option A → Bool
is_some none = false
is_some (some a) = true

unfoldable pub has_attr : Text → Map → Bool
has_attr name m = is_some (get_attr name m)

abbrev pub as_str : Option Value → Option Text
as_str (some (str s)) = some s
as_str _ = none

abbrev pub as_int : Option Value → Option ℤ
as_int (some (int n)) = some n
as_int _ = none

abbrev pub as_float : Option Value → Option ℕ
as_float (some (flt x)) = some x
as_float _ = none

abbrev pub as_bin : Option Value → Option (List ℕ)
as_bin (some (bin b)) = some b
as_bin _ = none

abbrev pub as_map : Option Value → Option Map
as_map (some (nested m)) = some m
as_map _ = none

unfoldable pub get_str_attr : Text → Map → Option Text
get_str_attr name m = as_str (get_attr name m)

unfoldable pub get_int_attr : Text → Map → Option ℤ
get_int_attr name m = as_int (get_attr name m)

unfoldable pub get_float_attr : Text → Map → Option ℕ
get_float_attr name m = as_float (get_attr name m)

unfoldable pub get_bin_attr : Text → Map → Option (List ℕ)
get_bin_attr name m = as_bin (get_attr name m)

unfoldable pub get_nested_component : Text → Map → Option Map
get_nested_component name m = as_map (get_attr name m)

unfoldable pub erase_attr : Text → Map → Map
erase_attr name empty = empty
erase_attr name (entry k v m) = if k == name then m else entry k v (erase_attr name m)

-- `unordered_map::insert_or_assign`
unfoldable pub insert_or_assign : Text → Value → Map → Map
insert_or_assign name w empty = entry name w empty
insert_or_assign name w (entry k v m) =
    if k == name then entry k w m else entry k v (insert_or_assign name w m)

-- `unordered_map::emplace`: an entry that is there stays.
unfoldable pub emplace : Text → Value → Map → Map
emplace name w empty = entry name w empty
emplace name w (entry k v m) = if k == name then entry k v m else entry k v (emplace name w m)

-- The overloads of `Map::set_attr`. The one for strings erases the old entry first.
unfoldable pub set_attr : Text → Value → Map → Map
unfolding erase_attr insert_or_assign emplace
set_attr name (str s) m = emplace name (str s) (erase_attr name m)
set_attr name v m = insert_or_assign name v m

-- `Map(const Map&)`: nested maps are copied, and there is no branch for `BinType`.
mutual
  pub copy_map : Map → Map
  copy_map empty = empty
  copy_map (entry k (str s) m) = entry k (str s) (copy_map m)
  copy_map (entry k (int n) m) = entry k (int n) (copy_map m)
  copy_map (entry k (flt x) m) = entry k (flt x) (copy_map m)
  copy_map (entry k (bin b) m) = copy_map m
  copy_map (entry k (nested n) m) = entry k (nested (copy_map n)) (copy_map m)

-- `has_map_attrs`
pub has_map_attrs : Map → Bool
has_map_attrs empty = false
has_map_attrs (entry k (nested n) m) = true
has_map_attrs (entry k v m) = has_map_attrs m

-- Every map of the program has distinct keys, as an `unordered_map` has.
abbrev pub Unique : Map → Type 0
Unique empty = Unit
Unique (entry k v m) = (get_attr k m ≡ none) × Unique m
