-- ===== src/Remote/Forwarding/Routes.antt =====
-- The list of nodes that a message has come through.
use u_actor.Prelude.{
  ℕ, ◌≡◌, refl, sym, ap, ◌∙◌, Text, Bool, true, false, not, ◌&&◌, ◌||◌, List, [], ◌∷◌, ◌++◌, ◌==◌,
  text_eq, text_beq, nat_eq, codes, length, drop, arith, any, all, append_nil, append_assoc, none,
  some, Bool-cases, inl, inr, &&_parts,
}
use u_actor.Constraint.TextMatch.{starts_with}
use u_actor.Publication.{Map, str, Unique, get_attr, set_attr, has_attr, get_str_attr}
use u_actor.Publication.Laws.{get_attr-set_attr}
use u_actor.Remote.Forwarding.{
  is_listed, ends_here, comma, Infos, add_incomming_routing_fields, should_forward,
}

-- A node's name has no comma.
abbrev pub has_no_comma : Text → Bool
has_no_comma name = all (λ c. not (c == comma)) name

-- Names with a comma between any two.
abbrev pub joined : List Text → Text
joined [] = []
joined (n ∷ []) = n
joined (n ∷ m ∷ names) = n ++ comma ∷ joined (m ∷ names)

starts_with-cons :
    (c d : ℕ) (xs ys : Text) → starts_with (c ∷ xs) (d ∷ ys) ≡ ((c == d) && starts_with xs ys)
unfolding starts_with text_beq
starts_with-cons c d xs ys = ground arith

-- What the loop asks at the start of a name.
abbrev is_here : Text → Text → Bool
is_here partner rest = starts_with rest partner && ends_here (drop (length partner) rest)

-- A rest of the text after a name: nothing, or a comma.
is_here-name :
    (name partner rest : Text)
    → ends_here rest ≡ true
    → has_no_comma name ≡ true
    → has_no_comma partner ≡ true
    → is_here partner (name ++ rest) ≡ (name == partner)
unfolding starts_with text_beq
is_here-name [] [] rest e n p = ground (arith, e)
is_here-name [] (d ∷ partner) [] e n p = ground arith
is_here-name [] (d ∷ partner) (c ∷ rest) e n p =
    let different : (c == d) ≡ false = ground (arith, e, p) in
    rw (starts_with-cons c d rest partner) (rw different refl)
is_here-name (c ∷ name) [] rest e n p = ground (arith, n)
is_here-name (c ∷ name) (d ∷ partner) rest e n p =
    rw (starts_with-cons c d (name ++ rest) partner)
      (ground (arith, is_here-name name partner rest e, n, p))

or_false : (b : Bool) → (b || false) ≡ b
or_false true = refl
or_false false = refl

nil_differs : (partner : Text) → (partner == []) ≡ false → ([] == partner) ≡ false
unfolding text_beq
nil_differs [] x = x
nil_differs (d ∷ partner) x = refl

first_differs : (c : ℕ) (name : Text) → has_no_comma (c ∷ name) ≡ true → (c == comma) ≡ false
first_differs c name n = ground (arith, n)

rest_differs : (c : ℕ) (name : Text) → has_no_comma (c ∷ name) ≡ true → has_no_comma name ≡ true
rest_differs c name n = (&&_parts (not (c == comma)) (has_no_comma name) n).1

-- In the middle of a name nothing is found before the next comma.
is_listed-middle :
    (partner name rest : Text)
    → has_no_comma name ≡ true
    → is_listed partner false (name ++ comma ∷ rest) ≡ is_listed partner true rest
unfolding is_listed
is_listed-middle partner [] rest n = elim (Bool-cases (starts_with (comma ∷ rest) partner)) [
  | inl s ↦ rw s refl
  | inr s ↦ rw s refl
]
is_listed-middle partner (c ∷ name) rest n =
    elim (Bool-cases (starts_with (c ∷ (name ++ comma ∷ rest)) partner)) [
      | inl s ↦ rw s (ground (arith, is_listed-middle partner name rest, n))
      | inr s ↦ rw s (ground (arith, is_listed-middle partner name rest, n))
    ]

is_listed-last :
    (partner name : Text) → has_no_comma name ≡ true → is_listed partner false name ≡ false
unfolding is_listed
is_listed-last partner [] n = refl
is_listed-last partner (c ∷ name) n = elim (Bool-cases (starts_with (c ∷ name) partner)) [
  | inl s ↦ rw s (ground (arith, is_listed-last partner name, n))
  | inr s ↦ rw s (ground (arith, is_listed-last partner name, n))
]

-- A name at the start of the text is found exactly if it is the partner's.
is_listed-name :
    (name partner rest : Text)
    → has_no_comma name ≡ true
    → has_no_comma partner ≡ true
    → (partner == []) ≡ false
    → is_listed partner true (name ++ comma ∷ rest)
      ≡ ((name == partner) || is_listed partner true rest)
unfolding is_listed
is_listed-name [] partner rest n p x =
    ap (λ b. b || is_listed partner true rest) (is_here-name [] partner (comma ∷ rest) refl refl p)
is_listed-name (c ∷ name) partner rest n p x =
    ap (λ b. b || is_listed partner (c == comma) (name ++ comma ∷ rest))
      (is_here-name (c ∷ name) partner (comma ∷ rest) refl n p)
    ∙ ap (λ fresh. (c ∷ name == partner) || is_listed partner fresh (name ++ comma ∷ rest))
        (first_differs c name n)
    ∙ ap (λ b. (c ∷ name == partner) || b)
        (is_listed-middle partner name rest (rest_differs c name n))

is_listed-only :
    (name partner : Text)
    → has_no_comma name ≡ true
    → has_no_comma partner ≡ true
    → (partner == []) ≡ false
    → is_listed partner true name ≡ (name == partner)
unfolding is_listed
is_listed-only [] partner n p x = sym (nil_differs partner x)
is_listed-only (c ∷ name) partner n p x =
    ap (λ b. b || is_listed partner (c == comma) name)
      (ap (is_here partner) (sym (append_nil (c ∷ name)))
        ∙ is_here-name (c ∷ name) partner [] refl n p)
    ∙ ap (λ fresh. (c ∷ name == partner) || is_listed partner fresh name) (first_differs c name n)
    ∙ ap (λ b. (c ∷ name == partner) || b) (is_listed-last partner name (rest_differs c name n))
    ∙ or_false (c ∷ name == partner)

-- A partner whose name has no comma and is not empty is found in the joined names exactly if it is
-- one of them.
pub is_listed-joined :
    (partner : Text) (names : List Text)
    → has_no_comma partner ≡ true
    → (partner == []) ≡ false
    → all has_no_comma names ≡ true
    → is_listed partner true (joined names) ≡ any (λ name. name == partner) names
unfolding is_listed
is_listed-joined partner [] p x n = refl
is_listed-joined partner (name ∷ []) p x n =
    is_listed-only name partner (&&_parts (has_no_comma name) true n).0 p x
    ∙ sym (or_false (name == partner))
is_listed-joined partner (name ∷ m ∷ names) p x n =
    let parts = &&_parts (has_no_comma name) (all has_no_comma (m ∷ names)) n in
    is_listed-name name partner (joined (m ∷ names)) parts.0 p x
    ∙ ap (λ b. (name == partner) || b) (is_listed-joined partner (m ∷ names) p x parts.1)

-- The nodes that a message says it has come through.
abbrev pub IsRoute : List Text → Map → Type 0
IsRoute [] p = get_attr (codes "_internal_forwarded_by") p ≡ none
IsRoute (n ∷ names) p =
    get_attr (codes "_internal_forwarded_by") p ≡ some (str (joined (n ∷ names)))

joined_snoc :
    (n : Text) (names : List Text) (partner : Text)
    → joined ((n ∷ names) ++ partner ∷ []) ≡ joined (n ∷ names) ++ comma ∷ partner
joined_snoc n [] partner = refl
joined_snoc n (m ∷ names) partner =
    ap (λ t. n ++ comma ∷ t) (joined_snoc m names partner)
    ∙ sym (append_assoc n (comma ∷ joined (m ∷ names)) (comma ∷ partner))

-- A message that has come through some nodes and now comes in from a partner has come through that
-- one as well, as the last.
pub add_incomming_routing_fields-IsRoute :
    (partner : Text) (names : List Text) (p : Map)
    → Unique p
    → IsRoute names p
    → (q : Map) × (add_incomming_routing_fields partner p ≡ some q)
      × IsRoute (names ++ partner ∷ []) q
unfolding add_incomming_routing_fields has_attr get_str_attr text_beq
add_incomming_routing_fields-IsRoute partner [] p u r = (
  set_attr (codes "_internal_forwarded_by") (str partner) p,
  rw r refl,
  get_attr-set_attr (codes "_internal_forwarded_by") (codes "_internal_forwarded_by") (str partner)
      p u,
)
add_incomming_routing_fields-IsRoute partner (n ∷ names) p u r = (
  set_attr (codes "_internal_forwarded_by") (str (joined (n ∷ names) ++ comma ∷ partner)) p,
  rw r refl,
  get_attr-set_attr (codes "_internal_forwarded_by") (codes "_internal_forwarded_by")
        (str (joined (n ∷ names) ++ comma ∷ partner)) p u
      ∙ ap (λ t. some (str t)) (sym (joined_snoc n names partner)),
)

-- A message is not forwarded to a partner that it has come through, if no node's name has a comma
-- and the partner's is not empty; nothing is recorded of it then.
pub should_forward-IsRoute :
    (partner : Text) (names : List Text) (now : ℕ) (p : Map) (infos : Infos)
    → has_no_comma partner ≡ true
    → (partner == []) ≡ false
    → all has_no_comma names ≡ true
    → IsRoute names p
    → any (λ name. name == partner) names ≡ true
    → should_forward partner now p infos ≡ some (false, infos)
unfolding should_forward has_attr get_str_attr
should_forward-IsRoute partner [] now p infos c x n r here = cc here
should_forward-IsRoute partner (m ∷ names) now p infos c x n r here =
    let listed : is_listed partner true (joined (m ∷ names)) ≡ true =
      is_listed-joined partner (m ∷ names) c x n ∙ here in
    rw r (rw listed refl)
