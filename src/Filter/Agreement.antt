-- ===== src/Filter/Agreement.antt =====
-- The two filter classes test publications alike, but for attributes that hold maps,
-- which an `InternalFilter` does not test.
use u_actor.Prelude.{
  ◌≡◌, refl, true, false, List, [], ◌∷◌, ◌&&◌, not, Bool, Option, none, some, ap, ap₂, ◌∙◌,
  if◌then◌else◌,
}
use u_actor.Publication.{Value, str, int, flt, bin, nested, Map, get_attr}
use u_actor.Constraint.{Constraint, attribute, operand}
use u_actor.Filter.{
  passes, check_required, check_optionals, matches, InternalFilter, to_filter, internal_passes,
  internal_check_required, internal_check_optionals, internal_matches,
}

-- The attribute is there and holds a map.
abbrev pub holds_map : Option Value → Bool
holds_map (some (nested m)) = true
holds_map _ = false

-- The constraints on attributes that hold no map.
unfoldable pub without_maps : Map → List Constraint → List Constraint
without_maps p [] = []
without_maps p (c ∷ cs) =
    let rest = without_maps p cs in if holds_map (get_attr (attribute c) p) then rest else c ∷ rest

required-without_maps :
    (p : Map) (cs : List Constraint)
    → internal_check_required cs p ≡ check_required (without_maps p cs) p
unfolding passes internal_passes internal_check_required check_required without_maps
required-without_maps p [] = refl
required-without_maps p (c ∷ cs) =
    tested (required-without_maps p cs) (get_attr (attribute c) p) refl
  where
    tested :
        internal_check_required cs p ≡ check_required (without_maps p cs) p
        → (o : Option Value) → get_attr (attribute c) p ≡ o
        → ((elim o [ none ↦ false | some v ↦ internal_passes (operand c) v ])
            && internal_check_required cs p)
          ≡ check_required (if holds_map o then without_maps p cs else c ∷ without_maps p cs) p
    tested ih none e = rw e (refl)
    tested ih (some (str s)) e = rw e (ap (λ b. passes (operand c) (str s) && b) ih)
    tested ih (some (int n)) e = rw e (ap (λ b. passes (operand c) (int n) && b) ih)
    tested ih (some (flt x)) e = rw e (ap (λ b. passes (operand c) (flt x) && b) ih)
    tested ih (some (bin b)) e = rw e ih
    tested ih (some (nested m)) e = ih

optionals-without_maps :
    (p : Map) (cs : List Constraint)
    → internal_check_optionals cs p ≡ check_optionals (without_maps p cs) p
unfolding passes internal_passes internal_check_optionals check_optionals without_maps
optionals-without_maps p [] = refl
optionals-without_maps p (c ∷ cs) =
    tested (optionals-without_maps p cs) (get_attr (attribute c) p) refl
  where
    tested :
        internal_check_optionals cs p ≡ check_optionals (without_maps p cs) p
        → (o : Option Value) → get_attr (attribute c) p ≡ o
        → ((elim o [ none ↦ true | some v ↦ internal_passes (operand c) v ])
            && internal_check_optionals cs p)
          ≡ check_optionals (if holds_map o then without_maps p cs else c ∷ without_maps p cs) p
    tested ih none e = rw e (ih)
    tested ih (some (str s)) e = rw e (ap (λ b. passes (operand c) (str s) && b) ih)
    tested ih (some (int n)) e = rw e (ap (λ b. passes (operand c) (int n) && b) ih)
    tested ih (some (flt x)) e = rw e (ap (λ b. passes (operand c) (flt x) && b) ih)
    tested ih (some (bin b)) e = rw e ih
    tested ih (some (nested m)) e = ih

-- An `InternalFilter` matches a publication exactly when the `Filter` does that has its constraints
-- but those on attributes that hold a map in the publication.
pub internal_matches-matches :
    (f : InternalFilter) (p : Map)
    → internal_matches f p
      ≡ matches
          (to_filter (record f {
            required = without_maps p f.required;
            optional = without_maps p f.optional;
          }))
          p
unfolding matches internal_matches to_filter
internal_matches-matches f p =
    ap₂ (λ a b. a && b) (required-without_maps p f.required) (optionals-without_maps p f.optional)
    ∙ both (check_required (without_maps p f.required) p)
        (check_optionals (without_maps p f.optional) p)
  where
    both : (a b : Bool) → (a && b) ≡ (if not a then false else b)
    both true b = refl
    both false b = refl
