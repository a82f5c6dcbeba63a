-- ===== src/Perm/Roles.antt =====
-- What the matrix means for users: the roles are nested, and groups only add permissions.
use otel_magnify.Prelude.{
  ◌≡◌, ◌≢◌, refl, true, List, [], ◌∷◌, ◌++◌, ◌||◌, String, string_eq, arith, eq_iff,
}
use otel_magnify.Perm.{Permission, matrix, has}

-- A user has what any of two lists of groups grants, and nothing else.
pub has-append : (gs hs : List String) (p : Permission) → has (gs ++ hs) p ≡ (has gs p || has hs p)
unfolding has
has-append [] hs p = refl
has-append (g ∷ gs) hs p = ground (arith, has-append gs hs p)

editor_subset : (p : Permission) → matrix "editor" p ≡ true → matrix "administrator" p ≡ true
unfolding matrix
editor_subset p h = ground arith

-- Replacing the group "editor" by "administrator" takes no permission away, whichever other groups
-- stand before and after it.
pub administrator_extends_editor :
    (gs hs : List String) (p : Permission)
    → has (gs ++ "editor" ∷ hs) p ≡ true
    → has (gs ++ "administrator" ∷ hs) p ≡ true
unfolding has
administrator_extends_editor gs hs p h = ground (
  arith,
  has-append gs ("editor" ∷ hs) p,
  has-append gs ("administrator" ∷ hs) p,
  editor_subset p,
)

-- A group that is neither "editor" nor "administrator" changes nothing, "viewer" among them.
pub unknown_grants_nothing :
    (g : String) (gs hs : List String) (p : Permission)
    → g ≢ "editor"
    → g ≢ "administrator"
    → has (gs ++ g ∷ hs) p ≡ has (gs ++ hs) p
unfolding has matrix
unknown_grants_nothing g gs hs p e a = ground (
  arith,
  has-append gs (g ∷ hs) p,
  has-append gs hs p,
  eq_iff g "editor",
  eq_iff g "administrator",
)
