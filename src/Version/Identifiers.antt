-- ===== src/Version/Identifiers.antt =====
-- `comparePrerelease`, `numericIdentifier` and `sign` of version.go.
use otel_magnify.Prelude.{
  ℕ, Option, none, some, List, [], ◌∷◌, ◌==◌, nat_eq, ltb, length, if◌then◌else◌,
}
use otel_magnify.Version.Strings.{Text, text_lt, text_eq}
use otel_magnify.Version.Number.{parse_number}

pub data Cmp : Type 0 where
  less same more : Cmp

-- `sign(a - b)`; both are in the range of `int`, so the difference does not overflow
unfoldable pub sign : ℕ → ℕ → Cmp
sign a b = if ltb a b then less else if ltb b a then more else same

-- The cases of the `switch`, on what `numericIdentifier` gives for the two; `none` goes on.
unfoldable pub decide_identifier : Option ℕ → Option ℕ → Text → Text → Option Cmp
unfolding sign text_lt text_eq
decide_identifier (some m) (some n) a b = if m == n then none else some (sign m n)
decide_identifier (some m) none a b = some less
decide_identifier none (some n) a b = some more
decide_identifier none none a b =
    if text_eq a b then none else if text_lt a b then some less else some more

unfoldable pub identifier_step : Text → Text → Option Cmp
unfolding decide_identifier
identifier_step a b = decide_identifier (parse_number a) (parse_number b) a b

-- The loop over the common length; `whole` is `sign(len(a) - len(b))`.
unfoldable pub compare_loop : Cmp → List Text → List Text → Cmp
unfolding identifier_step
compare_loop whole [] bs = whole
compare_loop whole (a ∷ as') [] = whole
compare_loop whole (a ∷ as') (b ∷ bs) =
    let rest = compare_loop whole as' bs in elim (identifier_step a b) [ none ↦ rest | some c ↦ c ]

unfoldable pub compare_prerelease : List Text → List Text → Cmp
unfolding compare_loop sign
compare_prerelease [] [] = same
compare_prerelease [] (b ∷ bs) = more
compare_prerelease (a ∷ as') [] = less
compare_prerelease (a ∷ as') (b ∷ bs) =
    compare_loop (sign (length (a ∷ as')) (length (b ∷ bs))) (a ∷ as') (b ∷ bs)
