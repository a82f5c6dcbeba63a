-- ===== src/Version/Order/Texts.antt =====
-- Go's order on strings, as a three-way comparison.
use otel_magnify.Prelude.{◌≡◌, refl, [], ◌∷◌, arith, if◌then◌else◌}
use otel_magnify.Version.Identifiers.{Cmp, less, same, more, sign}
use otel_magnify.Version.Strings.{Text, text_lt, text_eq}
use otel_magnify.Version.Order.Signs.{
  Coherent, opposite, lex, sign-opposite, sign-Coherent, lex-opposite, lex-Coherent,
}

-- Comparison by `==` and `<`, as the `switch` makes it.
unfoldable pub text_cmp : Text → Text → Cmp
text_cmp s t = if text_eq s t then same else if text_lt s t then less else more

-- The same, character by character.
unfoldable pub by_chars : Text → Text → Cmp
by_chars [] [] = same
by_chars [] (d ∷ t) = less
by_chars (c ∷ s) [] = more
by_chars (c ∷ s) (d ∷ t) = lex (sign c d) (by_chars s t)

pub text_cmp-by_chars : (s t : Text) → text_cmp s t ≡ by_chars s t
unfolding text_cmp by_chars text_eq text_lt lex sign
text_cmp-by_chars [] [] = refl
text_cmp-by_chars [] (d ∷ t) = refl
text_cmp-by_chars (c ∷ s) [] = refl
text_cmp-by_chars (c ∷ s) (d ∷ t) = ground (arith, text_cmp-by_chars s t)

by_chars-opposite : (s t : Text) → by_chars t s ≡ opposite (by_chars s t)
unfolding by_chars opposite
by_chars-opposite [] [] = refl
by_chars-opposite [] (d ∷ t) = refl
by_chars-opposite (c ∷ s) [] = refl
by_chars-opposite (c ∷ s) (d ∷ t) =
    ground (arith, sign-opposite c d, by_chars-opposite s t, lex-opposite (sign c d) (by_chars s t))

by_chars-Coherent : (s t u : Text) → Coherent (by_chars s t) (by_chars t u) (by_chars s u)
unfolding by_chars
by_chars-Coherent (c ∷ s) (d ∷ t) (e ∷ u) =
    lex-Coherent (sign-Coherent c d e) (by_chars-Coherent s t u)
by_chars-Coherent [] [] _ = ground arith
by_chars-Coherent [] (d ∷ t) _ = ground arith
by_chars-Coherent (c ∷ s) [] _ = ground arith
by_chars-Coherent (c ∷ s) (d ∷ t) [] = ground arith

pub text_cmp-opposite : (s t : Text) → text_cmp t s ≡ opposite (text_cmp s t)
text_cmp-opposite s t =
    ground (arith, text_cmp-by_chars s t, text_cmp-by_chars t s, by_chars-opposite s t)

pub text_cmp-Coherent : (s t u : Text) → Coherent (text_cmp s t) (text_cmp t u) (text_cmp s u)
text_cmp-Coherent s t u = ground (
  arith,
  text_cmp-by_chars s t,
  text_cmp-by_chars t u,
  text_cmp-by_chars s u,
  by_chars-Coherent s t u,
)
