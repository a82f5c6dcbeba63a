-- ===== src/Version/Order/Prereleases.antt =====
-- The comparison of prereleases is lexicographic over a three-way comparison of identifiers.
use otel_magnify.Prelude.{ℕ, ◌≡◌, refl, Option, none, some, List, [], ◌∷◌, arith, length}
use otel_magnify.Version.Number.{parse_number}
use otel_magnify.Version.Strings.{Text}
use otel_magnify.Version.Identifiers.{
  Cmp, less, same, more, sign, decide_identifier, identifier_step, compare_loop, compare_prerelease,
}
use otel_magnify.Version.Order.Signs.{
  Coherent, opposite, lex, sign-opposite, sign-Coherent, lex-opposite, lex-Coherent,
}
use otel_magnify.Version.Order.Texts.{text_cmp, text_cmp-opposite, text_cmp-Coherent}

-- Numeric identifiers come first and compare as numbers; the others compare as strings.
unfoldable pub ranked : Option ℕ → Option ℕ → Text → Text → Cmp
ranked (some m) (some n) a b = sign m n
ranked (some m) none a b = less
ranked none (some n) a b = more
ranked none none a b = text_cmp a b

unfoldable pub identifier_cmp : Text → Text → Cmp
unfolding ranked
identifier_cmp a b = ranked (parse_number a) (parse_number b) a b

-- The loop goes on exactly at identifiers that compare as equal.
unless_same : Cmp → Option Cmp
unless_same same = none
unless_same less = some less
unless_same more = some more

decide-ranked :
    (m n : Option ℕ) (a b : Text) → decide_identifier m n a b ≡ unless_same (ranked m n a b)
unfolding unless_same decide_identifier ranked text_cmp sign
decide-ranked (some m) (some n) a b = ground arith
decide-ranked (some m) none a b = refl
decide-ranked none (some n) a b = refl
decide-ranked none none a b = ground arith

step-identifier_cmp : (a b : Text) → identifier_step a b ≡ unless_same (identifier_cmp a b)
unfolding identifier_step identifier_cmp
step-identifier_cmp a b = decide-ranked (parse_number a) (parse_number b) a b

ranked-opposite : (m n : Option ℕ) (a b : Text) → ranked n m b a ≡ opposite (ranked m n a b)
unfolding ranked opposite
ranked-opposite (some m) (some n) a b = sign-opposite m n
ranked-opposite (some m) none a b = refl
ranked-opposite none (some n) a b = refl
ranked-opposite none none a b = text_cmp-opposite a b

ranked-Coherent :
    (m n k : Option ℕ) (a b c : Text) → Coherent (ranked m n a b) (ranked n k b c) (ranked m k a c)
unfolding ranked
ranked-Coherent (some m) (some n) (some k) a b c = sign-Coherent m n k
ranked-Coherent none none none a b c = text_cmp-Coherent a b c
ranked-Coherent _ _ _ a b c = ground arith

-- Identifiers in order, the shorter list first where one is a prefix of the other.
unfoldable pub by_identifiers : List Text → List Text → Cmp
by_identifiers [] [] = same
by_identifiers [] (b ∷ bs) = less
by_identifiers (a ∷ as') [] = more
by_identifiers (a ∷ as') (b ∷ bs) = lex (identifier_cmp a b) (by_identifiers as' bs)

loop-by_identifiers :
    (as' bs : List Text)
    → compare_loop (sign (length as') (length bs)) as' bs ≡ by_identifiers as' bs
unfolding compare_loop by_identifiers sign lex unless_same
loop-by_identifiers [] [] = refl
loop-by_identifiers [] (b ∷ bs) = ground arith
loop-by_identifiers (a ∷ as') [] = ground arith
loop-by_identifiers (a ∷ as') (b ∷ bs) =
    ground (arith, step-identifier_cmp a b, loop-by_identifiers as' bs)

by_identifiers-opposite :
    (as' bs : List Text) → by_identifiers bs as' ≡ opposite (by_identifiers as' bs)
unfolding by_identifiers opposite identifier_cmp
by_identifiers-opposite [] [] = refl
by_identifiers-opposite [] (b ∷ bs) = refl
by_identifiers-opposite (a ∷ as') [] = refl
by_identifiers-opposite (a ∷ as') (b ∷ bs) = ground (
  arith,
  ranked-opposite (parse_number a) (parse_number b) a b,
  by_identifiers-opposite as' bs,
  lex-opposite (identifier_cmp a b) (by_identifiers as' bs),
)

by_identifiers-Coherent :
    (as' bs cs : List Text)
    → Coherent (by_identifiers as' bs) (by_identifiers bs cs) (by_identifiers as' cs)
unfolding by_identifiers identifier_cmp
by_identifiers-Coherent (a ∷ as') (b ∷ bs) (c ∷ cs) =
    lex-Coherent (ranked-Coherent (parse_number a) (parse_number b) (parse_number c) a b c)
      (by_identifiers-Coherent as' bs cs)
by_identifiers-Coherent [] [] _ = ground arith
by_identifiers-Coherent [] (b ∷ bs) _ = ground arith
by_identifiers-Coherent (a ∷ as') [] _ = ground arith
by_identifiers-Coherent (a ∷ as') (b ∷ bs) [] = ground arith

-- A version without a prerelease comes after all its prereleases.
unfoldable pub by_prerelease : List Text → List Text → Cmp
unfolding by_identifiers
by_prerelease [] [] = same
by_prerelease [] (b ∷ bs) = more
by_prerelease (a ∷ as') [] = less
by_prerelease (a ∷ as') (b ∷ bs) = by_identifiers (a ∷ as') (b ∷ bs)

pub prerelease-by_prerelease :
    (as' bs : List Text) → compare_prerelease as' bs ≡ by_prerelease as' bs
unfolding compare_prerelease by_prerelease
prerelease-by_prerelease [] [] = refl
prerelease-by_prerelease [] (b ∷ bs) = refl
prerelease-by_prerelease (a ∷ as') [] = refl
prerelease-by_prerelease (a ∷ as') (b ∷ bs) = loop-by_identifiers (a ∷ as') (b ∷ bs)

pub by_prerelease-opposite :
    (as' bs : List Text) → by_prerelease bs as' ≡ opposite (by_prerelease as' bs)
unfolding by_prerelease opposite
by_prerelease-opposite [] [] = refl
by_prerelease-opposite [] (b ∷ bs) = refl
by_prerelease-opposite (a ∷ as') [] = refl
by_prerelease-opposite (a ∷ as') (b ∷ bs) = by_identifiers-opposite (a ∷ as') (b ∷ bs)

pub by_prerelease-Coherent :
    (as' bs cs : List Text)
    → Coherent (by_prerelease as' bs) (by_prerelease bs cs) (by_prerelease as' cs)
unfolding by_prerelease
by_prerelease-Coherent (a ∷ as') (b ∷ bs) (c ∷ cs) =
    by_identifiers-Coherent (a ∷ as') (b ∷ bs) (c ∷ cs)
by_prerelease-Coherent [] [] _ = ground arith
by_prerelease-Coherent [] (b ∷ bs) _ = ground arith
by_prerelease-Coherent (a ∷ as') [] _ = ground arith
by_prerelease-Coherent (a ∷ as') (b ∷ bs) [] = ground arith
