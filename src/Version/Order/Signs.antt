-- ===== src/Version/Order/Signs.antt =====
-- Three-way results: their opposite, their lexicographic composition, and what makes the results
-- of three comparisons fit together.
use otel_magnify.Prelude.{ℕ, ◌≡◌, ◌≢◌, refl, arith}
use otel_magnify.Version.Identifiers.{Cmp, less, same, more, sign}

unfoldable pub opposite : Cmp → Cmp
opposite less = more
opposite same = same
opposite more = less

-- The first result, or the second where the first is 0.
unfoldable pub lex : Cmp → Cmp → Cmp
lex same d = d
lex less d = less
lex more d = more

-- What the results of comparing x with y, y with z and x with z must satisfy.
pub record Coherent (p q r : Cmp) : Type 0 where
  pub same_left : p ≡ same → r ≡ q
  pub same_right : q ≡ same → r ≡ p
  pub both_less : p ≡ less → q ≡ less → r ≡ less
  pub both_more : p ≡ more → q ≡ more → r ≡ more

pub sign-opposite : (a b : ℕ) → sign b a ≡ opposite (sign a b)
unfolding sign opposite
sign-opposite a b = ground arith

pub sign-Coherent : (a b c : ℕ) → Coherent (sign a b) (sign b c) (sign a c)
unfolding sign
sign-Coherent a b c = ground arith

pub lex-opposite : (p q : Cmp) → lex (opposite p) (opposite q) ≡ opposite (lex p q)
unfolding lex opposite
lex-opposite less q = refl
lex-opposite same q = refl
lex-opposite more q = refl

pub lex-Coherent :
    {p q r p' q' r' : Cmp}
    → Coherent p q r
    → Coherent p' q' r'
    → Coherent (lex p p') (lex q q') (lex r r')
unfolding lex
lex-Coherent {p} {q} {r} {p'} {q'} {r'} h k = record {
  same_left = λ e. ground (arith, h.same_left, k.same_left);
  same_right = λ e. ground arith;
  both_less = λ e f. ground arith;
  both_more = λ e f. ground arith;
}

pub not-more : {p q r : Cmp} → Coherent p q r → p ≢ more → q ≢ more → r ≢ more
not-more {p} {q} {r} c h k = λ e. ground arith
