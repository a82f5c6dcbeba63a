-- ===== src/Version/Strings.antt =====
-- The functions of Go's `strings` package that version.go calls, on lists of code points.
use otel_magnify.Prelude.{
  ◌≡◌, refl, arith, nat_beq_iff, ℕ, Bool, true, false, ◌||◌, ◌&&◌, Option, none, some, List, [],
  ◌∷◌, ◌==◌, nat_eq, leb, ltb, if◌then◌else◌, String,
}
use mathlib.Core.List.{reverse}
use Prim.Native.Char.{code}

abbrev pub Text : Type 0
Text = List ℕ

-- A literal, as its code points.
abbrev pub codes : String → Text
codes String.[] = []
codes (String.◌∷◌ c s) = code c ∷ codes s

-- `unicode.IsSpace`
unfoldable pub is_space : ℕ → Bool
is_space c =
    (leb 9 c && leb c 13)
    || c == 32
    || c == 0x85
    || c == 0xa0
    || c == 0x1680
    || (leb 0x2000 c && leb c 0x200a)
    || c == 0x2028
    || c == 0x2029
    || c == 0x202f
    || c == 0x205f
    || c == 0x3000

unfoldable pub trim_left : Text → Text
unfolding is_space
trim_left [] = []
trim_left (c ∷ s) = let rest = trim_left s in if is_space c then rest else c ∷ s

-- `strings.TrimSpace`
unfoldable pub trim_space : Text → Text
unfolding trim_left
trim_space s = reverse (trim_left (reverse (trim_left s)))

-- `strings.TrimPrefix(s, "v")`, for a prefix of one character
unfoldable pub trim_prefix : ℕ → Text → Text
trim_prefix v [] = []
trim_prefix v (c ∷ s) = if c == v then s else c ∷ s

-- `s[:i]` and `s[i+1:]` at the first `i` where `s` holds `c`; `none` where `IndexByte` is -1
unfoldable pub cut : ℕ → Text → Text × Option Text
cut c [] = ([], none)
cut c (d ∷ s) = let (front, back) = cut c s in if d == c then ([], some s) else (d ∷ front, back)

-- `strings.Split(s, c)`: the first piece, and the others
unfoldable pub split_first : ℕ → Text → Text × List Text
split_first c [] = ([], [])
split_first c (d ∷ s) =
    let (piece, pieces) = split_first c s in
    if d == c then ([], piece ∷ pieces) else (d ∷ piece, pieces)

unfoldable pub split : ℕ → Text → List Text
unfolding split_first
split c s = let (piece, pieces) = split_first c s in piece ∷ pieces

-- Go's `<` and `==` on strings
unfoldable pub text_lt : Text → Text → Bool
text_lt s [] = false
text_lt [] (d ∷ t) = true
text_lt (c ∷ s) (d ∷ t) = ltb c d || (c == d && text_lt s t)

unfoldable pub text_eq : Text → Text → Bool
text_eq [] [] = true
text_eq [] (d ∷ t) = false
text_eq (c ∷ s) [] = false
text_eq (c ∷ s) (d ∷ t) = c == d && text_eq s t

pub text_eq_sound : (s t : Text) → text_eq s t ≡ true → s ≡ t
unfolding text_eq
text_eq_sound [] [] h = refl
text_eq_sound [] (d ∷ t) h = ground arith
text_eq_sound (c ∷ s) [] h = ground arith
text_eq_sound (c ∷ s) (d ∷ t) h = ground (arith, text_eq_sound s t, nat_beq_iff c d)

pub text_eq_refl : (s : Text) → text_eq s s ≡ true
unfolding text_eq
text_eq_refl [] = refl
text_eq_refl (c ∷ s) = ground (arith, text_eq_refl s, nat_beq_iff c c)
