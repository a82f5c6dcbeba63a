-- ===== src/Version/Parsing.antt =====
-- The parser accepts what semver.org calls a version, and reads its parts.
use otel_magnify.Prelude.{
  ℕ, ◌≡◌, refl, Bool, true, false, Option, none, some, List, [], ◌∷◌, ◌++◌, arith, ◌==◌, nat_eq,
  All, All-append,
}
use mathlib.Core.List.{append-nil}
use otel_magnify.Version.Strings.{Text, cut, split_first, split, trim_space, trim_prefix}
use otel_magnify.Version.Number.{parse_number, is_digit, all_digits}
use otel_magnify.Version.Numerals.{IsNumber, number-read}
use otel_magnify.Version.{non_empty, parse_pre, parse_parts, parse_core, parse_trimmed, parse}

abbrev pub Free : ℕ → Text → Type 0
Free c s = All (λ d. (d == c) ≡ false) s

cut-append : (c : ℕ) (s t : Text) → Free c s → cut c (s ++ c ∷ t) ≡ (s, some t)
unfolding cut
cut-append c [] t h = ground arith
cut-append c (d ∷ s) t h = ground (arith, cut-append c s t)

cut_absent : (c : ℕ) (s : Text) → Free c s → cut c s ≡ (s, none)
unfolding cut
cut_absent c [] h = refl
cut_absent c (d ∷ s) h = ground (arith, cut_absent c s)

-- The pieces with `c` between them.
abbrev pub join : ℕ → Text → List Text → Text
join c s [] = s
join c s (t ∷ ts) = s ++ c ∷ join c t ts

split_first-join :
    (c : ℕ) (s : Text) (ts : List Text)
    → Free c s
    → All (Free c) ts
    → split_first c (join c s ts) ≡ (s, ts)
unfolding split_first
split_first-join c [] [] h k = refl
split_first-join c (d ∷ s) [] h k = ground (arith, split_first-join c s [])
split_first-join c [] (t ∷ ts) h k = ground (arith, split_first-join c t ts)
split_first-join c (d ∷ s) (t ∷ ts) h k = ground (arith, split_first-join c s (t ∷ ts))

digits-Free : (c : ℕ) (s : Text) → is_digit c ≡ false → all_digits s ≡ true → Free c s
unfolding all_digits is_digit
digits-Free c [] h k = tt
digits-Free c (d ∷ s) h k = (ground arith, digits-Free c s h (ground arith))

number-digits : (s : Text) {n : ℕ} → parse_number s ≡ some n → all_digits s ≡ true
unfolding parse_number
number-digits [] h = cc
number-digits (c ∷ s) h = ground arith

-- major.minor.patch
abbrev pub core_text : Text → Text → Text → Text
core_text a b c = join b'.' a (b ∷ c ∷ [])

-- `-` and the identifiers of a prerelease, if there are any
abbrev pub pre_text : List Text → Text
pre_text [] = []
pre_text (p ∷ ps) = b'-' ∷ join b'.' p ps

-- `+` and the build metadata, if there is any
abbrev pub build_text : Option Text → Text
build_text none = []
build_text (some m) = b'+' ∷ m

-- An identifier of a prerelease: not empty, and without the separators.
pub record IsIdentifier (p : Text) : Type 0 where
  pub filled : non_empty (p ∷ []) ≡ true
  pub no_dot : Free b'.' p
  pub no_plus : Free b'+' p

join-Free :
    (c d : ℕ) (s : Text) (ts : List Text)
    → (c == d) ≡ false
    → Free d s
    → All (Free d) ts
    → Free d (join c s ts)
join-Free c d s [] e h k = h
join-Free c d s (t ∷ ts) e h k =
    All-append (λ x. (x == d) ≡ false) s (c ∷ join c t ts) h (e, join-Free c d t ts e k.0 k.1)

cut_plus : (s : Text) (m : Option Text) → Free b'+' s → (cut b'+' (s ++ build_text m)).0 ≡ s
cut_plus s none h = rw append-nil (rw (cut_absent b'+' s h))
cut_plus s (some m) h = rw (cut-append b'+' s m h)

-- What stands behind the first `-`.
pre_cut : List Text → Option Text
pre_cut [] = none
pre_cut (p ∷ ps) = some (join b'.' p ps)

cut_dash : (s : Text) (ps : List Text) → Free b'-' s → cut b'-' (s ++ pre_text ps) ≡ (s, pre_cut ps)
unfolding pre_cut
cut_dash s [] h = rw append-nil (cut_absent b'-' s h)
cut_dash s (p ∷ ps) h = cut-append b'-' s (join b'.' p ps) h

pub split-join :
    (s : Text) (ts : List Text)
    → Free b'.' s
    → All (Free b'.') ts
    → split b'.' (join b'.' s ts) ≡ s ∷ ts
unfolding split
split-join s ts h k = rw (split_first-join b'.' s ts h k)

empty-IsIdentifier : ¬ IsIdentifier []
unfolding non_empty
empty-IsIdentifier h = cc (h.filled)

identifiers-non_empty : (ps : List Text) → All IsIdentifier ps → non_empty ps ≡ true
unfolding non_empty
identifiers-non_empty [] h = refl
identifiers-non_empty ([] ∷ ps) h = cc (h.0.filled)
identifiers-non_empty ((c ∷ p) ∷ ps) h = identifiers-non_empty ps h.1

no_dots : (ps : List Text) → All IsIdentifier ps → All (Free b'.') ps
no_dots [] h = tt
no_dots (p ∷ ps) h = (h.0.no_dot, no_dots ps h.1)

no_pluses : (ps : List Text) → All IsIdentifier ps → All (Free b'+') ps
no_pluses [] h = tt
no_pluses (p ∷ ps) h = (h.0.no_plus, no_pluses ps h.1)

pre_text-Free : (ps : List Text) → All IsIdentifier ps → Free b'+' (pre_text ps)
pre_text-Free [] h = tt
pre_text-Free (p ∷ ps) h = (refl, join-Free b'.' b'+' p ps refl h.0.no_plus (no_pluses ps h.1))

parse_pre-identifiers : (ps : List Text) → All IsIdentifier ps → parse_pre (pre_cut ps) ≡ some ps
unfolding parse_pre pre_cut
parse_pre-identifiers [] h = refl
parse_pre-identifiers ([] ∷ []) h = absurd (empty-IsIdentifier h.0)
parse_pre-identifiers ([] ∷ q ∷ ps) h = absurd (empty-IsIdentifier h.0)
parse_pre-identifiers ((c ∷ p) ∷ []) h =
    rw (split-join (c ∷ p) [] h.0.no_dot tt, identifiers-non_empty ((c ∷ p) ∷ []) h)
parse_pre-identifiers ((c ∷ p) ∷ q ∷ ps) h = rw (
  split-join (c ∷ p) (q ∷ ps) h.0.no_dot (no_dots (q ∷ ps) h.1),
  identifiers-non_empty ((c ∷ p) ∷ q ∷ ps) h,
)

-- An optional `v`, the three numbers, the prerelease and the build metadata.
abbrev pub version_text : Bool → Text → Text → Text → List Text → Option Text → Text
version_text true a b c ps m = b'v' ∷ (core_text a b c ++ pre_text ps ++ build_text m)
version_text false a b c ps m = core_text a b c ++ pre_text ps ++ build_text m

dot_digit : is_digit b'.' ≡ false
unfolding is_digit
dot_digit = refl

plus_digit : is_digit b'+' ≡ false
unfolding is_digit
plus_digit = refl

dash_digit : is_digit b'-' ≡ false
unfolding is_digit
dash_digit = refl

-- A text that begins with a digit has no `v` to remove.
first-digit :
    (a r p q : Text) {x : ℕ}
    → parse_number a ≡ some x
    → parse_trimmed (a ++ r ++ p ++ q) ≡ parse_core (a ++ r ++ p ++ q)
unfolding parse_number parse_trimmed trim_prefix is_digit
first-digit [] r p q h = cc
first-digit (d ∷ a) r p q h = ground arith

module _ (a b c : Text) {x y z : ℕ} (ha : parse_number a ≡ some x) (hb : parse_number b ≡ some y)
    (hc : parse_number c ≡ some z) where
  core-Free : (d : ℕ) → is_digit d ≡ false → (b'.' == d) ≡ false → Free d (core_text a b c)
  core-Free d h e =
      join-Free b'.' d a (b ∷ c ∷ []) e (digits-Free d a h (number-digits a ha))
        (digits-Free d b h (number-digits b hb), (digits-Free d c h (number-digits c hc), tt))

  core-split : split b'.' (core_text a b c) ≡ a ∷ b ∷ c ∷ []
  core-split = split-join a (b ∷ c ∷ []) (digits-Free b'.' a dot_digit (number-digits a ha)) (
    digits-Free b'.' b dot_digit (number-digits b hb),
    (digits-Free b'.' c dot_digit (number-digits c hc), tt),
  )

  parse_core-version :
      (ps : List Text) (m : Option Text)
      → All IsIdentifier ps
      → parse_core (core_text a b c ++ pre_text ps ++ build_text m)
        ≡ some (record { major = x; minor = y; patch = z; pre = ps })
  unfolding parse_core parse_parts
  parse_core-version ps m h = rw (
    cut_plus (core_text a b c ++ pre_text ps) m (
        All-append (λ d. (d == b'+') ≡ false) (core_text a b c) (pre_text ps)
          (core-Free b'+' plus_digit refl) (pre_text-Free ps h)),
    cut_dash (core_text a b c) ps (core-Free b'-' dash_digit refl),
    core-split,
    ha,
    hb,
    hc,
    parse_pre-identifiers ps h,
  )

  parse_reading :
      (v : Bool) (ps : List Text) (m : Option Text) (s : Text)
      → All IsIdentifier ps
      → trim_space s ≡ version_text v a b c ps m
      → parse s ≡ some (record { major = x; minor = y; patch = z; pre = ps })
  unfolding parse
  parse_reading true ps m s h e =
      rw e (unfold parse_trimmed trim_prefix in parse_core-version ps m h)
  parse_reading false ps m s h e =
      rw (e, first-digit a _ (pre_text ps) (build_text m) ha) (parse_core-version ps m h)

-- A text that is, without the space around it, an optional `v`, three numbers in the range of `int`
-- with dots between them, a prerelease of identifiers that are not empty, and any build metadata,
-- is read as those three numbers and those identifiers.
pub parse-version_text :
    (v : Bool) (a b c : Text) (x y z : ℕ) (ps : List Text) (m : Option Text) (s : Text)
    → IsNumber a x
    → IsNumber b y
    → IsNumber c z
    → All IsIdentifier ps
    → trim_space s ≡ version_text v a b c ps m
    → parse s ≡ some (record { major = x; minor = y; patch = z; pre = ps })
parse-version_text v a b c x y z ps m s ha hb hc =
    parse_reading a b c (number-read a x ha) (number-read b y hb) (number-read c z hc) v ps m s
