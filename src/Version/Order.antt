-- ===== src/Version/Order.antt =====
-- The comparison of versions is a total preorder on the texts that are versions.
mod Signs
mod Texts
mod Prereleases
pub use Signs.{opposite}
use otel_magnify.Prelude.{
  ◌>>=◌, ◌≡◌, ◌≢◌, ◌⊎◌, ◌↔◌, refl, sym, ◌∙◌, ap, Option, none, some, arith, Option-cases,
}
use mathlib.Core.Option
use otel_magnify.Version.Identifiers.{Cmp, less, same, more, sign}
use otel_magnify.Version.Strings.{Text}
use otel_magnify.Version.{Semver, compare_semver, compare, parse}
use Signs.{Coherent, lex, not-more, sign-opposite, sign-Coherent, lex-opposite, lex-Coherent}
use Prereleases.{
  by_prerelease, prerelease-by_prerelease, by_prerelease-opposite, by_prerelease-Coherent,
}

-- Precedence as semver.org defines it: by major, minor and patch number, then by prerelease.
unfoldable pub precedence : Semver → Semver → Cmp
precedence a b =
    lex (sign a.major b.major)
      (lex (sign a.minor b.minor) (lex (sign a.patch b.patch) (by_prerelease a.pre b.pre)))

semver-precedence : (a b : Semver) → compare_semver a b ≡ precedence a b
unfolding compare_semver precedence sign lex
semver-precedence a b = ground (arith, prerelease-by_prerelease a.pre b.pre)

precedence-opposite : (a b : Semver) → precedence b a ≡ opposite (precedence a b)
unfolding precedence
precedence-opposite a b = simp (
  sign-opposite a.major b.major,
  sign-opposite a.minor b.minor,
  sign-opposite a.patch b.patch,
  by_prerelease-opposite a.pre b.pre,
  lex-opposite,
)

precedence-Coherent : (a b c : Semver) → Coherent (precedence a b) (precedence b c) (precedence a c)
unfolding precedence
precedence-Coherent a b c = lex-Coherent (sign-Coherent a.major b.major c.major) (
    lex-Coherent (sign-Coherent a.minor b.minor c.minor) (
      lex-Coherent (sign-Coherent a.patch b.patch c.patch)
        (by_prerelease-Coherent a.pre b.pre c.pre)))

abbrev pub on_parsed : Option Semver → Option Semver → Option Cmp
on_parsed none y = none
on_parsed (some a) none = none
on_parsed (some a) (some b) = some (precedence a b)

parsed-precedence :
    (x y : Option Semver) → (do a ← x; b ← y; some (compare_semver a b)) ≡ on_parsed x y
parsed-precedence none y = refl
parsed-precedence (some a) none = refl
parsed-precedence (some a) (some b) = ap some (semver-precedence a b)

-- Two texts compare exactly when both are versions, and then by the precedence of the versions.
pub compare-precedence : (s t : Text) → compare s t ≡ on_parsed (parse s) (parse t)
unfolding compare
compare-precedence s t = parsed-precedence (parse s) (parse t)

parsed_antisymm : (x y : Option Semver) → on_parsed y x ≡ Option.map opposite (on_parsed x y)
parsed_antisymm none none = refl
parsed_antisymm none (some b) = refl
parsed_antisymm (some a) none = refl
parsed_antisymm (some a) (some b) = ap some (precedence-opposite a b)

-- Exchanging the two texts exchanges -1 and 1, and keeps a refusal a refusal.
pub compare_antisymm : (s t : Text) → compare t s ≡ Option.map opposite (compare s t)
compare_antisymm s t =
    rw (compare-precedence s t, compare-precedence t s) (parsed_antisymm (parse s) (parse t))

parsed_trans :
    (x y z : Option Semver) {p q : Cmp}
    → on_parsed x y ≡ some p
    → p ≢ more
    → on_parsed y z ≡ some q
    → q ≢ more
    → (r : Cmp) × (on_parsed x z ≡ some r) × (r ≢ more)
parsed_trans (some a) (some b) (some c) h hp k hq =
    (precedence a c, refl, not-more (precedence-Coherent a b c) (ground arith) (ground arith))
parsed_trans none _ _ h hp k hq = cc
parsed_trans (some a) none _ h hp k hq = cc
parsed_trans (some a) (some b) none h hp k hq = cc

-- At-most is transitive: where s is not after t and t is not after u, s is not after u.
pub compare_trans :
    (s t u : Text) {p q : Cmp}
    → compare s t ≡ some p
    → p ≢ more
    → compare t u ≡ some q
    → q ≢ more
    → (r : Cmp) × (compare s u ≡ some r) × (r ≢ more)
compare_trans s t u h hp k hq = rw (compare-precedence s u) (
    parsed_trans (parse s) (parse t) (parse u) (sym (compare-precedence s t) ∙ h) hp
      (sym (compare-precedence t u) ∙ k) hq)

own_opposite : (c : Cmp) → c ≡ opposite c → c ≡ same
unfolding opposite
own_opposite same h = refl
own_opposite less h = cc
own_opposite more h = cc

-- Two texts that read as the same version compare as equal.
pub compare_same :
    (s t : Text) {v : Semver} → parse s ≡ some v → parse t ≡ some v → compare s t ≡ some same
compare_same s t {v} h k =
    rw (compare-precedence, h, k) (ap some (own_opposite _ (precedence-opposite v v)))
