-- ===== src/Version.antt =====
-- internal/version/version.go: semantic versions, their parser and their comparison.
-- A string is the list of its code points. The results -1, 0 and 1 are `less`, `same` and `more`.
pub mod Strings
pub mod Number
pub mod Identifiers
pub mod Order
pub mod Numerals
pub mod Parsing
pub mod Examples
use otel_magnify.Prelude.{
  ℕ, ◌>>=◌, Bool, true, false, Option, none, some, List, [], ◌∷◌, ◌==◌, nat_eq, if◌then◌else◌,
}
use Strings.{Text, trim_space, trim_prefix, cut, split}
use Number.{parse_number}
use Identifiers.{Cmp, sign, compare_prerelease}

pub record Semver : Type 0 where
  pub major : ℕ
  pub minor : ℕ
  pub patch : ℕ
  pub pre : List Text

-- No identifier of the prerelease is empty.
unfoldable pub non_empty : List Text → Bool
non_empty [] = true
non_empty ([] ∷ ps) = false
non_empty ((c ∷ p) ∷ ps) = non_empty ps

unfoldable pub parse_pre : Option Text → Option (List Text)
parse_pre none = some []
parse_pre (some []) = some []
parse_pre (some (c ∷ s)) =
    let parts = split b'.' (c ∷ s) in if non_empty parts then some parts else none

unfoldable pub parse_parts : List Text → Option Text → Option Semver
parse_parts (a ∷ b ∷ c ∷ []) pre = do
  major ← parse_number a
  minor ← parse_number b
  patch ← parse_number c
  parts ← parse_pre pre
  some (record { major = major; minor = minor; patch = patch; pre = parts })
parse_parts _ pre = none

unfoldable pub parse_core : Text → Option Semver
parse_core s = let (core, pre) = cut b'-' (cut b'+' s).0 in parse_parts (split b'.' core) pre

unfoldable pub parse_trimmed : Text → Option Semver
parse_trimmed [] = none
parse_trimmed (c ∷ s) = parse_core (trim_prefix b'v' (c ∷ s))

unfoldable pub parse : Text → Option Semver
parse s = parse_trimmed (trim_space s)

-- The tests of `Compare` on two versions that were read.
unfoldable pub compare_semver : Semver → Semver → Cmp
compare_semver a b =
    if a.major == b.major
    then (if a.minor == b.minor
        then (if a.patch == b.patch then compare_prerelease a.pre b.pre else sign a.patch b.patch)
        else sign a.minor b.minor)
    else sign a.major b.major

unfoldable pub compare : Text → Text → Option Cmp
compare a b = do av ← parse a; bv ← parse b; some (compare_semver av bv)
