-- ===== src/Version/Examples.antt =====
-- Tests of version.go, and its theorems at concrete versions.
use otel_magnify.Prelude.{◌≡◌, ◌≢◌, refl, true, Option, none, some, [], ◌∷◌, arith}
use otel_magnify.Version.Strings.{Text, codes, trim_space, trim_prefix, cut, split}
use otel_magnify.Version.Number.{parse_number}
use otel_magnify.Version.{
  Semver, parse, parse_trimmed, parse_core, parse_parts, parse_pre, non_empty, compare_semver,
  compare,
}
use otel_magnify.Version.Identifiers.{Cmp, less, same, more, sign, compare_prerelease}
use mathlib.Core.Option
use otel_magnify.Version.Order.{
  compare-precedence, compare_antisymm, on_parsed, opposite, compare_trans, compare_same,
}
use otel_magnify.Version.Parsing.{IsIdentifier, parse-version_text}
use otel_magnify.Version.Numerals.{IsNumber, decimal_value}

-- Opens the parser and the comparison for a test.
runs : Text → Text → Option Cmp
unfolding trim_space trim_prefix cut split parse_number non_empty parse_pre parse_parts parse_core
    parse_trimmed parse sign compare_prerelease compare_semver compare
runs = compare

abbrev pub older : Text
older = codes " v1.10.0-beta.2+x"

abbrev pub newer : Text
newer = codes "1.10.0-beta.11 "

abbrev final : Text
final = codes "1.10.0"

pub beta : compare older newer ≡ some less
unfolding runs
beta = refl

released : compare newer final ≡ some less
unfolding runs
released = refl

refused : compare (codes "1.10") final ≡ none
unfolding runs
refused = refl

less-ne-more : less ≢ more
less-ne-more h = cc

compare_trans_example : (r : Cmp) × (compare older final ≡ some r) × (r ≢ more)
compare_trans_example = compare_trans older newer final beta less-ne-more released less-ne-more

abbrev one_ten : Semver
one_ten = record { major = 1; minor = 10; patch = 0; pre = [] }

final-parse : parse final ≡ some one_ten
unfolding runs
final-parse = refl

prefixed-parse : parse (codes "v1.10.0+7") ≡ some one_ten
unfolding runs
prefixed-parse = refl

compare_same_example : compare (codes "v1.10.0+7") final ≡ some same
compare_same_example = compare_same (codes "v1.10.0+7") final prefixed-parse final-parse

one-IsNumber : IsNumber (codes "1") 1
unfolding decimal_value
one-IsNumber = record {
  filled = omega arith;
  digits = ground arith;
  value = refl;
  in_range = omega arith;
}

ten-IsNumber : IsNumber (codes "10") 10
unfolding decimal_value
ten-IsNumber = record {
  filled = omega arith;
  digits = ground arith;
  value = refl;
  in_range = omega arith;
}

zero-IsNumber : IsNumber (codes "0") 0
unfolding decimal_value
zero-IsNumber = record {
  filled = omega arith;
  digits = ground arith;
  value = refl;
  in_range = omega arith;
}

beta-IsIdentifier : IsIdentifier (codes "beta")
unfolding non_empty
beta-IsIdentifier = record { filled = refl; no_dot = ground arith; no_plus = ground arith }

parse-version_text_example :
    parse (codes " v1.10.0-beta+7 ")
    ≡ some (record { major = 1; minor = 10; patch = 0; pre = codes "beta" ∷ [] })
unfolding runs
parse-version_text_example =
    parse-version_text true (codes "1") (codes "10") (codes "0") 1 10 0 (codes "beta" ∷ [])
      (some (codes "7")) (codes " v1.10.0-beta+7 ") one-IsNumber ten-IsNumber zero-IsNumber
      (beta-IsIdentifier, tt) refl

compare-precedence_example : compare older newer ≡ on_parsed (parse older) (parse newer)
compare-precedence_example = compare-precedence older newer

compare_antisymm_example : compare newer older ≡ Option.map opposite (compare older newer)
compare_antisymm_example = compare_antisymm older newer
