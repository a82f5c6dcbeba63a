-- ===== src/Version/Number.antt =====
-- `parseNumber` of version.go, with what `strconv.Atoi` does on a run of digits.
use otel_magnify.Prelude.{
  ℕ, ◌+◌, ◌-◌, ◌*◌, ◌^◌, ◌≤◌, Bool, true, ◌&&◌, ◌≡◌, Option, none, some, [], ◌∷◌, leb,
  if◌then◌else◌, arith,
}
use otel_magnify.Version.Strings.{Text}

-- The largest `int` on a 64-bit platform.
abbrev pub max_int : ℕ
max_int = 2 ^ 63 - 1

unfoldable pub is_digit : ℕ → Bool
is_digit c = leb b'0' c && leb c b'9'

unfoldable pub all_digits : Text → Bool
unfolding is_digit
all_digits [] = true
all_digits (c ∷ s) = is_digit c && all_digits s

unfoldable pub digits_value : ℕ → Text → ℕ
digits_value n [] = n
digits_value n (c ∷ s) = digits_value (n * 10 + (c - b'0')) s

-- `strconv.Atoi` on digits: an error past the largest `int`
unfoldable pub atoi : Text → Option ℕ
unfolding digits_value
atoi s = let n = digits_value 0 s in if leb n max_int then some n else none

unfoldable pub parse_number : Text → Option ℕ
unfolding all_digits atoi
parse_number [] = none
parse_number (c ∷ s) = if all_digits (c ∷ s) then atoi (c ∷ s) else none

-- A number that is read is an `int`.
pub parse_number-le : (s : Text) (n : ℕ) → parse_number s ≡ some n → n ≤ max_int
unfolding parse_number
parse_number-le s n h = ground arith
