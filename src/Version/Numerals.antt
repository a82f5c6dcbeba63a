-- ===== src/Version/Numerals.antt =====
-- The numbers of internal/version/version.go by the places of their digits.
use otel_magnify.Prelude.{
  ℕ, ◌+◌, ◌-◌, ◌*◌, ◌^◌, ◌≤◌, ◌<◌, ◌≡◌, ◌∙◌, refl, true, some, [], ◌∷◌, All, arith, length,
}
use native.Mathlib.Numerals.{unary_clauses}
use otel_magnify.Version.Strings.{Text}
use otel_magnify.Version.Number.{parse_number, is_digit, all_digits, digits_value, atoi}

-- The number that a text of digits stands for: each digit counts by its place.
unfoldable pub decimal_value : Text → ℕ
decimal_value [] = 0
decimal_value (c ∷ s) = (c - b'0') * 10 ^ length s + decimal_value s

-- A text of one digit or more that stands for a number in the range of Go's `int`.
pub record IsNumber (s : Text) (n : ℕ) : Type 0 where
  pub filled : 0 < length s
  pub digits : All (λ c. (b'0' ≤ c) × (c ≤ b'9')) s
  pub value : decimal_value s ≡ n
  pub in_range : n < 2 ^ 63

places : (n d p v : ℕ) → (n * 10 + d) * p + v ≡ n * (p * 10) + (d * p + v)
places n d p v = grind arith

digits_value-places : (s : Text) (n : ℕ) → digits_value n s ≡ n * 10 ^ length s + decimal_value s
unfolding digits_value decimal_value
digits_value-places [] n = omega arith
digits_value-places (c ∷ s) n = simp unary_clauses (
    digits_value-places s (n * 10 + (c - b'0'))
    ∙ places n (c - b'0') (10 ^ length s) (decimal_value s))

digits-all_digits : (s : Text) → All (λ c. (b'0' ≤ c) × (c ≤ b'9')) s → all_digits s ≡ true
unfolding all_digits is_digit
digits-all_digits [] h = refl
digits-all_digits (c ∷ s) h = ground (arith, h.0, digits-all_digits s h.1)

pub number-read : (s : Text) (n : ℕ) → IsNumber s n → parse_number s ≡ some n
unfolding parse_number atoi
number-read [] n h = ground (arith, h.filled)
number-read (c ∷ s) n h =
    ground (
      arith,
      digits-all_digits (c ∷ s) h.digits,
      digits_value-places (c ∷ s) 0,
      h.value,
      h.in_range,
    )
