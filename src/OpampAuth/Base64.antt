-- ===== src/OpampAuth/Base64.antt =====
-- `base64.RawURLEncoding` of Go's library, on bytes.
use otel_magnify.Prelude.{
  ◌>>=◌, ℕ, ◌+◌, ◌-◌, ◌*◌, ◌/◌, ◌%◌, ◌&&◌, not, ◌||◌, Option, none, some, List, [], ◌∷◌, ◌==◌,
  nat_eq, leb, ltb, if◌then◌else◌, select,
}
use otel_magnify.Version.Strings.{Text}

-- The character of a number below 64.
unfoldable pub character : ℕ → ℕ
character n =
    if ltb n 26
    then b'A' + n
    else if ltb n 52
    then b'a' + (n - 26)
    else if ltb n 62
    then b'0' + (n - 52)
    else if n == 62
    then b'-'
    else b'_'

unfoldable pub sextet : ℕ → Option ℕ
sextet c =
    if leb b'A' c && leb c b'Z'
    then some (c - b'A')
    else if leb b'a' c && leb c b'z'
    then some (c - b'a' + 26)
    else if leb b'0' c && leb c b'9'
    then some (c - b'0' + 52)
    else if c == b'-'
    then some 62
    else if c == b'_'
    then some 63
    else none

-- `EncodeToString`
unfoldable pub encode : List ℕ → Text
unfolding character
encode [] = []
encode (a ∷ []) = character (a / 4) ∷ character (a % 4 * 16) ∷ []
encode (a ∷ b ∷ []) =
    character (a / 4) ∷ character (a % 4 * 16 + b / 16) ∷ character (b % 16 * 4) ∷ []
encode (a ∷ b ∷ c ∷ bytes) =
    character (a / 4)
    ∷ character (a % 4 * 16 + b / 16)
    ∷ character (b % 16 * 4 + c / 64)
    ∷ character (c % 64)
    ∷ encode bytes

abbrev pub first_byte : ℕ → ℕ → ℕ
first_byte p q = p * 4 + q / 16

abbrev pub second_byte : ℕ → ℕ → ℕ
second_byte q r = q % 16 * 16 + r / 4

abbrev pub third_byte : ℕ → ℕ → ℕ
third_byte r s = r % 4 * 64 + s

-- Quanta of four characters, the last of which may be of two or three.
unfoldable pub decode_quanta : Text → Option (List ℕ)
unfolding sextet
decode_quanta [] = some []
decode_quanta (w ∷ []) = none
decode_quanta (w ∷ x ∷ []) = do p ← sextet w; q ← sextet x; some (first_byte p q ∷ [])
decode_quanta (w ∷ x ∷ y ∷ []) = do
  p ← sextet w
  q ← sextet x
  r ← sextet y
  some (first_byte p q ∷ second_byte q r ∷ [])
decode_quanta (w ∷ x ∷ y ∷ z ∷ text) = do
  p ← sextet w
  q ← sextet x
  r ← sextet y
  s ← sextet z
  bytes ← decode_quanta text
  some (first_byte p q ∷ second_byte q r ∷ third_byte r s ∷ bytes)

-- `DecodeString`, which passes over line ends.
unfoldable pub decode : Text → Option (List ℕ)
unfolding decode_quanta
decode text = decode_quanta (select (λ c. not (c == 10 || c == 13)) text)
