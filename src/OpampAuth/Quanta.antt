-- ===== src/OpampAuth/Quanta.antt =====
-- The decoder of Go's base64 package after the encoder, and the characters of its texts.
use otel_magnify.Prelude.{
  ℕ, ◌+◌, ◌*◌, ◌/◌, ◌%◌, ◌<◌, ◌≡◌, refl, Bool, true, ◌&&◌, not, ◌||◌, some, List, [], ◌∷◌, ◌==◌,
  nat_eq, ltb, select, all, arith, length,
}
use otel_magnify.Version.Strings.{Text}
use otel_magnify.OpampAuth.Base64.{
  character, sextet, encode, decode, decode_quanta, first_byte, second_byte, third_byte,
}

abbrev pub is_byte : ℕ → Bool
is_byte b = ltb b 256

sextet-character : (n : ℕ) → n < 64 → sextet (character n) ≡ some n
unfolding sextet character
sextet-character n h = ground (arith, h)

first_of : (a b : ℕ) → b < 256 → first_byte (a / 4) (a % 4 * 16 + b / 16) ≡ a
first_of a b h = omega (arith, h)

first_alone : (a : ℕ) → first_byte (a / 4) (a % 4 * 16) ≡ a
first_alone a = omega arith

second_of :
    (a b c : ℕ) → b < 256 → c < 256 → second_byte (a % 4 * 16 + b / 16) (b % 16 * 4 + c / 64) ≡ b
second_of a b c h k = omega (arith, h, k)

second_alone : (a b : ℕ) → b < 256 → second_byte (a % 4 * 16 + b / 16) (b % 16 * 4) ≡ b
second_alone a b h = omega (arith, h)

third_of : (b c : ℕ) → c < 256 → third_byte (b % 16 * 4 + c / 64) (c % 64) ≡ c
third_of b c h = omega (arith, h)

quanta-encode :
    (bytes : List ℕ) → all is_byte bytes ≡ true → decode_quanta (encode bytes) ≡ some bytes
unfolding decode_quanta encode
quanta-encode [] h = refl
quanta-encode (a ∷ []) h =
    let ha : a < 256 = ground (arith, h) in
    rw
      (
        sextet-character (a / 4) (omega (arith, ha)),
        sextet-character (a % 4 * 16) (omega arith),
        first_alone a,
      )
      refl
quanta-encode (a ∷ b ∷ []) h =
    let ha : a < 256 = ground (arith, h) in
    let hb : b < 256 = ground (arith, h) in
    rw
      (
        sextet-character (a / 4) (omega (arith, ha)),
        sextet-character (a % 4 * 16 + b / 16) (omega (arith, hb)),
        sextet-character (b % 16 * 4) (omega arith),
        first_of a b hb,
        second_alone a b hb,
      )
      refl
quanta-encode (a ∷ b ∷ c ∷ bytes) h =
    let ha : a < 256 = ground (arith, h) in
    let hb : b < 256 = ground (arith, h) in
    let hc : c < 256 = ground (arith, h) in
    rw
      (
        sextet-character (a / 4) (omega (arith, ha)),
        sextet-character (a % 4 * 16 + b / 16) (omega (arith, hb)),
        sextet-character (b % 16 * 4 + c / 64) (omega (arith, hc)),
        sextet-character (c % 64) (omega arith),
        first_of a b hb,
        second_of a b c hb hc,
        third_of b c hc,
        quanta-encode bytes (ground (arith, h)),
      )
      refl

abbrev pub is_plain : ℕ → Bool
is_plain c = not (c == 10 || c == 13) && not (c == b'.')

character-plain : (n : ℕ) → is_plain (character n) ≡ true
unfolding character
character-plain n = ground arith

pub encode-plain : (bytes : List ℕ) → all is_plain (encode bytes) ≡ true
unfolding encode
encode-plain [] = refl
encode-plain (a ∷ []) = rw (character-plain (a / 4), character-plain (a % 4 * 16)) refl
encode-plain (a ∷ b ∷ []) =
    rw
      (character-plain (a / 4), character-plain (a % 4 * 16 + b / 16), character-plain (b % 16 * 4))
      refl
encode-plain (a ∷ b ∷ c ∷ bytes) =
    rw
      (
        character-plain (a / 4),
        character-plain (a % 4 * 16 + b / 16),
        character-plain (b % 16 * 4 + c / 64),
        character-plain (c % 64),
      )
      (encode-plain bytes)

select-plain :
    (text : Text) → all is_plain text ≡ true → select (λ c. not (c == 10 || c == 13)) text ≡ text
select-plain [] h = refl
select-plain (c ∷ text) h = ground (arith, h, select-plain text)

pub decode-encode : (bytes : List ℕ) → all is_byte bytes ≡ true → decode (encode bytes) ≡ some bytes
unfolding decode
decode-encode bytes h =
    rw (select-plain (encode bytes) (encode-plain bytes)) (quanta-encode bytes h)

pub length-encode : (bytes : List ℕ) → length (encode bytes) ≡ (length bytes * 4 + 2) / 3
unfolding encode
length-encode [] = refl
length-encode (a ∷ []) = refl
length-encode (a ∷ b ∷ []) = refl
length-encode (a ∷ b ∷ c ∷ bytes) = omega (arith, length-encode bytes)
