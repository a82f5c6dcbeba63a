-- ===== src/OpampAuth/RoundTrip.antt =====
-- Generate of internal/opampauth/token.go, followed by ParseAndHash.
use otel_magnify.Prelude.{
  ◌>>=◌, ℕ, ◌≡◌, refl, true, false, Option, some, List, [], ◌∷◌, ◌++◌, ◌==◌, nat_eq, length, all,
  any, arith, nat_beq_iff,
}
use otel_magnify.Version.Strings.{Text, split, text_eq_refl}
use otel_magnify.Version.Parsing.{Free, split-join}
use otel_magnify.OpampAuth.Base64.{encode}
use otel_magnify.OpampAuth.Quanta.{is_byte, is_plain, encode-plain, decode-encode, length-encode}
use otel_magnify.OpampAuth.{
  token_prefix, secret_length, encoded_secret_size, cut_prefix, token_value, generate, check_secret,
  parse_secret, parse_id, parse_parts, parse_and_hash,
}

plain-Free : (text : Text) → all is_plain text ≡ true → Free b'.' text
plain-Free [] h = tt
plain-Free (c ∷ text) h = (ground (arith, h), plain-Free text (ground (arith, h)))

absent-Free : (c : ℕ) (text : Text) → any (λ d. d == c) text ≡ false → Free c text
absent-Free c [] h = tt
absent-Free c (d ∷ text) h = (ground (arith, h), absent-Free c text (ground (arith, h)))

cut_prefix-append : (p v : Text) → cut_prefix p (p ++ v) ≡ some v
unfolding cut_prefix
cut_prefix-append [] v = refl
cut_prefix-append (c ∷ p) v = ground (arith, cut_prefix-append p v, nat_beq_iff c c)

parse_secret-encode :
    (secret : List ℕ)
    → length secret ≡ secret_length
    → all is_byte secret ≡ true
    → parse_secret (encode secret) ≡ some secret
unfolding parse_secret check_secret
parse_secret-encode secret h b =
    let n : length (encode secret) ≡ encoded_secret_size = omega (arith, length-encode secret, h) in
    rw (n, decode-encode secret b, h, text_eq_refl (encode secret)) refl

prefix-token_value :
    (id : Text) (secret : List ℕ)
    → cut_prefix token_prefix (token_value id secret) ≡ some (id ++ b'.' ∷ encode secret)
unfolding token_value
prefix-token_value id secret = cut_prefix-append token_prefix (id ++ b'.' ∷ encode secret)

split-token_value :
    (id : Text) (secret : List ℕ)
    → Free b'.' id
    → split b'.' (id ++ b'.' ∷ encode secret) ≡ id ∷ encode secret ∷ []
split-token_value id secret dots =
    split-join id (encode secret ∷ []) dots (plain-Free (encode secret) (encode-plain secret), tt)

module _ {Digest : Type 0} (sum : Text → Digest) (uuid_text : Text → Option Text) where
  parts-generated :
      (secret : List ℕ) (id : Text)
      → length secret ≡ secret_length
      → all is_byte secret ≡ true
      → uuid_text id ≡ some id
      → parse_parts uuid_text (id ∷ encode secret ∷ []) ≡ some (id, secret)
  unfolding parse_parts parse_id
  parts-generated secret id n b canonical =
      rw (canonical, text_eq_refl id, parse_secret-encode secret n b) refl

  parse-token_value :
      (secret : List ℕ) (id : Text)
      → length secret ≡ secret_length
      → all is_byte secret ≡ true
      → uuid_text id ≡ some id
      → Free b'.' id
      → parse_and_hash sum uuid_text (token_value id secret)
        ≡ some (id, sum (token_value id secret))
  unfolding parse_and_hash
  parse-token_value secret id n b canonical dots =
      rw
        (
          prefix-token_value id secret,
          split-token_value id secret dots,
          parts-generated secret id n b canonical,
        )
        refl

  -- A token that is generated from 32 bytes and from the text of an identifier, which has no
  -- period and parses as itself, is accepted, with its identifier and the digest to store.
  pub parse-generate :
      (secret : List ℕ) (id : Text)
      → length secret ≡ secret_length
      → all is_byte secret ≡ true
      → uuid_text id ≡ some id
      → any (λ c. c == b'.') id ≡ false
      → (do token ← generate sum (some secret) (some id); parse_and_hash sum uuid_text token.value)
        ≡ (do token ← generate sum (some secret) (some id); some (token.id, token.secret_hash))
  unfolding generate
  parse-generate secret id n b canonical dots =
      parse-token_value secret id n b canonical (absent-Free b'.' id dots)
