-- ===== src/OpampAuth.antt =====
-- internal/opampauth/token.go: the texts of managed OpAMP tokens. A text is the list of its bytes.
-- `uuid.Parse(...).String()` is the parameter `uuid_text`, which gives the canonical text of an
-- identifier or none, and `sha256.Sum256` the parameter `sum`. What `rand.Read` and
-- `uuid.NewRandom` give is an argument, `none` where they fail.
pub mod Base64
pub mod Quanta
pub mod RoundTrip
pub mod Accepted
mod Examples
use otel_magnify.Prelude.{
  ◌>>=◌, ℕ, Bool, ◌&&◌, Option, none, some, List, [], ◌∷◌, ◌++◌, ◌==◌, nat_eq, if◌then◌else◌,
  length,
}
use otel_magnify.Version.Strings.{Text, codes, split, text_eq}
use otel_magnify.OpampAuth.Base64.{encode, decode}

abbrev pub token_prefix : Text
token_prefix = codes "ompt_"

abbrev pub secret_length : ℕ
secret_length = 32

abbrev pub encoded_secret_size : ℕ
encoded_secret_size = 43

pub record GeneratedToken (Digest : Type 0) : Type 0 where
  pub id : Text
  pub value : Text
  pub secret_hash : Digest

-- `HasPrefix` and `TrimPrefix`
unfoldable pub cut_prefix : Text → Text → Option Text
cut_prefix [] v = some v
cut_prefix (c ∷ p) [] = none
cut_prefix (c ∷ p) (d ∷ v) = let rest = cut_prefix p v in if c == d then rest else none

unfoldable pub token_value : Text → List ℕ → Text
token_value id secret = token_prefix ++ id ++ b'.' ∷ encode secret

unfoldable pub check_secret : Text → List ℕ → Option (List ℕ)
check_secret part secret =
    if length secret == secret_length && text_eq (encode secret) part then some secret else none

unfoldable pub parse_secret : Text → Option (List ℕ)
unfolding check_secret
parse_secret part =
    if length part == encoded_secret_size then decode part >>= check_secret part else none

module _ (uuid_text : Text → Option Text) where
  unfoldable pub parse_id : Text → Option Text
  parse_id part = do id ← uuid_text part; if text_eq part id then some id else none

  -- `none` stands for errInvalidToken.
  unfoldable pub parse_parts : List Text → Option (Text × List ℕ)
  unfolding parse_id parse_secret
  parse_parts (a ∷ b ∷ []) = do id ← parse_id a; secret ← parse_secret b; some (id, secret)
  parse_parts _ = none

module _ {Digest : Type 0} (sum : Text → Digest) where
  unfoldable pub generate : Option (List ℕ) → Option Text → Option (GeneratedToken Digest)
  unfolding token_value
  generate random random_id = do
    secret ← random
    id ← random_id
    some (record {
      id = id;
      value = token_value id secret;
      secret_hash = sum (token_value id secret);
    })

  unfoldable pub parse_and_hash : (Text → Option Text) → Text → Option (Text × Digest)
  unfolding cut_prefix parse_parts
  parse_and_hash uuid_text value = do
    rest ← cut_prefix token_prefix value
    parts ← parse_parts uuid_text (split b'.' rest)
    some (parts.0, sum value)
