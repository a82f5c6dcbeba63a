-- ===== src/OpampAuth/Examples.antt =====
-- A token, its text and its refusals.
use otel_magnify.Prelude.{
  ◌>>=◌, ℕ, ◌≡◌, refl, Option, none, some, List, [], ◌∷◌, ◌==◌, nat_eq, if◌then◌else◌, length,
}
use otel_magnify.Version.Strings.{Text, codes, split, split_first, text_eq}
use otel_magnify.OpampAuth.Base64.{character, sextet, encode, decode, decode_quanta}
use otel_magnify.OpampAuth.{
  cut_prefix, token_value, generate, check_secret, parse_secret, parse_id, parse_parts,
  parse_and_hash, secret_length,
}
use otel_magnify.OpampAuth.RoundTrip.{parse-generate}
use otel_magnify.OpampAuth.Accepted.{parse_and_hash_sound}

-- Opens the parser for a test.
opened : Text
unfolding character sextet encode decode decode_quanta cut_prefix token_value generate check_secret
    parse_secret parse_id parse_parts parse_and_hash split split_first text_eq
opened = []

-- A parser of identifiers that only looks at the length, and a digest that only counts.
abbrev uuid_text : Text → Option Text
uuid_text t = if length t == 36 then some t else none

abbrev sum : Text → ℕ
sum t = length t

abbrev id : Text
id = codes "0f8fad5b-d9cb-469f-a165-70867728950e"

abbrev secret : List ℕ
secret =
    255 ∷ 254 ∷ 253 ∷ 3 ∷ 4 ∷ 5 ∷ 6 ∷ 7 ∷ 8 ∷ 9 ∷ 10 ∷ 11 ∷ 12 ∷ 13 ∷ 14 ∷ 15 ∷ 16 ∷ 17 ∷ 18 ∷ 19
    ∷ 20 ∷ 21 ∷ 22 ∷ 23 ∷ 24 ∷ 25 ∷ 26 ∷ 27 ∷ 28 ∷ 29 ∷ 30 ∷ 31 ∷ []

encodes_tail : encode (255 ∷ 254 ∷ []) ≡ codes "__4"
unfolding opened
encodes_tail = refl

-- The decoder passes over the last bits of the last character.
decodes_loosely : decode (codes "__5") ≡ some (255 ∷ 254 ∷ [])
unfolding opened
decodes_loosely = refl

refuses_prefix : parse_and_hash sum uuid_text (codes "ompt-1.2") ≡ none
unfolding opened
refuses_prefix = refl

refuses_parts : parse_and_hash sum uuid_text (codes "ompt_1.2.3") ≡ none
unfolding opened
refuses_parts = refl

parse-generate_example :
    (do token ← generate sum (some secret) (some id); parse_and_hash sum uuid_text token.value)
    ≡ (do token ← generate sum (some secret) (some id); some (token.id, token.secret_hash))
parse-generate_example = parse-generate sum uuid_text secret id refl refl refl refl

abbrev value : Text
value =
    codes "ompt_0f8fad5b-d9cb-469f-a165-70867728950e.__79AwQFBgcICQoLDA0ODxAREhMUFRYXGBkaGxwdHh8"

value_parses : parse_and_hash sum uuid_text value ≡ some (id, 85)
unfolding opened
value_parses = refl

parse_and_hash_sound_example :
    (s : List ℕ) × (value ≡ token_value id s)
    × (length s ≡ secret_length)
    × (uuid_text id ≡ some id)
    × (85 ≡ sum value)
parse_and_hash_sound_example = parse_and_hash_sound sum uuid_text value id 85 value_parses
