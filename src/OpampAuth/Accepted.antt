-- ===== src/OpampAuth/Accepted.antt =====
-- The texts that ParseAndHash of internal/opampauth/token.go accepts.
use otel_magnify.Prelude.{
  ◌>>=◌, ℕ, ◌≡◌, refl, sym, ◌∙◌, ap, ◌&&◌, Option, none, some, List, [], ◌∷◌, ◌++◌, ◌==◌, nat_eq,
  if◌then◌else◌, length, arith, bind_some, Bool-cases, inl, inr, nat_beq_iff,
}
use otel_magnify.Version.Strings.{Text, split, split_first, text_eq, text_eq_sound}
use otel_magnify.OpampAuth.Base64.{encode, decode}
use otel_magnify.OpampAuth.{
  token_prefix, secret_length, encoded_secret_size, cut_prefix, token_value, check_secret,
  parse_secret, parse_id, parse_parts, parse_and_hash,
}

cut_prefix_sound : (p v r : Text) → cut_prefix p v ≡ some r → v ≡ p ++ r
unfolding cut_prefix
cut_prefix_sound [] v r h = ground (arith, h)
cut_prefix_sound (c ∷ p) [] r h = ground (arith, h)
cut_prefix_sound (c ∷ p) (d ∷ v) r h = ground (arith, h, cut_prefix_sound p v r, nat_beq_iff c d)

-- The pieces of a split, put together again.
abbrev joined : ℕ → Text → List Text → Text
joined c s [] = s
joined c s (t ∷ ts) = s ++ c ∷ joined c t ts

joined-cons : (c d : ℕ) (s : Text) (ts : List Text) → joined c (d ∷ s) ts ≡ d ∷ joined c s ts
joined-cons c d s [] = refl
joined-cons c d s (t ∷ ts) = refl

joined-split_first : (c : ℕ) (v : Text) → joined c (split_first c v).0 (split_first c v).1 ≡ v
unfolding split_first
joined-split_first c [] = refl
joined-split_first c (d ∷ v) = elim (Bool-cases (d == c)) [
  | inl b ↦ rw b (ground (arith, joined-split_first c v, nat_beq_iff d c, b))
  | inr b ↦
      rw (b, joined-cons c d (split_first c v).0 (split_first c v).1)
        (ap (λ t. d ∷ t) (joined-split_first c v))
]

abbrev unsplit : ℕ → List Text → Text
unsplit c [] = []
unsplit c (t ∷ ts) = joined c t ts

joined-split : (c : ℕ) (v a b : Text) → split c v ≡ a ∷ b ∷ [] → a ++ c ∷ b ≡ v
unfolding split
joined-split c v a b h = sym (ap (unsplit c) h) ∙ joined-split_first c v

check_secret_sound :
    (part : Text) (s secret : List ℕ)
    → check_secret part s ≡ some secret
    → (encode secret ≡ part) × (length secret ≡ secret_length)
unfolding check_secret
check_secret_sound part s secret h =
    elim (Bool-cases (length s == secret_length && text_eq (encode s) part)) [
      | inr b ↦ ground (arith, h, b)
      | inl b ↦
          let e : s ≡ secret = ground (arith, h, b) in
          rw (sym e) (
            text_eq_sound (encode s) part (ground (arith, b)),
            ground (arith, b, nat_beq_iff (length s) secret_length),
          )
    ]

parse_secret_sound :
    (part : Text) (secret : List ℕ)
    → parse_secret part ≡ some secret
    → (encode secret ≡ part) × (length secret ≡ secret_length)
unfolding parse_secret
parse_secret_sound part secret h = elim (Bool-cases (length part == encoded_secret_size)) [
  | inr b ↦ ground (arith, h, b)
  | inl b ↦
      let (s, e, f) = bind_some (decode part) (check_secret part) secret (ground (arith, h, b)) in
      check_secret_sound part s secret f
]

parse_id_sound :
    (uuid_text : Text → Option Text) (part id : Text)
    → parse_id uuid_text part ≡ some id
    → (part ≡ id) × (uuid_text id ≡ some id)
unfolding parse_id
parse_id_sound uuid_text part id h =
    let (i, e, f) =
      bind_some (uuid_text part) (λ i. if text_eq part i then some i else none) id h in
    elim (Bool-cases (text_eq part i)) [
      | inr b ↦ ground (arith, f, b)
      | inl b ↦
          let g : i ≡ id = ground (arith, f, b) in
          let k : part ≡ id = text_eq_sound part i b ∙ g in
          (k, ap uuid_text (sym k) ∙ e ∙ ap some g)
    ]

module _ {Digest : Type 0} (sum : Text → Digest) (uuid_text : Text → Option Text) where
  parse_parts_sound :
      (a b id : Text) (secret : List ℕ)
      → parse_parts uuid_text (a ∷ b ∷ []) ≡ some (id, secret)
      → (a ≡ id) × (uuid_text id ≡ some id) × (encode secret ≡ b) × (length secret ≡ secret_length)
  unfolding parse_parts
  parse_parts_sound a b id secret h =
      let (i, e, f) =
        bind_some (parse_id uuid_text a) (λ i. parse_secret b >>= λ s. some (i, s)) (id, secret)
          h in
      let (s, g, k) = bind_some (parse_secret b) (λ s. some (i, s)) (id, secret) f in
      let m : i ≡ id = ground (arith, k) in
      let n : s ≡ secret = ground (arith, k) in
      let x = parse_id_sound uuid_text a i e in
      let y = parse_secret_sound b s g in
      (
        x.0 ∙ m,
        ap uuid_text (sym m) ∙ x.1 ∙ ap some m,
        ap encode (sym n) ∙ y.0,
        ap length (sym n) ∙ y.1,
      )

  parse_parts_pair :
      (ts : List Text) (r : Text × List ℕ)
      → parse_parts uuid_text ts ≡ some r
      → (a : Text) × (b : Text) × (ts ≡ a ∷ b ∷ [])
  unfolding parse_parts
  parse_parts_pair [] r h = ground (arith, h)
  parse_parts_pair (a ∷ []) r h = ground (arith, h)
  parse_parts_pair (a ∷ b ∷ []) r h = (a, b, refl)
  parse_parts_pair (a ∷ b ∷ c ∷ ts) r h = ground (arith, h)

  parse_split_sound :
      (rest id : Text) (secret : List ℕ)
      → parse_parts uuid_text (split b'.' rest) ≡ some (id, secret)
      → (rest ≡ id ++ b'.' ∷ encode secret)
        × (length secret ≡ secret_length)
        × (uuid_text id ≡ some id)
  parse_split_sound rest id secret h =
      let (a, b, e) = parse_parts_pair (split b'.' rest) (id, secret) h in
      let (x, y, z, w) = parse_parts_sound a b id secret (rw e at h) in
      (
        sym (joined-split b'.' rest a b e)
            ∙ ap (λ t. t ++ b'.' ∷ b) x
            ∙ ap (λ t. id ++ b'.' ∷ t) (sym z),
        w,
        y,
      )

  -- Only such tokens are accepted: one that is, is the token of a secret of 32 bytes and of the
  -- identifier that is returned, which parses as itself, and the digest is that of its text.
  pub parse_and_hash_sound :
      (value id : Text) (digest : Digest)
      → parse_and_hash sum uuid_text value ≡ some (id, digest)
      → (secret : List ℕ) × (value ≡ token_value id secret)
        × (length secret ≡ secret_length)
        × (uuid_text id ≡ some id)
        × (digest ≡ sum value)
  unfolding parse_and_hash token_value
  parse_and_hash_sound value id digest h =
      let (rest, e, f) =
        bind_some (cut_prefix token_prefix value)
          (λ rest. parse_parts uuid_text (split b'.' rest) >>= λ parts. some (parts.0, sum value))
          (id, digest) h in
      let ((i, secret), g, k) =
        bind_some (parse_parts uuid_text (split b'.' rest)) (λ parts. some (parts.0, sum value))
          (id, digest) f in
      let m : i ≡ id = ground (arith, k) in
      let (x, y, z) = parse_split_sound rest i secret g in
      (
        secret,
        cut_prefix_sound token_prefix value rest e
            ∙ ap (λ t. token_prefix ++ t) x
            ∙ ap (λ t. token_value t secret) m,
        y,
        ap uuid_text (sym m) ∙ z ∙ ap some m,
        ground (arith, k),
      )
