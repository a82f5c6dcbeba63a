-- ===== src/OpampTokens/Validation.antt =====
-- ValidateOpAMPToken and MarkOpAMPTokenUsed of internal/store/opamp_tokens.go against the status of a
-- token.
use otel_magnify.Prelude.{
  ℕ, ◌+◌, ◌*◌, ◌%◌, leb, ◌≡◌, refl, sym, ◌∙◌, Bool, true, false, ◌&&◌, Option, none, some, List,
  String, if◌then◌else◌, arith, Option-cases, Bool-cases, inl, inr, string_eq, nat_eq, length,
}
use otel_magnify.Prelude.Dict.{get, put}
use otel_magnify.Prelude.Clock.{Time, second, to_micros}
use otel_magnify.Version.Strings.{text_eq}
use otel_magnify.OpampTokens.AuditEvents.{is_canonical_opamp_token_id}
use otel_magnify.OpampTokens.{
  TokenStatus, active, expired, revoked, OpampTokenPrincipal, TokenRow, Store, commits,
  invalid_token, Outcome, returns, fails, nullable_time_utc, is_present, is_expired, is_live,
  token_status, validate_row, validate_opamp_token, mark_row, mark_found, mark_opamp_token_used,
  close, spared_write, is_used_recently, used_tokens,
}

unfoldable pub is_active : TokenStatus → Bool
is_active active = true
is_active expired = false
is_active revoked = false

-- Whether the store knows the token and shows it as active, and it is presented with its digest.
unfoldable pub verdict : String → List ℕ → Time → Option TokenRow → Outcome OpampTokenPrincipal
unfolding is_active
verdict id presented now none = fails invalid_token
verdict id presented now (some r) =
    if text_eq presented r.secret_hash && is_active (token_status now r)
    then returns (record { id = id; expires_at = nullable_time_utc r.expires_at })
    else fails invalid_token

unfoldable pub usable : Time → Option TokenRow → Outcome Unit
unfolding is_active
usable now none = fails invalid_token
usable now (some r) = if is_active (token_status now r) then returns tt else fails invalid_token

-- Whether no use is known of the last 30 seconds.
unfoldable pub is_unused : Time → Option Time → Bool
is_unused now none = true
is_unused now (some t) = leb (t + 30 * second) now

-- The store after a use of the token at a time.
unfoldable pub with_use : String → Time → Option TokenRow → Store → Store
unfolding is_active is_unused
with_use id now none db = db
with_use id now (some r) db =
    if is_active (token_status now r) && is_unused now r.last_used_at
    then record db { tokens = put db.tokens id (record r { last_used_at = some (to_micros now) }) }
    else db

-- A digest of 32 bytes, and an end that is a whole number of microseconds.
pub record StoredRow (r : TokenRow) : Type 0 where
  pub digest_bytes : length r.secret_hash ≡ 32
  pub whole_end : (t : Time) → r.expires_at ≡ some t → t % 1000 ≡ 0

expired-micros :
    (now : Time) (o : Option Time)
    → ((t : Time) → o ≡ some t → t % 1000 ≡ 0)
    → is_expired (to_micros now) o ≡ is_expired now o
unfolding is_expired
expired-micros now none h = refl
expired-micros now (some t) h = ground (arith, h t refl)

live-active :
    (now : Time) (r : TokenRow) → StoredRow r → is_live now r ≡ is_active (token_status now r)
unfolding is_live token_status is_active is_present
live-active now r h = ground (arith, expired-micros now r.expires_at h.whole_end)

validate_row-verdict :
    (id : String) (presented : List ℕ) (now : Time) (r : TokenRow)
    → StoredRow r
    → validate_row id presented now (some r) ≡ verdict id presented now (some r)
unfolding validate_row verdict token_status is_active is_present
validate_row-verdict id presented now r n = ground (arith, n.digest_bytes)

spared-commits : (recently : Bool) → spared_write recently commits ≡ commits
unfolding spared_write
spared-commits true = refl
spared-commits false = refl

unused-recently :
    (now : Time) (o : Option Time)
    → is_used_recently now o ≡ (if is_unused now o then false else true)
unfolding is_used_recently is_unused
unused-recently now none = refl
unused-recently now (some t) = ground arith

mark_row-usable :
    (id : String) (now : Time) (o : Option TokenRow) (db : Store)
    → ((r : TokenRow) → o ≡ some r → StoredRow r)
    → mark_row commits id now o db ≡ (with_use id now o db, usable now o)
unfolding mark_row mark_found usable close with_use used_tokens
mark_row-usable id now none db h = refl
mark_row-usable id now (some r) db h = elim (Bool-cases (is_live now r)) [
  | inl b ↦
      let a : is_active (token_status now r) ≡ true = sym (live-active now r (h r refl)) ∙ b in
      let k = unused-recently now r.last_used_at in
      elim (Bool-cases (is_unused now r.last_used_at)) [
        | inl u ↦
            let f : is_used_recently now r.last_used_at ≡ false = ground (arith, k, u) in
            rw
              (
                b, mark_row, mark_found, spared-commits, close, used_tokens, f, with_use, usable, a,
                u,
              )
              refl
        | inr u ↦
            let f : is_used_recently now r.last_used_at ≡ true = ground (arith, k, u) in
            rw
              (
                b, mark_row, mark_found, spared-commits, close, used_tokens, f, with_use, usable, a,
                u,
              )
              refl
      ]
  | inr b ↦
      let a : is_active (token_status now r) ≡ false = sym (live-active now r (h r refl)) ∙ b in
      rw (b, mark_row, mark_found, with_use, usable, a) refl
]

-- Where the digest in the row of a token has 32 bytes, its end is a whole number of microseconds,
-- and the database answers, the token is validated if its identifier is canonical, its status is
-- active and the digest is its own, and its use is accepted if its identifier is canonical and its
-- status is active; every other token, unknown, revoked or expired, or with another digest, is
-- refused with the same error. A use that is accepted is stored, with its time cut to microseconds,
-- where no use of the last 30 seconds is known; nothing else in the store changes.
pub validate-verdict :
    (uuid_text : String → Option String) (id : String) (presented : List ℕ) (now : Time)
    (db : Store)
    → ((r : TokenRow) → get db.tokens id ≡ some r → StoredRow r)
    → (validate_opamp_token uuid_text true id presented now db ≡ (
        if is_canonical_opamp_token_id uuid_text id
        then verdict id presented now (get db.tokens id)
        else fails invalid_token))
      × (mark_opamp_token_used uuid_text commits id now db ≡ (
          if is_canonical_opamp_token_id uuid_text id
          then (with_use id now (get db.tokens id) db, usable now (get db.tokens id))
          else (db, fails invalid_token)))
unfolding validate_opamp_token mark_opamp_token_used validate_row verdict
validate-verdict uuid_text id presented now db h =
    elim (Bool-cases (is_canonical_opamp_token_id uuid_text id)) [
      | inr b ↦ rw (b, validate_opamp_token, mark_opamp_token_used) (refl, refl)
      | inl b ↦
          rw (b, validate_opamp_token, mark_opamp_token_used)
            (
              elim (Option-cases (get db.tokens id)) [
                | inl n ↦ rw n refl
                | inr (r, e) ↦ rw e (validate_row-verdict id presented now r (h r e))
              ],
              mark_row-usable id now (get db.tokens id) db h,
            )
    ]
