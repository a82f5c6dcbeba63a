-- ===== src/OpampTokens.antt =====
-- internal/store/opamp_tokens.go over its table of
-- internal/store/migrations/00027_create_opamp_tokens.sql: the rows by their primary key, beside the
-- table of audit events. A transaction is one step, which is carried out as a whole or not at all.
-- `uuid.Parse(...).String()` is the parameter `uuid_text`.
mod Rows
pub mod AuditEvents
pub mod Validation
pub mod Transactions
pub mod Revocation
pub mod Contents
pub mod Logged
pub mod Trail
mod Examples
unfoldable pub use Rows.*
use otel_magnify.Prelude.{
  ℕ, ◌+◌, Bool, true, false, not, ◌&&◌, ◌||◌, Option, none, some, List, [], ◌∷◌, String, ◌==◌,
  string_eq, nat_eq, ltb, leb, if◌then◌else◌, length, ◌*◌,
}
use otel_magnify.Prelude.Dict.{Dict, get, put}
use otel_magnify.Prelude.Clock.{Time, Duration, second, after, to_micros}
use otel_magnify.Version.Strings.{text_eq}
use otel_magnify.Outbox.{AuditEvent, AuditOutbox, Stamp, OutboxError, validate_utc_time, new_row}
use otel_magnify.OpampTokens.AuditEvents.{
  EventError, StampedEvent, is_canonical_opamp_token_id, validate_token_audit_event,
}

-- `expires_at IS NOT NULL AND expires_at <= now`
unfoldable pub is_expired : Time → Option Time → Bool
is_expired now none = false
is_expired now (some t) = not (after t now)

-- The switch of populateOpAMPTokenState.
unfoldable pub token_status : Time → TokenRow → TokenStatus
unfolding is_expired is_present
token_status now r =
    if is_present r.revoked_at
    then revoked
    else if is_expired now r.expires_at
    then expired
    else active

unfoldable pub text_of : Option String → String
text_of none = ""
text_of (some s) = s

-- A row as it is scanned, with populateOpAMPTokenState.
unfoldable pub populate_opamp_token_state : String → Time → TokenRow → OpampToken
unfolding token_status nullable_time_utc text_of
populate_opamp_token_state id now r = record {
  id = id;
  name = r.name;
  description = r.description;
  team = r.team;
  environment = r.environment;
  created_at = utc r.created_at;
  created_by = r.created_by;
  expires_at = nullable_time_utc r.expires_at;
  last_used_at = nullable_time_utc r.last_used_at;
  revoked_at = nullable_time_utc r.revoked_at;
  revoked_by = text_of r.revoked_by;
  status = token_status now r;
}

unfoldable pub revoked_row : String → Time → TokenRow → TokenRow
revoked_row by now r = record r { revoked_at = some (to_micros now); revoked_by = some by }

unfoldable pub revoked_token : String → Time → OpampToken → OpampToken
unfolding utc
revoked_token by now t = record t { revoked_at = some (utc now); revoked_by = by; status = revoked }

-- RevokeOpAMPToken on the row it has locked.
unfoldable pub revoke_found :
    Transaction
    → String
    → String
    → Time
    → AuditEvent
    → TokenRow
    → Store
    → Store × Outcome (OpampToken × Bool)
unfolding close_with_event revoked_row revoked_token populate_opamp_token_state
revoke_found transaction id by now e r db =
    let token = populate_opamp_token_state id now r in
    if is_present r.revoked_at
    then (db, returns (token, false))
    else close_with_event transaction e (revoked_token by now token, true)
        (put db.tokens id (revoked_row by now r)) db

unfoldable pub revoke_row :
    Transaction
    → String
    → String
    → Time
    → AuditEvent
    → Option TokenRow
    → Store
    → Store × Outcome (OpampToken × Bool)
unfolding revoke_found
revoke_row query_fails id by now e o db = (db, fails store_error)
revoke_row transaction id by now e none db = (db, fails not_found)
revoke_row transaction id by now e (some r) db = revoke_found transaction id by now e r db

-- `revoked_at IS NULL AND (expires_at IS NULL OR expires_at > $2)`, where $2 is cut as every time that
-- is passed to the database
unfoldable pub is_live : Time → TokenRow → Bool
unfolding is_present is_expired
is_live now r = not (is_present r.revoked_at) && not (is_expired (to_micros now) r.expires_at)

unfoldable pub is_used_recently : Time → Option Time → Bool
is_used_recently now none = false
is_used_recently now (some t) = ltb now (t + opamp_token_activity_window)

unfoldable pub used_tokens : String → Time → TokenRow → Dict String TokenRow → Dict String TokenRow
unfolding is_used_recently
used_tokens id now r tokens =
    if is_used_recently now r.last_used_at
    then tokens
    else put tokens id (record r { last_used_at = some (to_micros now) })

-- The row the query of MarkOpAMPTokenUsed locks; the update that a recent use spares may not fail.
unfoldable pub spared_write : Bool → Transaction → Transaction
spared_write true write_fails = commits
spared_write recently transaction = transaction

unfoldable pub mark_found : Transaction → String → Time → TokenRow → Store → Store × Outcome Unit
unfolding is_live used_tokens close spared_write
mark_found transaction id now r db =
    if is_live now r
    then close (spared_write (is_used_recently now r.last_used_at) transaction) store_error tt
        (record db { tokens = used_tokens id now r db.tokens }) db
    else (db, fails invalid_token)

unfoldable pub mark_row :
    Transaction → String → Time → Option TokenRow → Store → Store × Outcome Unit
unfolding mark_found
mark_row query_fails id now o db = (db, fails store_error)
mark_row transaction id now none db = (db, fails invalid_token)
mark_row transaction id now (some r) db = mark_found transaction id now r db

abbrev pub dummy_opamp_token_digest : List ℕ
dummy_opamp_token_digest =
    0x9f ∷ 0xd4 ∷ 0x17 ∷ 0xe6 ∷ 0x4e ∷ 0x98 ∷ 0xa8 ∷ 0xce ∷ 0x90 ∷ 0x2d ∷ 0x43 ∷ 0x60 ∷ 0x78 ∷ 0x25
    ∷ 0xf1 ∷ 0xe7 ∷ 0x3a ∷ 0x22 ∷ 0xb4 ∷ 0x1b ∷ 0xa5 ∷ 0x12 ∷ 0xeb ∷ 0x2c ∷ 0x81 ∷ 0x21 ∷ 0xee
    ∷ 0x47 ∷ 0x69 ∷ 0x2a ∷ 0x34 ∷ 0xf8 ∷ []

-- The decision of ValidateOpAMPToken on what the query has found. Without a row the comparison with
-- the dummy digest, which is there for the time it takes, decides nothing.
unfoldable pub validate_row : String → List ℕ → Time → Option TokenRow → Outcome OpampTokenPrincipal
unfolding is_present is_expired nullable_time_utc
validate_row id presented now none = fails invalid_token
validate_row id presented now (some r) =
    if not (length r.secret_hash == length dummy_opamp_token_digest)
    then fails digest_length
    else if not (text_eq presented r.secret_hash)
        || is_present r.revoked_at
        || is_expired now r.expires_at
    then fails invalid_token
    else returns (record { id = id; expires_at = nullable_time_utc r.expires_at })

module _ (uuid_text : String → Option String) where
  unfoldable pub validate_new : OpampTokenCredential → StampedEvent → Option TokenError
  unfolding and_then checked event_checked optional_time is_present
  validate_new c e =
      let token = c.token in
      if not (is_canonical_opamp_token_id uuid_text token.id)
      then some id_not_canonical
      else and_then (checked (validate_utc_time token.created_at)) (
          and_then
            (event_checked (
              validate_token_audit_event uuid_text e "opamp.token.create" token.id token.created_by
                token.created_at.at))
            (and_then (optional_time token.expires_at) (
              if is_present token.last_used_at
                || is_present token.revoked_at
                || not (token.revoked_by == "")
              then some not_new
              else none)))

  unfoldable pub create_opamp_token :
      Transaction → OpampTokenCredential → StampedEvent → Store → Store × Outcome Unit
  unfolding validate_new close_with_event inserted_row is_present
  create_opamp_token transaction c e db = elim (validate_new c e) [
    | some x ↦ (db, fails x)
    | none ↦
        if is_present (get db.tokens c.token.id)
        then (db, fails store_error)
        else close_with_event transaction e.event tt (put db.tokens c.token.id (inserted_row c)) db
  ]

  unfoldable pub validate_revocation : String → String → Stamp → StampedEvent → Option TokenError
  unfolding and_then checked event_checked
  validate_revocation id by now e =
      if not (is_canonical_opamp_token_id uuid_text id)
      then some not_found
      else and_then (checked (validate_utc_time now))
          (event_checked (validate_token_audit_event uuid_text e "opamp.token.revoke" id by now.at))

  unfoldable pub revoke_opamp_token :
      Transaction
      → String
      → String
      → Stamp
      → StampedEvent
      → Store
      → Store × Outcome (OpampToken × Bool)
  unfolding validate_revocation revoke_row
  revoke_opamp_token transaction id by now e db = elim (validate_revocation id by now e) [
    | some x ↦ (db, fails x)
    | none ↦ revoke_row transaction id by now.at e.event (get db.tokens id) db
  ]

  unfoldable pub mark_opamp_token_used : Transaction → String → Time → Store → Store × Outcome Unit
  unfolding mark_row
  mark_opamp_token_used transaction id now db =
      if not (is_canonical_opamp_token_id uuid_text id)
      then (db, fails invalid_token)
      else mark_row transaction id now (get db.tokens id) db

  -- `reads` is false where the query fails.
  unfoldable pub validate_opamp_token :
      Bool → String → List ℕ → Time → Store → Outcome OpampTokenPrincipal
  unfolding validate_row
  validate_opamp_token reads id presented now db =
      if not (is_canonical_opamp_token_id uuid_text id)
      then fails invalid_token
      else if reads
      then validate_row id presented now (get db.tokens id)
      else fails store_error
