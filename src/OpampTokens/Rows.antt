-- ===== src/OpampTokens/Rows.antt =====
-- The rows of internal/store/opamp_tokens.go, its errors, and the ends of its transactions.
use otel_magnify.Prelude.{
  ℕ, Bool, true, false, Option, none, some, List, String, string_eq, nat_eq, if◌then◌else◌, ◌*◌,
}
use otel_magnify.Prelude.Dict.{Dict, get, put}
use otel_magnify.Prelude.Clock.{Time, Duration, second, to_micros}
use otel_magnify.Outbox.{AuditEvent, AuditOutbox, Stamp, OutboxError, validate_utc_time, new_row}
use otel_magnify.OpampTokens.AuditEvents.{EventError}

abbrev pub opamp_token_activity_window : Duration
opamp_token_activity_window = 30 * second

pub data TokenStatus : Type 0 where
  active expired revoked : TokenStatus

pub record OpampToken : Type 0 where
  pub id : String
  pub name : String
  pub description : String
  pub team : String
  pub environment : String
  pub created_at : Stamp
  pub created_by : String
  pub expires_at : Option Stamp
  pub last_used_at : Option Stamp
  pub revoked_at : Option Stamp
  pub revoked_by : String
  pub status : TokenStatus

-- A digest is the list of its bytes.
pub record OpampTokenCredential : Type 0 where
  pub token : OpampToken
  pub secret_hash : List ℕ

pub record OpampTokenPrincipal : Type 0 where
  pub id : String
  pub expires_at : Option Stamp

-- The columns beside the key; those of times keep microseconds.
pub record TokenRow : Type 0 where
  pub name : String
  pub description : String
  pub team : String
  pub environment : String
  pub secret_hash : List ℕ
  pub created_at : Time
  pub created_by : String
  pub expires_at : Option Time
  pub last_used_at : Option Time
  pub revoked_at : Option Time
  pub revoked_by : Option String

pub record Store : Type 0 where
  pub tokens : Dict String TokenRow
  pub outbox : AuditOutbox

-- What happens to a transaction: one of its statements fails, the commit is refused, or the commit
-- is carried out and its answer is lost. The first statement is the begin or the query, which comes
-- before what a row decides; a write that a constraint of the table refuses is a failing write.
pub data Transaction : Type 0 where
  commits query_fails write_fails commit_refused commit_answer_lost : Transaction

pub data TokenError : Type 0 where
  id_not_canonical not_new not_found invalid_token digest_length store_error
        commit_outcome_unknown :
      TokenError
  invalid_time : OutboxError → TokenError
  invalid_event : EventError → TokenError

pub data Outcome (A : Type 0) : Type 0 where
  returns : A → Outcome A
  fails : TokenError → Outcome A

unfoldable pub utc : Time → Stamp
utc t = record { at = t; is_utc = true }

unfoldable pub nullable_time_utc : Option Time → Option Stamp
unfolding utc
nullable_time_utc none = none
nullable_time_utc (some t) = some (utc t)

unfoldable pub checked : Option OutboxError → Option TokenError
checked none = none
checked (some e) = some (invalid_time e)

unfoldable pub event_checked : Option EventError → Option TokenError
event_checked none = none
event_checked (some e) = some (invalid_event e)

unfoldable pub and_then : Option TokenError → Option TokenError → Option TokenError
and_then none later = later
and_then (some e) later = some e

unfoldable pub optional_time : Option Stamp → Option TokenError
unfolding checked
optional_time none = none
optional_time (some t) = checked (validate_utc_time t)

unfoldable pub is_present : {A : Type 0} → Option A → Bool
is_present none = false
is_present (some a) = true

-- A time that may be missing, as it is stored.
unfoldable pub stamp_time : Option Stamp → Option Time
stamp_time none = none
stamp_time (some t) = some (to_micros t.at)

unfoldable pub inserted_row : OpampTokenCredential → TokenRow
unfolding stamp_time
inserted_row c = record {
  name = c.token.name;
  description = c.token.description;
  team = c.token.team;
  environment = c.token.environment;
  secret_hash = c.secret_hash;
  created_at = to_micros c.token.created_at.at;
  created_by = c.token.created_by;
  expires_at = stamp_time c.token.expires_at;
  last_used_at = none;
  revoked_at = none;
  revoked_by = none;
}

-- The end of a transaction that would leave the tables as `d`; `unknown` is the error of a commit.
unfoldable pub close :
    {A : Type 0} → Transaction → TokenError → A → Store → Store → Store × Outcome A
close commits unknown a d db = (d, returns a)
close query_fails unknown a d db = (db, fails store_error)
close write_fails unknown a d db = (db, fails store_error)
close commit_refused unknown a d db = (db, fails unknown)
close commit_answer_lost unknown a d db = (d, fails unknown)

-- The insertion of the audit event, then the commit.
unfoldable pub close_with_event :
    {A : Type 0} → Transaction → AuditEvent → A → Dict String TokenRow → Store → Store × Outcome A
unfolding close is_present
close_with_event transaction e a tokens db =
    if is_present (get db.outbox e.event_id)
    then (db, fails store_error)
    else close transaction commit_outcome_unknown a
        (record { tokens = tokens; outbox = put db.outbox e.event_id (new_row e) }) db
