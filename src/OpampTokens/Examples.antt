-- ===== src/OpampTokens/Examples.antt =====
-- Tests of the token store, and its theorems at short runs.
use otel_magnify.Prelude.{
  ℕ, ◌≡◌, ◌≢◌, refl, sym, Bool, true, false, Option, none, some, List, [], ◌∷◌, String, ◌==◌,
  string_eq, nat_eq, if◌then◌else◌, arith,
}
use otel_magnify.Prelude.Dict.{get, put}
use otel_magnify.Prelude.Clock.{Time}
use otel_magnify.Version.Strings.{text_eq, trim_space, trim_left}
use otel_magnify.Outbox.{Stamp, new_row, validate_utc_time}
use otel_magnify.OpampTokens.AuditEvents.{
  StampedEvent, is_canonical_opamp_token_id, byte_length, check_fields, event_fields,
  validate_token_audit_event, has_newline,
}
use otel_magnify.OpampTokens.{
  OpampTokenCredential, OpampTokenPrincipal, TokenRow, active, Store, Transaction, commits,
  commit_answer_lost, invalid_token, returns, fails, utc, nullable_time_utc, checked, event_checked,
  and_then, optional_time, is_present, stamp_time, inserted_row, close, close_with_event,
  is_expired, token_status, text_of, populate_opamp_token_state, revoked_row, revoked_token,
  revoke_found, revoke_row, is_live, is_used_recently, used_tokens, spared_write, mark_found,
  mark_row, validate_row, validate_new, create_opamp_token, validate_revocation, revoke_opamp_token,
  mark_opamp_token_used, validate_opamp_token,
}
use otel_magnify.OpampTokens.Transactions.{Event, creates, revokes, uses, step, run}
use otel_magnify.OpampTokens.Validation.{
  is_active, verdict, usable, with_use, StoredRow, validate-verdict,
}
use otel_magnify.OpampTokens.Revocation.{revoked_is_final}
use otel_magnify.OpampTokens.Logged.{Logged}
use otel_magnify.OpampTokens.Trail.{audit_trail}

-- Opens the store for a test.
opened : List ℕ
unfolding get put text_eq trim_space trim_left new_row validate_utc_time is_canonical_opamp_token_id
    byte_length check_fields event_fields validate_token_audit_event utc nullable_time_utc checked
    event_checked and_then optional_time is_present stamp_time inserted_row close close_with_event
    is_expired token_status text_of populate_opamp_token_state revoked_row revoked_token
    revoke_found revoke_row is_live is_used_recently used_tokens spared_write mark_found mark_row
    validate_row validate_new create_opamp_token validate_revocation revoke_opamp_token
    mark_opamp_token_used validate_opamp_token step run is_active verdict usable
opened = []

-- A parser of identifiers that takes every text but the empty one.
abbrev uuid_text : String → Option String
uuid_text s = if s == "" then none else some s

abbrev id_before : String → String → Bool
id_before i j = false

abbrev digest : List ℕ
digest =
    1 ∷ 2 ∷ 3 ∷ 4 ∷ 5 ∷ 6 ∷ 7 ∷ 8 ∷ 9 ∷ 10 ∷ 11 ∷ 12 ∷ 13 ∷ 14 ∷ 15 ∷ 16 ∷ 17 ∷ 18 ∷ 19 ∷ 20 ∷ 21
    ∷ 22 ∷ 23 ∷ 24 ∷ 25 ∷ 26 ∷ 27 ∷ 28 ∷ 29 ∷ 30 ∷ 31 ∷ 32 ∷ []

abbrev stamp : Time → Stamp
stamp t = record { at = t; is_utc = true }

abbrev credential : OpampTokenCredential
credential = record {
  token = record {
    id = "t1";
    name = "edge";
    description = "";
    team = "";
    environment = "";
    created_at = stamp 100_000;
    created_by = "ada";
    expires_at = some (stamp 900_000);
    last_used_at = none;
    revoked_at = none;
    revoked_by = "";
    status = active;
  };
  secret_hash = digest;
}

abbrev event : String → String → String → Time → StampedEvent
event id action user at = record {
  event = record {
    event_id = id;
    occurred_at = at;
    action = action;
    user_id = user;
    email = "";
    resource = "opamp_token";
    resource_id = "t1";
    detail = "";
  };
  is_utc = true;
}

abbrev empty : Store
empty = record { tokens = []; outbox = [] }

abbrev creation : Event
creation = creates commits credential (event "e1" "opamp.token.create" "ada" 100_000)

abbrev stored : Store
stored = run id_before uuid_text (creation ∷ []) empty

accepts :
    validate_opamp_token uuid_text true "t1" digest 200_000 stored
    ≡ returns (record { id = "t1"; expires_at = some (stamp 900_000) })
unfolding opened
accepts = refl

refuses_expired :
    validate_opamp_token uuid_text true "t1" digest 900_000 stored ≡ fails invalid_token
unfolding opened
refuses_expired = refl

refuses_newline :
    validate_token_audit_event uuid_text
      (event "e\n1" "opamp.token.create" "ada" 100_000)
      "opamp.token.create"
      "t1"
      "ada"
      100_000
    ≡ some (has_newline "event_id")
unfolding opened
refuses_newline = refl

row_stored : get stored.tokens "t1" ≡ some (inserted_row credential)
unfolding opened
row_stored = refl

inserted-StoredRow : StoredRow (inserted_row credential)
unfolding opened
inserted-StoredRow = record { digest_bytes = refl; whole_end = λ t e. ground (arith, e) }

stored-StoredRow : (r : TokenRow) → get stored.tokens "t1" ≡ some r → StoredRow r
stored-StoredRow r h =
    let q : inserted_row credential ≡ r = ground (arith, row_stored, h) in
    rw (sym q) inserted-StoredRow

validate-verdict_example :
    (validate_opamp_token uuid_text true "t1" digest 200_000 stored ≡ (
      if is_canonical_opamp_token_id uuid_text "t1"
      then verdict "t1" digest 200_000 (get stored.tokens "t1")
      else fails invalid_token))
    × (mark_opamp_token_used uuid_text commits "t1" 200_000 stored ≡ (
        if is_canonical_opamp_token_id uuid_text "t1"
        then (
          with_use "t1" 200_000 (get stored.tokens "t1") stored,
          usable 200_000 (get stored.tokens "t1"),
        )
        else (stored, fails invalid_token)))
validate-verdict_example = validate-verdict uuid_text "t1" digest 200_000 stored stored-StoredRow

abbrev revocation : Event
revocation =
    revokes commit_answer_lost "t1" "bob" (stamp 300_000)
      (event "e2" "opamp.token.revoke" "bob" 300_000)

abbrev withdrawn : Store
withdrawn = run id_before uuid_text (creation ∷ uses commits "t1" 150_000 ∷ revocation ∷ []) empty

abbrev withdrawn_row : TokenRow
withdrawn_row = record {
  name = "edge";
  description = "";
  team = "";
  environment = "";
  secret_hash = digest;
  created_at = 100_000;
  created_by = "ada";
  expires_at = some 900_000;
  last_used_at = some 150_000;
  revoked_at = some 300_000;
  revoked_by = some "bob";
}

row_withdrawn : get withdrawn.tokens "t1" ≡ some withdrawn_row
unfolding opened
row_withdrawn = refl

abbrev later : List Event
later = uses commits "t1" 400_000 ∷ creation ∷ []

revoked_is_final_example :
    let d = run id_before uuid_text later withdrawn in
    ((s : TokenRow) × (get d.tokens "t1" ≡ some s)
      × (s.revoked_at ≡ some 300_000)
      × (s.revoked_by ≡ some "bob"))
    × ((reads : Bool) (presented : List ℕ) (now : Time) (p : OpampTokenPrincipal)
        → validate_opamp_token uuid_text reads "t1" presented now d ≢ returns p)
    × ((transaction : Transaction) (now : Time)
        → ((mark_opamp_token_used uuid_text transaction "t1" now d).0 ≡ d)
          × ((mark_opamp_token_used uuid_text transaction "t1" now d).1 ≢ returns tt))
revoked_is_final_example =
    revoked_is_final id_before uuid_text later withdrawn "t1" withdrawn_row 300_000 row_withdrawn
      refl

audit_trail_example :
    Logged withdrawn.outbox "opamp.token.create" "t1" "ada" 100_000
    × ((actor : String) (at : Time)
        → some 300_000 ≡ some at
        → some "bob" ≡ some actor
        → Logged withdrawn.outbox "opamp.token.revoke" "t1" actor at)
    × (is_present {A = String} (some "bob") ≡ is_present {A = Time} (some 300_000))
audit_trail_example =
    audit_trail id_before uuid_text (creation ∷ uses commits "t1" 150_000 ∷ revocation ∷ []) "t1"
      withdrawn_row row_withdrawn
