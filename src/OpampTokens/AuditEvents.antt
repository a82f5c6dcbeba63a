-- ===== src/OpampTokens/AuditEvents.antt =====
-- validateTokenAuditEvent of internal/store/audit_outbox.go, which guards what a mutation of a token
-- writes to the outbox.
use otel_magnify.Prelude.{
  ℕ, ◌+◌, Bool, false, not, ◌||◌, Option, none, some, List, [], ◌∷◌, String, ◌==◌, string_eq,
  nat_eq, ltb, if◌then◌else◌, any,
}
use otel_magnify.Prelude.Clock.{Time}
use otel_magnify.Version.Strings.{Text, codes, trim_space, text_eq}
use otel_magnify.Outbox.{AuditEvent, OutboxError, validate_utc_time}

-- An event, with the location of its time.
pub record StampedEvent : Type 0 where
  pub event : AuditEvent
  pub is_utc : Bool

pub data EventError : Type 0 where
  event_id_refused other_time other_action other_resource other_resource_id resource_id_refused
        other_user has_detail :
      EventError
  time_refused : OutboxError → EventError
  has_newline too_long : String → EventError

-- isCanonicalOpAMPTokenID, and isCanonicalUUID, which has the same body.
unfoldable pub is_canonical_opamp_token_id : (String → Option String) → String → Bool
is_canonical_opamp_token_id uuid_text value = elim (uuid_text value) [
  | none ↦ false
  | some text ↦ text == value
]

-- `len` of a text in UTF-8.
unfoldable pub byte_length : Text → ℕ
byte_length [] = 0
byte_length (c ∷ s) =
    (if ltb c 0x80 then 1 else if ltb c 0x800 then 2 else if ltb c 0x10000 then 3 else 4)
    + byte_length s

unfoldable pub check_fields : List (String × String × ℕ) → Option EventError
unfolding byte_length
check_fields [] = none
check_fields ((name, value, max) ∷ fields) =
    let rest = check_fields fields in
    if any (λ c. c == 13 || c == 10) (codes value)
    then some (has_newline name)
    else if ltb max (byte_length (codes value))
    then some (too_long name)
    else rest

unfoldable pub event_fields : AuditEvent → List (String × String × ℕ)
event_fields e =
    ("event_id", e.event_id, 128)
    ∷ ("action", e.action, 128)
    ∷ ("user_id", e.user_id, 256)
    ∷ ("email", e.email, 320)
    ∷ ("resource", e.resource, 128)
    ∷ ("resource_id", e.resource_id, 256)
    ∷ ("detail", e.detail, 4096)
    ∷ []

module _ (uuid_text : String → Option String) where
  unfoldable pub validate_token_audit_event :
      StampedEvent → String → String → String → Time → Option EventError
  unfolding is_canonical_opamp_token_id check_fields event_fields
  validate_token_audit_event stamped action token_id actor occurred_at =
      let e = stamped.event in
      if not (is_canonical_opamp_token_id uuid_text e.event_id)
      then some event_id_refused
      else elim (validate_utc_time (record { at = e.occurred_at; is_utc = stamped.is_utc })) [
        | some x ↦ some (time_refused x)
        | none ↦
            if not (e.occurred_at == occurred_at)
            then some other_time
            else if not (e.action == action)
            then some other_action
            else if not (e.resource == "opamp_token")
            then some other_resource
            else if not (e.resource_id == token_id)
            then some other_resource_id
            else if not (is_canonical_opamp_token_id uuid_text e.resource_id)
            then some resource_id_refused
            else if text_eq (trim_space (codes actor)) [] || not (e.user_id == actor)
            then some other_user
            else if not (e.detail == "")
            then some has_detail
            else check_fields (event_fields e)
      ]
