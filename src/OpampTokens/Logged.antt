-- ===== src/OpampTokens/Logged.antt =====
-- What the table of internal/store/audit_outbox.go says of a token.
use otel_magnify.Prelude.{
  ◌≡◌, refl, inl, inr, Option, none, some, String, string_eq, arith, eq_iff, Option-cases, nat_eq,
  nat_beq_iff,
}
use otel_magnify.Prelude.Dict.{get, put, get-put}
use otel_magnify.Prelude.Clock.{Time, to_micros}
use otel_magnify.Outbox.{AuditEvent, AuditOutbox, Row, scan, new_row, validate_utc_time}
use otel_magnify.OpampTokens.AuditEvents.{StampedEvent, validate_token_audit_event}
use otel_magnify.OpampTokens.{TokenRow, is_present}
use otel_magnify.OpampTokens.Contents.{content}

-- What an event says.
pub record Tells (e : AuditEvent) (action id actor : String) (at : Time) : Type 0 where
  pub action_is : e.action ≡ action
  pub resource_is : e.resource ≡ "opamp_token"
  pub resource_id_is : e.resource_id ≡ id
  pub user_is : e.user_id ≡ actor
  pub time_is : e.occurred_at ≡ at

-- The outbox holds an event of the action on the token.
abbrev pub Logged : AuditOutbox → String → String → String → Time → Type 0
Logged outbox action id actor at =
    (e : String) × (row : Row) × (get outbox e ≡ some row) × Tells (content row) action id actor at

pub put-Logged :
    (outbox : AuditOutbox) (action id actor : String) (at : Time) (i : String) (new : Row)
    → get outbox i ≡ none
    → Logged outbox action id actor at
    → Logged (put outbox i new) action id actor at
put-Logged outbox action id actor at i new fresh (e, row, g, h) =
    (e, row, ground (arith, g, fresh, get-put outbox i e new, eq_iff i e), h)

pub valid-Tells :
    (uuid_text : String → Option String) (e : StampedEvent) (action id actor : String) (at : Time)
    → validate_token_audit_event uuid_text e action id actor at ≡ none
    → Tells e.event action id actor at
unfolding validate_token_audit_event
valid-Tells uuid_text e action id actor at h =
    elim (Option-cases
      (validate_utc_time (record { at = e.event.occurred_at; is_utc = e.is_utc }))) [
        | inr (x, f) ↦ ground (arith, h, f)
        | inl f ↦ record {
          action_is = ground (arith, h, f, eq_iff e.event.action action);
          resource_is = ground (arith, h, f, eq_iff e.event.resource "opamp_token");
          resource_id_is = ground (arith, h, f, eq_iff e.event.resource_id id);
          user_is = ground (arith, h, f, eq_iff e.event.user_id actor);
          time_is = ground (arith, h, f, nat_beq_iff e.event.occurred_at at);
        }
      ]

pub new-Logged :
    (outbox : AuditOutbox) (e : AuditEvent) (action id actor : String) (at : Time)
    → Tells e action id actor at
    → Logged (put outbox e.event_id (new_row e)) action id actor (to_micros at)
unfolding new_row content scan
new-Logged outbox e action id actor at h = (
  e.event_id,
  new_row e,
  ground (arith, get-put outbox e.event_id e.event_id (new_row e), eq_iff e.event_id e.event_id),
  record {
    action_is = h.action_is;
    resource_is = h.resource_is;
    resource_id_is = h.resource_id_is;
    user_is = h.user_is;
    time_is = rw h.time_is refl;
  },
)

-- The row of a token, and its revocation, were written with their events.
pub record Audited (outbox : AuditOutbox) (id : String) (r : TokenRow) : Type 0 where
  pub created : Logged outbox "opamp.token.create" id r.created_by r.created_at
  pub revoked :
      (actor : String) (at : Time)
      → r.revoked_at ≡ some at
      → r.revoked_by ≡ some actor
      → Logged outbox "opamp.token.revoke" id actor at
  pub by_somebody : is_present r.revoked_by ≡ is_present r.revoked_at

pub put-Audited :
    (outbox : AuditOutbox) (id : String) (r : TokenRow) (i : String) (new : Row)
    → get outbox i ≡ none
    → Audited outbox id r
    → Audited (put outbox i new) id r
put-Audited outbox id r i new fresh h = record {
  created =
      put-Logged outbox "opamp.token.create" id r.created_by r.created_at i new fresh h.created;
  revoked = λ actor at f g.
      put-Logged outbox "opamp.token.revoke" id actor at i new fresh (h.revoked actor at f g);
  by_somebody = h.by_somebody;
}
