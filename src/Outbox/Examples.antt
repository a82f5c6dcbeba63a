-- ===== src/Outbox/Examples.antt =====
-- An outbox of two events, one of which is claimed, delivered and then left alone.
use otel_magnify.Prelude.{
  ◌≡◌, refl, suc, ◌*◌, ◌+◌, ◌<◌, min, inl, false, Bool, Option, none, some, List, [], ◌∷◌, String,
  string_eq, arith, eq_iff, ◌≢◌,
}
use otel_magnify.Prelude.Dict.{get, IsMap}
use otel_magnify.Prelude.Clock.{Time, second, minute}
use otel_magnify.Outbox.{AuditEvent, AuditOutbox, PendingAuditEvent, answered, Row, lease_row, scan}
use otel_magnify.Outbox.Dispatcher.{
  utc, audit_outbox_backoff, audit_outbox_sink_timeout, start_delivery, deliver,
}
use otel_magnify.Outbox.Claims.{Statement, inserts, claims, marks, reschedules, run}
use otel_magnify.Outbox.Backoff.{doubled, backoff-doubled}
use otel_magnify.Outbox.Delivery.{delivered_final, lease_exclusive}
use otel_magnify.Outbox.Turns.{smooth_turn}
use otel_magnify.Outbox.Deadline.{sink_deadline}

abbrev any_order : String → String → Bool
any_order i j = false

-- Every text is a canonical identifier.
abbrev own_text : String → Option String
own_text value = some value

abbrev event : String → Time → AuditEvent
event id at = record {
  event_id = id;
  occurred_at = at;
  action = "opamp_token.created";
  user_id = "u1";
  email = "u1@example.com";
  resource = "opamp_token";
  resource_id = "t1";
  detail = "";
}

abbrev row : String → Time → Row
row id at = record {
  occurred_at = at;
  action = "opamp_token.created";
  user_id = "u1";
  email = "u1@example.com";
  resource = "opamp_token";
  resource_id = "t1";
  detail = "";
  attempt_count = 0;
  next_attempt_at = at;
  lease = none;
  delivered_at = none;
}

abbrev table : AuditOutbox
table = ("b", row "b" (2 * second)) ∷ ("a", row "a" second) ∷ []

abbrev nobody : String → Bool
nobody id = false

-- What the others do meanwhile: a new event, a claim, and a late answer for the other row.
abbrev others : List Statement
others =
    inserts answered (event "c" (11 * second))
    ∷ claims nobody answered "y" (utc (11 * second)) (utc (41 * second))
    ∷ marks answered "b" "z" (utc (12 * second))
    ∷ []

b-ne-a : ◌≢◌ {A = String} "b" "a"
b-ne-a = λ h. ground (arith, eq_iff "b" "a")

abbrev delivered : Row
delivered = record (row "a" second) { delivered_at = some (3 * second) }

abbrev delivered_table : AuditOutbox
delivered_table = ("a", delivered) ∷ []

only-IsMap : (r : Row) → IsMap {K = String} (("a", r) ∷ [])
unfolding get
only-IsMap r = (refl, tt)

found : (r : Row) → get {K = String} (("a", r) ∷ []) "a" ≡ some r
unfolding get
found r = refl

delivered_final_example :
    get
      (run any_order own_text
        (reschedules answered "a" "x" (utc (4 * second)) (utc minute) ∷ others)
        delivered_table)
      "a"
    ≡ some delivered
delivered_final_example =
    delivered_final any_order own_text "a" delivered (3 * second)
      (reschedules answered "a" "x" (utc (4 * second)) (utc minute) ∷ others) delivered_table
      (only-IsMap delivered) (found delivered) refl

abbrev leased_row : Row
leased_row = lease_row "x" (40 * second) (row "a" second)

leased_row-lease : leased_row.lease ≡ some (record { claim_token = "x"; lease_until = 40 * second })
unfolding lease_row
leased_row-lease = refl

lease_exclusive_example :
    get (run any_order own_text others (("a", leased_row) ∷ [])) "a" ≡ some leased_row
lease_exclusive_example =
    lease_exclusive any_order own_text "a" leased_row
      (record { claim_token = "x"; lease_until = 40 * second }) others (("a", leased_row) ∷ [])
      (only-IsMap leased_row) (found leased_row) leased_row-lease
      (tt, (omega arith, (inl b-ne-a, tt)))

backoff-doubled_example : audit_outbox_backoff (suc 6) ≡ min (doubled 6 second) minute
backoff-doubled_example = backoff-doubled 6

abbrev pending : PendingAuditEvent
pending = scan "a" "x" (40 * second) (row "a" second)

sends :
    (start_delivery any_order own_text
      (smooth_turn any_order own_text "x" (10 * second) (11 * second) (12 * second) nobody others)
      pending
      table).1.sent
    ≡ some (pending.event, 21 * second)
unfolding start_delivery deliver scan
sends = refl

sink_deadline_example :
    (pending.event ≡ pending.event)
    × (21 * second ≡ 11 * second + audit_outbox_sink_timeout)
    × (21 * second < pending.lease_until)
sink_deadline_example =
    sink_deadline any_order own_text
      (smooth_turn any_order own_text "x" (10 * second) (11 * second) (12 * second) nobody others)
      pending table pending.event (21 * second) sends
