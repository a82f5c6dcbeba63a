-- ===== src/Outbox/Dispatcher.antt =====
-- internal/audit/outbox_dispatcher.go: one turn of the dispatcher over the table. The clock
-- readings, the fresh token, the failures of the database and of the sink, and what the other
-- transactions do to the table between the claim and its settlement are a `Turn`.
use otel_magnify.Prelude.{
  ℕ, zero, suc, ◌+◌, ◌-◌, ◌*◌, ◌/◌, Bool, true, false, Option, none, some, String, leb,
  if◌then◌else◌,
}
use otel_magnify.Prelude.Clock.{Time, Duration, second, minute, before, after}
use otel_magnify.Outbox.{
  AuditEvent, PendingAuditEvent, AuditOutbox, Fault, Result, ok, failed, Stamp,
  claim_audit_outbox_event, mark_audit_outbox_event_delivered, reschedule_audit_outbox_event,
}

abbrev pub audit_outbox_lease_duration : Duration
audit_outbox_lease_duration = 30 * second

abbrev pub audit_outbox_sink_timeout : Duration
audit_outbox_sink_timeout = 10 * second

abbrev pub audit_outbox_max_backoff : Duration
audit_outbox_max_backoff = minute

-- The loop of auditOutboxBackoff, by the iterations that are left.
unfoldable pub backoff_loop : ℕ → Duration → Duration
backoff_loop zero delay = delay
backoff_loop (suc left) delay =
    let rest = backoff_loop left (2 * delay) in
    if leb (audit_outbox_max_backoff / 2) delay then audit_outbox_max_backoff else rest

unfoldable pub audit_outbox_backoff : ℕ → Duration
unfolding backoff_loop
audit_outbox_backoff attempt_count =
    if leb attempt_count 1 then second else backoff_loop (attempt_count - 1) second

pub record Turn : Type 0 where
  pub claim_token : String
  pub claim_started_at : Time
  pub delivery_started_at : Time
  pub completed_at : Time
  pub locked : String → Bool
  pub claim_fault : Fault
  pub settle_fault : Fault
  pub sink_fails : Bool
  pub meanwhile : AuditOutbox → AuditOutbox

-- What a turn returns, and the call of the sink with its deadline, where it makes one.
pub record Dispatched : Type 0 where
  pub progressed : Bool
  pub sent : Option (AuditEvent × Time)

abbrev pub utc : Time → Stamp
utc t = record { at = t; is_utc = true }

-- The switches on the answer of the store: only a settled row lets the loop go on at once.
unfoldable pub went_on : Result Bool → Bool
went_on (failed e) = false
went_on (ok updated) = updated

abbrev idle : Dispatched
idle = record { progressed = false; sent = none }

abbrev earliest : Time → Time → Time
earliest deadline lease_until = if before lease_until deadline then lease_until else deadline

module _ (id_before : String → String → Bool) (uuid_text : String → Option String) where
  unfoldable pub put_back : Turn → PendingAuditEvent → Time → AuditOutbox → AuditOutbox × Bool
  unfolding went_on audit_outbox_backoff
  put_back n pending at t =
      let (u, answer) =
        reschedule_audit_outbox_event id_before uuid_text n.settle_fault pending.event.event_id
          pending.claim_token (utc at) (utc (at + audit_outbox_backoff pending.attempt_count)) t in
      (u, went_on answer)

  -- The answers with the call of the sink.
  abbrev pub answered_with :
      Option (AuditEvent × Time) → AuditOutbox × Bool → AuditOutbox × Dispatched
  answered_with sent (t, progressed) = (t, record { progressed = progressed; sent = sent })

  unfoldable pub acknowledge : Turn → PendingAuditEvent → AuditOutbox → AuditOutbox × Bool
  unfolding went_on
  acknowledge n pending t =
      let (u, answer) =
        mark_audit_outbox_event_delivered id_before uuid_text n.settle_fault pending.event.event_id
          pending.claim_token (utc n.completed_at) t in
      (u, went_on answer)

  -- The call of the sink and the settlement of the claim.
  unfoldable pub deliver : Turn → PendingAuditEvent → AuditOutbox → AuditOutbox × Dispatched
  unfolding put_back acknowledge
  deliver n pending t =
      answered_with
        (some (
          pending.event,
          earliest (n.delivery_started_at + audit_outbox_sink_timeout) pending.lease_until,
        ))
        (if n.sink_fails then put_back n pending n.completed_at t else acknowledge n pending t)

  -- The test of the time that is left of the lease.
  unfoldable pub start_delivery : Turn → PendingAuditEvent → AuditOutbox → AuditOutbox × Dispatched
  unfolding put_back deliver
  start_delivery n pending t =
      if after pending.lease_until (n.delivery_started_at + audit_outbox_sink_timeout)
      then deliver n pending t
      else if after pending.lease_until n.delivery_started_at
      then answered_with none (put_back n pending n.delivery_started_at t)
      else (t, idle)

  unfoldable pub after_claim :
      Turn → Result (Option PendingAuditEvent) → AuditOutbox → AuditOutbox × Dispatched
  unfolding start_delivery
  after_claim n (failed e) t = (t, idle)
  after_claim n (ok none) t = (t, idle)
  after_claim n (ok (some pending)) t = start_delivery n pending (n.meanwhile t)

  unfoldable pub dispatch_once : Turn → AuditOutbox → AuditOutbox × Dispatched
  unfolding after_claim
  dispatch_once n t =
      let (u, answer) =
        claim_audit_outbox_event id_before uuid_text n.locked n.claim_fault n.claim_token
          (utc n.claim_started_at) (utc (n.claim_started_at + audit_outbox_lease_duration)) t in
      after_claim n answer u
