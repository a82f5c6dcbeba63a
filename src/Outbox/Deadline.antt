-- ===== src/Outbox/Deadline.antt =====
-- The deadline of the sink, which the dispatcher keeps inside the lease.
use otel_magnify.Prelude.{◌+◌, ◌<◌, ◌≡◌, some, Option, Bool, String, arith}
use otel_magnify.Prelude.Clock.{Time}
use otel_magnify.Outbox.{AuditOutbox, AuditEvent, PendingAuditEvent}
use otel_magnify.Outbox.Dispatcher.{Turn, start_delivery, deliver, audit_outbox_sink_timeout}

module _ (id_before : String → String → Bool) (uuid_text : String → Option String) where
  -- When a turn calls the sink, then with the claimed event and the deadline that is the time limit of the sink after
  -- the delivery started, and this deadline comes before the end of the lease that was claimed.
  pub sink_deadline :
      (n : Turn) (p : PendingAuditEvent) (t : AuditOutbox) (event : AuditEvent) (deadline : Time)
      → (start_delivery id_before uuid_text n p t).1.sent ≡ some (event, deadline)
      → (event ≡ p.event)
        × (deadline ≡ n.delivery_started_at + audit_outbox_sink_timeout)
        × (deadline < p.lease_until)
  unfolding start_delivery deliver
  sink_deadline n p t event deadline h = ground arith
