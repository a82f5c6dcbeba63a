-- ===== src/Outbox/Turns.antt =====
-- A turn of the dispatcher whose lease holds to its end delivers, and the deadline of the sink.
use otel_magnify.Prelude.{◌+◌, false, Bool, Option, List, string_eq, String}
use otel_magnify.Prelude.Clock.{Time, to_micros}
use otel_magnify.Outbox.{answered}
use otel_magnify.Outbox.Dispatcher.{Turn, audit_outbox_lease_duration}
use otel_magnify.Outbox.Claims.{Statement, run}

-- The end of the lease of a turn, as it comes back from the database.
abbrev pub lease_end : Time → Time
lease_end claimed = to_micros (claimed + audit_outbox_lease_duration)

module _ (id_before : String → String → Bool) (uuid_text : String → Option String) where
  -- A turn in which neither the database nor the sink fails, while other statements run.
  abbrev pub smooth_turn : String → Time → Time → Time → (String → Bool) → List Statement → Turn
  smooth_turn token claimed started completed locked ss = record {
    claim_token = token;
    claim_started_at = claimed;
    delivery_started_at = started;
    completed_at = completed;
    locked = locked;
    claim_fault = answered;
    settle_fault = answered;
    sink_fails = false;
    meanwhile = run id_before uuid_text ss;
  }
