-- ===== src/PushStatus/Hydrated.antt =====
-- What HydratePushStatus makes of a push, whatever was stored in it.
use otel_magnify.Prelude.{ℕ, ◌+◌, ◌≤◌, ◌≡◌, Bool, length, length-map, arith, map, nat_eq}
use otel_magnify.Prelude.Clock.{Time}
use otel_magnify.Version.Strings.{Text, text_eq}
use otel_magnify.PushStatus.{
  InstanceStatus, canonical_instance_status, no_tally, WorkloadConfig, hydrate_push_status,
  hydrate_instance, submission_time, timeout_time, timeout_reached,
}
use otel_magnify.PushStatus.Counts.{tally-sum, hydrated-Marked, tally-Ordered}

-- The counts of a push whose status was computed: the applied, failed and pending instances are
-- all of its instances, and those that timed out are among those without a status, which are
-- among the pending ones.
pub hydrate-counts :
    (lower : ℕ → ℕ) (now : Time) (wc : WorkloadConfig)
    → ((hydrate_push_status lower now wc).counts.applied_count
          + (hydrate_push_status lower now wc).counts.failed_count
          + (hydrate_push_status lower now wc).counts.pending_count
        ≡ length wc.instance_statuses)
      × ((hydrate_push_status lower now wc).counts.timed_out_count
          ≤ (hydrate_push_status lower now wc).counts.no_status_count)
      × ((hydrate_push_status lower now wc).counts.no_status_count
          ≤ (hydrate_push_status lower now wc).counts.pending_count)
unfolding hydrate_push_status no_tally
hydrate-counts lower now wc =
    let late = timeout_reached now (timeout_time (submission_time wc) wc.opamp_status_timeout_at) in
    let is = map (hydrate_instance lower late) wc.instance_statuses in
    let none_yet = no_tally (length is) in
    let o =
      tally-Ordered is none_yet (hydrated-Marked lower late wc.instance_statuses)
        (record { marked_least = omega arith; pending_most = omega arith }) in
    (
      omega (
        arith,
        tally-sum is none_yet,
        length-map (hydrate_instance lower late) wc.instance_statuses,
      ),
      o.marked_least,
      o.pending_most,
    )

-- Whether the canonical form of what an instance reports is the status.
unfoldable pub reports : (ℕ → ℕ) → Text → InstanceStatus → Bool
unfolding text_eq canonical_instance_status
reports lower st i = text_eq (canonical_instance_status lower i.status) st
