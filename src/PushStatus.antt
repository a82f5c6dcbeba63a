-- ===== src/PushStatus.antt =====
-- pkg/models/push_status.go: the status of a configuration that was pushed to the instances of a
-- workload. Texts are lists of code points; `lower` is Go's `unicode.ToLower`.
pub mod Counts
pub mod Hydrated
pub mod Errors
pub mod Redaction
mod Examples
use otel_magnify.Prelude.{
  ℕ, zero, suc, ◌+◌, ◌*◌, Bool, true, false, not, ◌&&◌, ◌||◌, Option, none, some, List, [], ◌∷◌,
  String, ltb, length, map, if◌then◌else◌,
}
use otel_magnify.Prelude.Clock.{Time, second, before, is_zero}
use otel_magnify.Version.Strings.{Text, codes, trim_space, text_eq}

abbrev pub submitted_status : Text
submitted_status = codes "submitted"

abbrev pub sent_status : Text
sent_status = codes "sent"

abbrev pub applying_status : Text
applying_status = codes "applying"

abbrev pub applied_status : Text
applied_status = codes "applied"

abbrev pub failed_status : Text
failed_status = codes "failed"

abbrev pub rollback_applied_status : Text
rollback_applied_status = codes "rollback_applied"

abbrev pub rollback_failed_status : Text
rollback_failed_status = codes "rollback_failed"

abbrev pub no_status : Text
no_status = codes "no_status"

unfoldable pub is_terminal_push_status : Text → Bool
unfolding text_eq
is_terminal_push_status status =
    text_eq status applied_status
    || text_eq status failed_status
    || text_eq status rollback_applied_status
    || text_eq status rollback_failed_status

-- Both other branches of the switch return the status in lower case, with the space around it.
unfoldable pub canonical_push_status : (ℕ → ℕ) → Text → Text
unfolding text_eq trim_space
canonical_push_status lower status =
    let t = map lower (trim_space status) in
    if text_eq t [] || text_eq t (codes "pending") then submitted_status else map lower status

unfoldable pub canonical_instance_status : (ℕ → ℕ) → Text → Text
unfolding canonical_push_status text_eq
canonical_instance_status lower status =
    let c = canonical_push_status lower status in
    if text_eq c submitted_status || text_eq c sent_status
    then sent_status
    else if text_eq c applying_status || text_eq c applied_status || text_eq c failed_status
    then c
    else no_status

-- The fields of WorkloadConfigInstanceStatus that the counts read or write.
pub record InstanceStatus : Type 0 where
  pub instance_uid : Text
  pub required : Bool
  pub status : Text
  pub timed_out : Bool

-- `wc.OpAMPStatusTimeoutAt != nil && !now.Before(*wc.OpAMPStatusTimeoutAt)`
unfoldable pub timeout_reached : Time → Option Time → Bool
timeout_reached now none = false
timeout_reached now (some at) = not (before now at)

-- The status of an instance after the overlay of the timeout.
unfoldable pub overlay_timeout : Bool → InstanceStatus → Text → InstanceStatus
unfolding text_eq
overlay_timeout late i st =
    if late && i.required && (text_eq st sent_status || text_eq st no_status)
    then record i { status = no_status; timed_out = true }
    else record i { status = st; timed_out = false }

unfoldable pub hydrate_instance : (ℕ → ℕ) → Bool → InstanceStatus → InstanceStatus
unfolding overlay_timeout canonical_instance_status
hydrate_instance lower late i = overlay_timeout late i (canonical_instance_status lower i.status)

pub record Tally : Type 0 where
  pub applied_count : ℕ
  pub failed_count : ℕ
  pub pending_count : ℕ
  pub timed_out_count : ℕ
  pub no_status_count : ℕ
  pub has_remote_status : Bool
  pub has_applying_or_applied : Bool
  pub all_applied : Bool

-- The increment of TimedOutCount in the overlay.
unfoldable pub tally_timeout : InstanceStatus → Tally → Tally
tally_timeout i c = if i.timed_out then record c { timed_out_count = c.timed_out_count + 1 } else c

-- `switch st`
unfoldable pub tally_status : Text → Tally → Tally
unfolding text_eq
tally_status st c =
    if text_eq st applied_status
    then record c {
      applied_count = c.applied_count + 1;
      has_remote_status = true;
      has_applying_or_applied = true;
    }
    else if text_eq st applying_status
    then record c {
      pending_count = c.pending_count + 1;
      all_applied = false;
      has_remote_status = true;
      has_applying_or_applied = true;
    }
    else if text_eq st failed_status
    then record c {
      failed_count = c.failed_count + 1;
      all_applied = false;
      has_remote_status = true;
    }
    else record c {
      no_status_count = if text_eq st no_status then c.no_status_count + 1 else c.no_status_count;
      pending_count = c.pending_count + 1;
      all_applied = false;
    }

-- The loop over the instances, from the counts so far.
unfoldable pub tally : List InstanceStatus → Tally → Tally
unfolding tally_timeout tally_status
tally [] c = c
tally (i ∷ is) c = tally is (tally_status i.status (tally_timeout i c))

-- The counts before the loop, for a number of targets.
unfoldable pub no_tally : ℕ → Tally
no_tally targets = record {
  applied_count = 0;
  failed_count = 0;
  pending_count = 0;
  timed_out_count = 0;
  no_status_count = 0;
  has_remote_status = false;
  has_applying_or_applied = false;
  all_applied = ltb 0 targets;
}

-- The status of the push, decided from the counts.
unfoldable pub decide_status : ℕ → Tally → Option Time → Text → Text
decide_status targets c sent_at status =
    if not (ltb 0 targets)
    then status
    else if ltb 0 c.failed_count
    then failed_status
    else if c.all_applied
    then applied_status
    else if c.has_applying_or_applied
    then applying_status
    else elim sent_at [ none ↦ status | some at ↦ sent_status ]

unfoldable pub timed_out_waiting : Bool → Tally → Text → Bool
unfolding is_terminal_push_status
timed_out_waiting late c status =
    ltb 0 c.timed_out_count
    || (late && not c.has_remote_status && not (is_terminal_push_status status))

-- The fields of WorkloadConfig that HydratePushStatus decides the status with.
pub record WorkloadConfig : Type 0 where
  pub status : Text
  pub applied_at : Time
  pub submitted_at : Time
  pub sent_at : Option Time
  pub opamp_status_timeout_at : Option Time
  pub timed_out_waiting_for_opamp_status : Bool
  pub instance_statuses : List InstanceStatus
  pub target_count : ℕ
  pub counts : Tally

unfoldable pub submission_time : WorkloadConfig → Time
submission_time wc = if is_zero wc.submitted_at then wc.applied_at else wc.submitted_at

unfoldable pub timeout_time : Time → Option Time → Option Time
timeout_time submitted (some at) = some at
timeout_time submitted none = if is_zero submitted then none else some (submitted + 30 * second)

-- HydratePushStatus at the time `now`, which is not zero, as far as the status and the counts.
unfoldable pub hydrate_push_status : (ℕ → ℕ) → Time → WorkloadConfig → WorkloadConfig
unfolding submission_time timeout_time timeout_reached hydrate_instance canonical_push_status tally
    no_tally decide_status timed_out_waiting
hydrate_push_status lower now wc =
    let submitted = submission_time wc in
    let timeout = timeout_time submitted wc.opamp_status_timeout_at in
    let late = timeout_reached now timeout in
    let instances = map (hydrate_instance lower late) wc.instance_statuses in
    let targets = length instances in
    let counts = tally instances (no_tally targets) in
    let status = decide_status targets counts wc.sent_at (canonical_push_status lower wc.status) in
    record {
      status = status;
      applied_at = wc.applied_at;
      submitted_at = submitted;
      sent_at = wc.sent_at;
      opamp_status_timeout_at = timeout;
      timed_out_waiting_for_opamp_status = timed_out_waiting late counts status;
      instance_statuses = instances;
      target_count = targets;
      counts = counts;
    }
