-- ===== src/PushStatus/Examples.antt =====
-- A push to three instances, one of which applied it, one failed and one never answered.
use otel_magnify.Prelude.{
  ℕ, ◌+◌, ◌*◌, ◌≤◌, ◌≡◌, true, false, ◌&&◌, leb, length, none, some, [], ◌∷◌, if◌then◌else◌, nat_eq,
  any,
}
use otel_magnify.Prelude.Clock.{second}
use otel_magnify.Version.Strings.{Text, codes, text_eq}
use otel_magnify.PushStatus.{InstanceStatus, WorkloadConfig, no_tally, hydrate_push_status}
use otel_magnify.PushStatus.Errors.{sanitize_remote_config_error_message}
use otel_magnify.PushStatus.Hydrated.{hydrate-counts}
use otel_magnify.PushStatus.Redaction.{safe_texts, sanitized_is_safe}

-- Lower case on the letters of ASCII.
abbrev ascii_lower : ℕ → ℕ
ascii_lower c = if leb 65 c && leb c 90 then c + 32 else c

abbrev instance_status : Text → Text → InstanceStatus
instance_status uid st = record {
  instance_uid = uid;
  required = true;
  status = st;
  timed_out = false;
}

abbrev push : WorkloadConfig
push = record {
  status = codes "pending";
  applied_at = 10 * second;
  submitted_at = 0;
  sent_at = some (11 * second);
  opamp_status_timeout_at = none;
  timed_out_waiting_for_opamp_status = false;
  instance_statuses =
      instance_status (codes "i1") (codes "Applied")
      ∷ instance_status (codes "i2") (codes "failed")
      ∷ instance_status (codes "i3") (codes "sent")
      ∷ [];
  target_count = 0;
  counts = no_tally 0;
}

abbrev shown : WorkloadConfig
shown = hydrate_push_status ascii_lower (60 * second) push

hydrate-counts_example :
    (shown.counts.applied_count + shown.counts.failed_count + shown.counts.pending_count
      ≡ length push.instance_statuses)
    × (shown.counts.timed_out_count ≤ shown.counts.no_status_count)
    × (shown.counts.no_status_count ≤ shown.counts.pending_count)
hydrate-counts_example = hydrate-counts ascii_lower (60 * second) push

abbrev message : Text
message = codes "exporter refused: Authorization: Bearer secret"

sanitized_is_safe_example :
    any (text_eq (sanitize_remote_config_error_message ascii_lower message)) safe_texts ≡ true
sanitized_is_safe_example = sanitized_is_safe ascii_lower message
