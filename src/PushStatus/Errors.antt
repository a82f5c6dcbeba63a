-- ===== src/PushStatus/Errors.antt =====
-- The redaction of error texts in pkg/models/push_status.go: an arbitrary text of an agent becomes
-- one of a few fixed texts.
use otel_magnify.Prelude.{
  ℕ, zero, suc, Bool, true, false, ◌&&◌, ◌||◌, ◌==◌, nat_eq, ltb, List, [], ◌∷◌, length, map, any,
  if◌then◌else◌,
}
use otel_magnify.Version.Strings.{Text, codes, trim_space, text_eq}

abbrev pub redacted_message : Text
redacted_message = codes "Remote config error details redacted"

abbrev pub opamp_status_timeout_message : Text
opamp_status_timeout_message = codes "No OpAMP status after 30s"

unfoldable pub has_prefix : Text → Text → Bool
has_prefix s [] = true
has_prefix [] (d ∷ t) = false
has_prefix (c ∷ s) (d ∷ t) = c == d && has_prefix s t

-- `strings.Contains(s, t)`
unfoldable pub contains : Text → Text → Bool
unfolding has_prefix
contains [] t = has_prefix [] t
contains (c ∷ s) t = has_prefix (c ∷ s) t || contains s t

unfoldable pub remote_config_error_title : Text → Text
unfolding text_eq
remote_config_error_title cause =
    if text_eq cause (codes "collector_validation")
    then codes "Collector rejected the config"
    else if text_eq cause (codes "opamp_send_failed")
    then codes "OpAMP send failed"
    else if text_eq cause (codes "apply_timeout")
    then codes "Config apply timed out"
    else if text_eq cause (codes "capability_mismatch")
    then codes "Remote config capability mismatch"
    else if text_eq cause (codes "permission_or_policy")
    then codes "Agent policy rejected the config"
    else if text_eq cause (codes "rollback_unavailable")
    then codes "Rollback unavailable"
    else codes "Remote config error"

unfoldable pub remote_config_error_severity : Text → Text
unfolding text_eq
remote_config_error_severity cause =
    if text_eq cause (codes "rollback_unavailable") || text_eq cause (codes "unknown")
    then codes "medium"
    else codes "high"

-- The causes, by the cases of the switch in order.
unfoldable pub first_cause : Bool → Bool → Bool → Bool → Bool → Bool → Text
first_cause component send timeout capability policy rollback =
    if component
    then codes "collector_validation"
    else if send
    then codes "opamp_send_failed"
    else if timeout
    then codes "apply_timeout"
    else if capability
    then codes "capability_mismatch"
    else if policy
    then codes "permission_or_policy"
    else if rollback
    then codes "rollback_unavailable"
    else codes "unknown"

-- The switch on the message in lower case.
unfoldable pub cause_of : Text → Text
unfolding contains first_cause
cause_of m =
    first_cause
      (contains m (codes "unknown receiver")
        || contains m (codes "unknown exporter")
        || contains m (codes "unknown processor")
        || contains m (codes "invalid pipeline")
        || contains m (codes "invalid component"))
      (contains m (codes "not connected")
        || contains m (codes "connection lost")
        || contains m (codes "send"))
      (contains m (codes "timeout") || contains m (codes "timed out"))
      (contains m (codes "capability"))
      (contains m (codes "permission") || contains m (codes "policy") || contains m (codes "refus"))
      (contains m (codes "rollback") && contains m (codes "unavailable"))

unfoldable pub normalize_remote_config_error_cause : (ℕ → ℕ) → Text → Text → Text
unfolding cause_of trim_space text_eq
normalize_remote_config_error_cause lower cause msg =
    let c = trim_space (map lower cause) in if text_eq c [] then cause_of (map lower msg) else c

abbrev pub causes : List Text
causes =
    codes "collector_validation"
    ∷ codes "opamp_send_failed"
    ∷ codes "apply_timeout"
    ∷ codes "capability_mismatch"
    ∷ codes "permission_or_policy"
    ∷ codes "rollback_unavailable"
    ∷ codes "unknown"
    ∷ []

unfoldable pub take_runes : ℕ → Text → Text
take_runes zero s = []
take_runes (suc n) [] = []
take_runes (suc n) (c ∷ s) = c ∷ take_runes n s

-- The summary of a cause, cut to 96 runes.
unfoldable pub summarize : Text → Text
unfolding remote_config_error_title take_runes text_eq
summarize cause =
    let summary =
      if text_eq cause (codes "unknown")
      then redacted_message
      else remote_config_error_title cause in
    if ltb 96 (length summary) then take_runes 96 summary else summary

-- The texts that the redaction lets through.
unfoldable pub is_safe : Text → Bool
unfolding text_eq remote_config_error_title
is_safe msg =
    text_eq msg []
    || (text_eq msg redacted_message
        || (text_eq msg opamp_status_timeout_message
            || any (λ cause. text_eq msg (remote_config_error_title cause)) causes))

unfoldable pub sanitize_remote_config_error_message : (ℕ → ℕ) → Text → Text
unfolding is_safe trim_space summarize normalize_remote_config_error_cause
sanitize_remote_config_error_message lower msg =
    let m = trim_space msg in
    if is_safe m then m else summarize (normalize_remote_config_error_cause lower [] m)
