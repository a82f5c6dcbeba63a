-- ===== src/PushStatus/Redaction.antt =====
-- The redaction has finitely many results, and changes none of them.
use otel_magnify.Prelude.{
  ℕ, ◌≡◌, ◌∙◌, sym, refl, Bool, true, false, Bool-cases, inl, inr, map, List, [], ◌∷◌, any, All,
  arith,
}
use otel_magnify.Version.Strings.{Text, codes, trim_space, text_eq, text_eq_sound}
use otel_magnify.PushStatus.Errors.{
  remote_config_error_title, cause_of, first_cause, summarize, normalize_remote_config_error_cause,
  is_safe, sanitize_remote_config_error_message, take_runes,
}

first_cause-safe : (a b c d e f : Bool) → is_safe (summarize (first_cause a b c d e f)) ≡ true
unfolding is_safe summarize remote_config_error_title take_runes text_eq first_cause
first_cause-safe true b c d e f = refl
first_cause-safe false true c d e f = refl
first_cause-safe false false true d e f = refl
first_cause-safe false false false true e f = refl
first_cause-safe false false false false true f = refl
first_cause-safe false false false false false true = refl
first_cause-safe false false false false false false = refl

cause_of-safe : (m : Text) → is_safe (summarize (cause_of m)) ≡ true
unfolding cause_of
cause_of-safe m = first_cause-safe _ _ _ _ _ _

sanitize-safe :
    (lower : ℕ → ℕ) (msg : Text) → is_safe (sanitize_remote_config_error_message lower msg) ≡ true
unfolding sanitize_remote_config_error_message normalize_remote_config_error_cause trim_space
    text_eq
sanitize-safe lower msg = elim (Bool-cases (is_safe (trim_space msg))) [
  | inl b ↦ rw (b, sanitize_remote_config_error_message) b
  | inr b ↦
      rw (b, sanitize_remote_config_error_message) (cause_of-safe (map lower (trim_space msg)))
]

-- The empty text, what stands for a text that is not recognised, the message of the timeout, and the
-- titles.
abbrev pub safe_texts : List Text
safe_texts =
    []
    ∷ codes "Remote config error details redacted"
    ∷ codes "No OpAMP status after 30s"
    ∷ codes "Collector rejected the config"
    ∷ codes "OpAMP send failed"
    ∷ codes "Config apply timed out"
    ∷ codes "Remote config capability mismatch"
    ∷ codes "Agent policy rejected the config"
    ∷ codes "Rollback unavailable"
    ∷ codes "Remote config error"
    ∷ []

is_safe-any : (t : Text) → is_safe t ≡ any (text_eq t) safe_texts
unfolding is_safe remote_config_error_title text_eq
is_safe-any t = refl

-- Whatever text comes in, the redaction gives one of ten texts: the empty text, one of seven titles,
-- the message of the timeout, or the text that stands for all others.
pub sanitized_is_safe :
    (lower : ℕ → ℕ) (msg : Text)
    → any (text_eq (sanitize_remote_config_error_message lower msg)) safe_texts ≡ true
sanitized_is_safe lower msg =
    sym (is_safe-any (sanitize_remote_config_error_message lower msg)) ∙ sanitize-safe lower msg

any-trims :
    (t : Text) (ls : List Text)
    → All (λ l. trim_space l ≡ l) ls
    → any (text_eq t) ls ≡ true
    → trim_space t ≡ t
any-trims t [] h k = cc
any-trims t (l ∷ ls) h k = elim (Bool-cases (text_eq t l)) [
  | inl b ↦ rw (text_eq_sound t l b) h.0
  | inr b ↦ any-trims t ls h.1 (ground arith)
]

safe_texts-trim : All (λ l. trim_space l ≡ l) safe_texts
unfolding trim_space
safe_texts-trim = (refl, (refl, (refl, (refl, (refl, (refl, (refl, (refl, (refl, (refl, tt))))))))))

safe-trims : (t : Text) → is_safe t ≡ true → trim_space t ≡ t
safe-trims t h = any-trims t safe_texts safe_texts-trim (rw (is_safe-any t) at h)

safe_fixed :
    (lower : ℕ → ℕ) (t : Text) → is_safe t ≡ true → sanitize_remote_config_error_message lower t ≡ t
unfolding sanitize_remote_config_error_message
safe_fixed lower t h = rw (safe-trims t h, sanitize_remote_config_error_message, h) refl

-- Redacting a text twice is redacting it once.
pub sanitize_idem :
    (lower : ℕ → ℕ) (msg : Text)
    → sanitize_remote_config_error_message lower (sanitize_remote_config_error_message lower msg)
      ≡ sanitize_remote_config_error_message lower msg
sanitize_idem lower msg =
    safe_fixed lower (sanitize_remote_config_error_message lower msg) (sanitize-safe lower msg)
