-- ===== src/Alerts/Follows.antt =====
-- The open alerts of internal/alerts/engine.go after a rule ran, and the conditions of the rules.
use otel_magnify.Prelude.{
  ℕ, ◌≡◌, refl, false, sym, ◌||◌, none, some, if◌then◌else◌, String, string_eq,
}
use otel_magnify.Prelude.Dict.{get}
use otel_magnify.Prelude.Clock.{Time}
use otel_magnify.Version.Identifiers.{Cmp, less, same, more}
use otel_magnify.Version.{compare}
use otel_magnify.Alerts.{
  State, Engine, Workload, Failures, unresolved_alert, existing_alert, outdated_alert, is_less,
  is_empty, settle_version, evaluate_version_outdated,
}
use otel_magnify.Alerts.OneOpen.{open_alerts}
use otel_magnify.Alerts.Settle.{settle-own}
use otel_magnify.Alerts.Passes.{OneOpen}

-- The calls of the store answer.
abbrev pub Answers : Failures → Type 0
Answers f = (f.lookup_fails ≡ false) × (f.create_fails ≡ false) × (f.resolve_fails ≡ false)

-- The number of open alerts for what the version compares as.
abbrev pub open_at : Cmp → ℕ
open_at less = 1
open_at same = 0
open_at more = 0

less-open_at : (c : Cmp) → (if is_less c then 1 else 0) ≡ open_at c
unfolding is_less
less-open_at less = refl
less-open_at same = refl
less-open_at more = refl

-- Where at most one alert is open, the calls of the store answer, the new identifier is fresh, and
-- the versions of the workload and the engine are texts that compare, the workload has one open
-- alert of the rule version_outdated after the rule ran if its version compares as less than the
-- engine's minimum, and none if it compares as the same or as more.
pub outdated_follows :
    (e : Engine) (now : Time) (w : Workload) (f : Failures) (id : String) (c : Cmp) (s : State)
    → OneOpen s
    → Answers f
    → get s.alerts id ≡ none
    → is_empty e.min_version || is_empty w.version ≡ false
    → compare w.version e.min_version ≡ some c
    → open_alerts w.id "version_outdated" (evaluate_version_outdated e now w (f, id) s) ≡ open_at c
unfolding evaluate_version_outdated outdated_alert
outdated_follows e now w f id c s h a fresh filled k =
    rw (sym (less-open_at c)) simp
      (filled, evaluate_version_outdated, k, settle_version, existing_alert, a.0)
      (settle-own f (outdated_alert e now w id) (is_less c)
        (unresolved_alert w.id "version_outdated" s.alerts) s h.keyed fresh a.1 a.2 refl
        (h.one_open w.id "version_outdated"))
