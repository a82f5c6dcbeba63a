-- ===== src/Alerts/Passes.antt =====
-- A whole pass of internal/alerts/engine.go, and the number of open alerts.
use otel_magnify.Prelude.{
  ◌≤◌, ◌≡◌, inl, inr, refl, true, false, Bool, ◌||◌, Option, none, some, List, [], ◌∷◌, arith,
  String, All, Option-cases, Bool-cases, string_eq,
}
use otel_magnify.Prelude.Dict.{IsMap}
use otel_magnify.Prelude.Clock.{Time}
use otel_magnify.Version.Identifiers.{Cmp}
use otel_magnify.Version.{compare}
use otel_magnify.Alerts.{
  Alert, Failures, State, Engine, Visit, Workload, PendingConfig, settle, unresolved_alert,
  existing_alert, down_alert, drift_alert, outdated_alert, is_overdue, is_less, is_empty, prefix,
  evaluate_workload_down, settle_drift, drift_of, evaluate_config_drift, settle_version,
  evaluate_version_outdated, evaluate_workload, evaluate, then_do,
}
use otel_magnify.Alerts.OneOpen.{open_alerts}
use otel_magnify.Alerts.Settle.{settle-IsMap, settle-one_open}

-- At most one alert is open for a workload and a rule.
pub record OneOpen (s : State) : Type 0 where
  pub keyed : IsMap s.alerts
  pub one_open : (w rule : String) → open_alerts w rule s ≤ 1

-- The lookups of the open alerts whose errors the engine drops answer.
abbrev pub LooksUp : Visit → Type 0
LooksUp v = (v.drift.0.lookup_fails ≡ false) × (v.outdated.0.lookup_fails ≡ false)

settle-OneOpen :
    (f : Failures) (a : Alert) (active : Bool) (existing : Option String) (s : State)
    → OneOpen s
    → unresolved_alert a.workload_id a.rule s.alerts ≡ existing
    → OneOpen (settle f a active existing s)
settle-OneOpen f a active existing s h e = record {
  keyed = settle-IsMap f a active existing s h.keyed;
  one_open = λ w rule. settle-one_open f a active existing s w rule h.keyed e (h.one_open w rule);
}

looked_up :
    (f : Failures) (w rule : String) (s : State)
    → f.lookup_fails ≡ false
    → unresolved_alert w rule s.alerts ≡ existing_alert f w rule s
unfolding existing_alert
looked_up f w rule s h = ground (arith, h)

down-OneOpen :
    (e : Engine) (now : Time) (w : Workload) (f : Failures) (id : String) (s : State)
    → OneOpen s
    → OneOpen (evaluate_workload_down e now w (f, id) s)
unfolding evaluate_workload_down down_alert
down-OneOpen e now w f id s h = elim (Bool-cases f.lookup_fails) [
  | inl b ↦ rw (b, evaluate_workload_down) h
  | inr b ↦
      rw (b, evaluate_workload_down)
        (settle-OneOpen f (down_alert e now w id) (is_overdue e now w.last_seen_at)
          (unresolved_alert w.id "workload_down" s.alerts) s h refl)
]

-- The state that a pass ends in, if it does not panic.
abbrev EndsOneOpen : Option State → Type 0
EndsOneOpen none = Unit
EndsOneOpen (some d) = OneOpen d

settle_drift-OneOpen :
    (e : Engine) (now : Time) (w : Workload) (f : Failures) (id : String) (p : PendingConfig)
    (drifted : Bool) (existing : Option String) (s : State)
    → OneOpen s
    → unresolved_alert w.id "config_drift" s.alerts ≡ existing
    → EndsOneOpen (settle_drift e now w (f, id) p drifted existing s)
unfolding settle_drift drift_alert
settle_drift-OneOpen e now w f id p true none s h u = elim (Option-cases (prefix 12 p.config_id)) [
  | inl b ↦ rw (b, settle_drift) tt
  | inr (short, b) ↦
      rw (b, settle_drift) (settle-OneOpen f (drift_alert e now w short id) true none s h u)
]
settle_drift-OneOpen e now w f id p true (some known) s h u = h
settle_drift-OneOpen e now w f id p false existing s h u =
    settle-OneOpen f (drift_alert e now w [] id) false existing s h u

drift_of-OneOpen :
    (e : Engine) (now : Time) (w : Workload) (f : Failures) (id : String) (p : Option PendingConfig)
    (s : State)
    → OneOpen s
    → f.lookup_fails ≡ false
    → EndsOneOpen (drift_of e now w (f, id) p s)
unfolding drift_of drift_alert
drift_of-OneOpen e now w f id none s h u =
    settle-OneOpen f (drift_alert e now w [] id) false (existing_alert f w.id "config_drift" s) s h
      (looked_up f w.id "config_drift" s u)
drift_of-OneOpen e now w f id (some p) s h u =
    settle_drift-OneOpen e now w f id p (is_overdue e now p.applied_at)
      (existing_alert f w.id "config_drift" s) s h (looked_up f w.id "config_drift" s u)

version-OneOpen :
    (e : Engine) (now : Time) (w : Workload) (f : Failures) (id : String) (c : Option Cmp)
    (s : State)
    → OneOpen s
    → f.lookup_fails ≡ false
    → OneOpen (settle_version e now w (f, id) c s)
unfolding settle_version outdated_alert
version-OneOpen e now w f id none s h u = h
version-OneOpen e now w f id (some c) s h u =
    settle-OneOpen f (outdated_alert e now w id) (is_less c)
      (existing_alert f w.id "version_outdated" s) s h (looked_up f w.id "version_outdated" s u)

outdated-OneOpen :
    (e : Engine) (now : Time) (w : Workload) (f : Failures) (id : String) (s : State)
    → OneOpen s
    → f.lookup_fails ≡ false
    → OneOpen (evaluate_version_outdated e now w (f, id) s)
unfolding evaluate_version_outdated
outdated-OneOpen e now w f id s h u =
    elim (Bool-cases (is_empty e.min_version || is_empty w.version)) [
      | inl b ↦ rw (b, evaluate_version_outdated) h
      | inr b ↦
          rw (b, evaluate_version_outdated)
            (version-OneOpen e now w f id (compare w.version e.min_version) s h u)
    ]

drift-OneOpen :
    (e : Engine) (now : Time) (v : Visit) (s : State)
    → OneOpen s
    → v.drift.0.lookup_fails ≡ false
    → EndsOneOpen (evaluate_config_drift e now v s)
unfolding evaluate_config_drift
drift-OneOpen e now v s h u = elim (Bool-cases v.pending_fails) [
  | inl b ↦ rw (b, evaluate_config_drift) h
  | inr b ↦
      rw (b, evaluate_config_drift)
        (drift_of-OneOpen e now v.workload v.drift.0 v.drift.1 v.pending s h u)
]

then_do-OneOpen :
    (o : Option State) (k : State → Option State)
    → EndsOneOpen o
    → ((d : State) → OneOpen d → EndsOneOpen (k d))
    → EndsOneOpen (then_do o k)
unfolding then_do
then_do-OneOpen none k h u = tt
then_do-OneOpen (some d) k h u = u d h

workload-OneOpen :
    (e : Engine) (now : Time) (v : Visit) (s : State)
    → OneOpen s
    → LooksUp v
    → EndsOneOpen (evaluate_workload e now v s)
unfolding evaluate_workload
workload-OneOpen e now v s h (b, c) =
    then_do-OneOpen
      (evaluate_config_drift e now v (evaluate_workload_down e now v.workload v.down s))
      (λ d. some (evaluate_version_outdated e now v.workload v.outdated d))
      (drift-OneOpen e now v (evaluate_workload_down e now v.workload v.down s)
        (down-OneOpen e now v.workload v.down.0 v.down.1 s h) b)
      (λ d q. outdated-OneOpen e now v.workload v.outdated.0 v.outdated.1 d q c)

pass-OneOpen :
    (e : Engine) (now : Time) (vs : List Visit) (s : State)
    → OneOpen s
    → All LooksUp vs
    → EndsOneOpen (evaluate e now vs s)
unfolding evaluate
pass-OneOpen e now [] s h u = h
pass-OneOpen e now (v ∷ vs) s h u =
    then_do-OneOpen (evaluate_workload e now v s) (λ d. evaluate e now vs d)
      (workload-OneOpen e now v s h u.0) (λ d q. pass-OneOpen e now vs d q u.1)

-- A pass over any workloads, whichever calls of the store fail except for the two lookups whose
-- errors the engine drops, keeps at most one alert open for each workload and rule.
pub evaluate-OneOpen :
    (e : Engine) (now : Time) (vs : List Visit) (s d : State)
    → OneOpen s
    → All LooksUp vs
    → evaluate e now vs s ≡ some d
    → OneOpen d
evaluate-OneOpen e now vs s d h u k = rw k at (pass-OneOpen e now vs s h u)
