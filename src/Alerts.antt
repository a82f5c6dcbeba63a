-- ===== src/Alerts.antt =====
-- internal/alerts/engine.go over the table of internal/store/alerts.go: three rules per workload,
-- each with one alert that is open while its condition holds. An alert's text is kept as the values
-- it is printed from. What a pass reads and meets, workload by workload, is a `Visit`: the latest
-- pending configuration, the fresh identifiers, and which calls of the store fail.
pub mod OneOpen
pub mod Settle
pub mod Passes
pub mod Follows
pub mod Pages
pub mod Limits
pub mod Paging
mod Examples
use otel_magnify.Prelude.{
  ℕ, zero, suc, Bool, true, false, not, ◌&&◌, ◌||◌, Option, none, some, List, [], ◌∷◌, String, ◌==◌,
  string_eq, ltb, if◌then◌else◌,
}
use otel_magnify.Prelude.Dict.{Dict, get, put}
use otel_magnify.Prelude.Clock.{Time, Duration, sub_time}
use otel_magnify.Version.Strings.{Text}
use otel_magnify.Version.Identifiers.{Cmp, less, same, more}
use otel_magnify.Version.{compare}

pub data Message : Type 0 where
  not_seen_for : String → Duration → Message
  has_not_applied : String → Text → Duration → Message
  is_below_minimum : String → Text → Text → Message

pub record Alert : Type 0 where
  pub id : String
  pub workload_id : String
  pub rule : String
  pub severity : String
  pub message : Message
  pub fired_at : Time

-- A row of the table, at its primary key.
pub record AlertRow : Type 0 where
  pub workload_id : String
  pub rule : String
  pub severity : String
  pub message : Message
  pub fired_at : Time
  pub resolved_at : Option Time

abbrev pub AlertTable : Type 0
AlertTable = Dict String AlertRow

unfoldable pub inserted : Alert → AlertRow
inserted a = record {
  workload_id = a.workload_id;
  rule = a.rule;
  severity = a.severity;
  message = a.message;
  fired_at = a.fired_at;
  resolved_at = none;
}

-- `none` is an error: the primary key is taken.
unfoldable pub create_alert : Alert → AlertTable → Option AlertTable
unfolding inserted
create_alert a t = elim (get t a.id) [ some r ↦ none | none ↦ some (put t a.id (inserted a)) ]

unfoldable pub stamped : Time → AlertRow → AlertRow
stamped now r = record r { resolved_at = some now }

-- `none` is `sql.ErrNoRows`.
unfoldable pub resolve_alert : String → Time → AlertTable → Option AlertTable
unfolding stamped
resolve_alert id now t = elim (get t id) [ none ↦ none | some r ↦ some (put t id (stamped now r)) ]

unfoldable pub is_unresolved : AlertRow → Bool
is_unresolved r = elim r.resolved_at [ none ↦ true | some at ↦ false ]

unfoldable pub is_open_for : String → String → AlertRow → Bool
unfolding is_unresolved
is_open_for w rule r = r.workload_id == w && r.rule == rule && is_unresolved r

-- GetUnresolvedAlertByWorkloadAndRule: the key of an open alert of the workload and the rule.
unfoldable pub unresolved_alert : String → String → AlertTable → Option String
unfolding is_open_for
unresolved_alert w rule [] = none
unresolved_alert w rule ((id, r) ∷ t) =
    let rest = unresolved_alert w rule t in if is_open_for w rule r then some id else rest

-- The fields of the workload and of its pending configuration that the rules read.
pub record Workload : Type 0 where
  pub id : String
  pub version : Text
  pub last_seen_at : Time

-- `config_id` is the list of the bytes of the identifier, which Go slices.
pub record PendingConfig : Type 0 where
  pub config_id : Text
  pub applied_at : Time

-- The store's failures in one rule's evaluation, and its own clock at the call of ResolveAlert.
pub record Failures : Type 0 where
  pub lookup_fails : Bool
  pub create_fails : Bool
  pub resolve_fails : Bool
  pub resolves_at : Time

pub record Visit : Type 0 where
  pub workload : Workload
  pub pending : Option PendingConfig
  pub pending_fails : Bool
  pub down : Failures × String
  pub drift : Failures × String
  pub outdated : Failures × String

pub record Engine : Type 0 where
  pub down_timeout : Duration
  pub min_version : Text

-- The table, and the alerts that were sent to the hub and the notifiers, the latest first.
pub record State : Type 0 where
  pub alerts : AlertTable
  pub sent : List Alert

unfoldable pub created : Alert → State → Option AlertTable → State
created a s none = s
created a s (some t) = record { alerts = t; sent = a ∷ s.sent }

unfoldable pub resolved : State → Option AlertTable → State
resolved s none = s
resolved s (some t) = record s { alerts = t }

-- `if isDown && existing == nil {...}` and `if !isDown && existing != nil {...}`
unfoldable pub settle : Failures → Alert → Bool → Option String → State → State
unfolding created resolved create_alert resolve_alert
settle f a true none s = if f.create_fails then s else created a s (create_alert a s.alerts)
settle f a true (some id) s = s
settle f a false none s = s
settle f a false (some id) s =
    if f.resolve_fails then s else resolved s (resolve_alert id f.resolves_at s.alerts)

abbrev down_rule : String
down_rule = "workload_down"

abbrev drift_rule : String
drift_rule = "config_drift"

abbrev outdated_rule : String
outdated_rule = "version_outdated"

-- `now.Sub(then) > e.downTimeout`
unfoldable pub is_overdue : Engine → Time → Time → Bool
is_overdue e now since = ltb e.down_timeout (sub_time now since)

unfoldable pub down_alert : Engine → Time → Workload → String → Alert
down_alert e now w id = record {
  id = id;
  workload_id = w.id;
  rule = "workload_down";
  severity = "critical";
  message = not_seen_for w.id e.down_timeout;
  fired_at = now;
}

unfoldable pub evaluate_workload_down : Engine → Time → Workload → Failures × String → State → State
unfolding settle is_overdue down_alert unresolved_alert
evaluate_workload_down e now w (f, id) s =
    if f.lookup_fails
    then s
    else settle f (down_alert e now w id) (is_overdue e now w.last_seen_at)
        (unresolved_alert w.id "workload_down" s.alerts) s

-- `pending.ConfigID[:12]`, on the bytes of the identifier; it panics on a shorter one.
unfoldable pub prefix : ℕ → Text → Option Text
prefix zero s = some []
prefix (suc n) [] = none
prefix (suc n) (c ∷ s) = elim (prefix n s) [ none ↦ none | some p ↦ some (c ∷ p) ]

unfoldable pub drift_alert : Engine → Time → Workload → Text → String → Alert
drift_alert e now w short id = record {
  id = id;
  workload_id = w.id;
  rule = "config_drift";
  severity = "warning";
  message = has_not_applied w.id short e.down_timeout;
  fired_at = now;
}

-- The drift of a workload that has a pending configuration; `none` is a panic.
unfoldable pub settle_drift :
    Engine
    → Time
    → Workload
    → Failures × String
    → PendingConfig
    → Bool
    → Option String
    → State
    → Option State
unfolding settle drift_alert prefix
settle_drift e now w (f, id) p true none s = elim (prefix 12 p.config_id) [
  | none ↦ none
  | some short ↦ some (settle f (drift_alert e now w short id) true none s)
]
settle_drift e now w (f, id) p true (some known) s = some s
settle_drift e now w (f, id) p false existing s =
    some (settle f (drift_alert e now w [] id) false existing s)

-- The lookup's error is dropped: it counts as no open alert.
unfoldable pub existing_alert : Failures → String → String → State → Option String
unfolding unresolved_alert
existing_alert f w rule s = if f.lookup_fails then none else unresolved_alert w rule s.alerts

unfoldable pub drift_of :
    Engine → Time → Workload → Failures × String → Option PendingConfig → State → Option State
unfolding settle_drift settle existing_alert is_overdue
drift_of e now w (f, id) none s =
    some (settle f (drift_alert e now w [] id) false (existing_alert f w.id "config_drift" s) s)
drift_of e now w (f, id) (some p) s =
    settle_drift e now w (f, id) p (is_overdue e now p.applied_at)
      (existing_alert f w.id "config_drift" s) s

unfoldable pub evaluate_config_drift : Engine → Time → Visit → State → Option State
unfolding drift_of
evaluate_config_drift e now v s =
    if v.pending_fails then some s else drift_of e now v.workload v.drift v.pending s

unfoldable pub outdated_alert : Engine → Time → Workload → String → Alert
outdated_alert e now w id = record {
  id = id;
  workload_id = w.id;
  rule = "version_outdated";
  severity = "warning";
  message = is_below_minimum w.id w.version e.min_version;
  fired_at = now;
}

-- `cmp < 0`
unfoldable pub is_less : Cmp → Bool
is_less less = true
is_less same = false
is_less more = false

unfoldable pub is_empty : Text → Bool
is_empty [] = true
is_empty (c ∷ s) = false

unfoldable pub settle_version :
    Engine → Time → Workload → Failures × String → Option Cmp → State → State
unfolding settle existing_alert outdated_alert is_less
settle_version e now w (f, id) none s = s
settle_version e now w (f, id) (some c) s =
    settle f (outdated_alert e now w id) (is_less c) (existing_alert f w.id "version_outdated" s) s

unfoldable pub evaluate_version_outdated :
    Engine → Time → Workload → Failures × String → State → State
unfolding settle_version is_empty
evaluate_version_outdated e now w f s =
    if is_empty e.min_version || is_empty w.version
    then s
    else settle_version e now w f (compare w.version e.min_version) s

-- What follows, where nothing panicked.
unfoldable pub then_do : Option State → (State → Option State) → Option State
then_do none k = none
then_do (some s) k = k s

unfoldable pub evaluate_workload : Engine → Time → Visit → State → Option State
unfolding evaluate_workload_down evaluate_config_drift evaluate_version_outdated then_do
evaluate_workload e now v s =
    then_do (evaluate_config_drift e now v (evaluate_workload_down e now v.workload v.down s))
      (λ d. some (evaluate_version_outdated e now v.workload v.outdated d))

-- The loop of Evaluate over the workloads that are not archived.
unfoldable pub evaluate : Engine → Time → List Visit → State → Option State
unfolding evaluate_workload then_do
evaluate e now [] s = some s
evaluate e now (v ∷ vs) s = then_do (evaluate_workload e now v s) (λ d. evaluate e now vs d)
