-- ===== src/Alerts/Examples.antt =====
-- A workload that went silent with a configuration it did not apply, and runs an old version.
use otel_magnify.Prelude.{
  ℕ, Bool, true, ◌&&◌, ◌==◌, ◌++◌, nat_eq, eq_iff, ◌≡◌, ◌*◌, refl, false, ◌||◌, Option, none, some,
  List, [], ◌∷◌, String, string_eq, arith,
}
use otel_magnify.Prelude.Dict.{get, put}
use otel_magnify.Prelude.Clock.{Time, minute}
use otel_magnify.Version.Strings.{Text}
use otel_magnify.Version.Identifiers.{less}
use otel_magnify.Version.Examples.{beta, older, newer}
use otel_magnify.Alerts.{
  Engine, State, Workload, Visit, Failures, evaluate, evaluate_workload_down,
  evaluate_version_outdated, is_overdue, is_empty, then_do, evaluate_workload,
  evaluate_config_drift, drift_of, settle_drift, settle, created, resolved, create_alert,
  resolve_alert, existing_alert, unresolved_alert, is_open_for, is_unresolved, inserted, prefix,
  stamped,
}
use otel_magnify.Alerts.Pages.{finished, evaluate_pages}
use otel_magnify.Alerts.Paging.{pages_visit}
use otel_magnify.Alerts.OneOpen.{open_alerts}
use otel_magnify.Alerts.Passes.{OneOpen, evaluate-OneOpen}
use otel_magnify.Alerts.Follows.{outdated_follows}

abbrev silent : Workload
silent = record { id = "w1"; version = older; last_seen_at = 1 * minute }

abbrev hash : Text
hash = 97 ∷ 98 ∷ 99 ∷ 97 ∷ 98 ∷ 99 ∷ 97 ∷ 98 ∷ 99 ∷ 97 ∷ 98 ∷ 99 ∷ 97 ∷ []

abbrev works : Failures
works = record {
  lookup_fails = false;
  create_fails = false;
  resolve_fails = false;
  resolves_at = 11 * minute;
}

abbrev visit : Visit
visit = record {
  workload = silent;
  pending = some (record { config_id = hash; applied_at = 1 * minute });
  pending_fails = false;
  down = (works, "a1");
  drift = (works, "a2");
  outdated = (works, "a3");
}

abbrev quiet : Engine
quiet = record { down_timeout = 5 * minute; min_version = [] }

abbrev strict : Engine
strict = record { down_timeout = 5 * minute; min_version = newer }

abbrev fresh : State
fresh = record { alerts = []; sent = [] }

fresh-OneOpen : OneOpen fresh
fresh-OneOpen = record { keyed = tt; one_open = λ w rule. omega arith }

no_key : (id : String) → get {K = String} fresh.alerts id ≡ none
unfolding get
no_key id = refl

-- Opens the engine for a test.
runs : Engine → Time → List Visit → State → Option State
unfolding evaluate then_do evaluate_workload evaluate_workload_down evaluate_version_outdated
    evaluate_config_drift drift_of settle_drift settle created resolved create_alert resolve_alert
    existing_alert unresolved_alert is_open_for is_unresolved inserted prefix stamped is_overdue
    is_empty get put
runs = evaluate

-- The engine raises two alerts, and in the next pass none.
two_alerts : (d : State) × (evaluate quiet (10 * minute) (visit ∷ visit ∷ []) fresh ≡ some d)
unfolding runs
two_alerts = (_, refl)

evaluate-OneOpen_example : OneOpen two_alerts.0
evaluate-OneOpen_example =
    evaluate-OneOpen quiet (10 * minute) (visit ∷ visit ∷ []) fresh two_alerts.0 fresh-OneOpen
      ((refl, refl), ((refl, refl), tt)) two_alerts.1

both_filled : is_empty strict.min_version || is_empty silent.version ≡ false
unfolding is_empty
both_filled = refl

outdated_follows_example :
    open_alerts "w1" "version_outdated"
      (evaluate_version_outdated strict (10 * minute) silent (works, "a3") fresh)
    ≡ 1
outdated_follows_example =
    outdated_follows strict (10 * minute) silent works "a3" less fresh fresh-OneOpen
      (refl, refl, refl) (no_key "a3") both_filled beta

-- The order of the identifiers "w1" and "w2", and of no others.
abbrev id_before : String → String → Bool
id_before i j = i == "w1" && j == "w2"

id_before-asymmetric : (i j : String) → id_before i j ≡ true → id_before j i ≡ false
id_before-asymmetric i j h =
    let q : i ≡ "w1" = ground (arith, h, eq_iff i "w1") in
    let r : j ≡ "w2" = ground (arith, h, eq_iff j "w2") in rw (q, r) refl

abbrev second_visit : Visit
second_visit = record {
  workload = record { id = "w2"; version = older; last_seen_at = 9 * minute };
  pending = none;
  pending_fails = false;
  down = (works, "b1");
  drift = (works, "b2");
  outdated = (works, "b3");
}

abbrev both : List Visit
both = visit ∷ second_visit ∷ []

-- Pages of one workload; the second page fails.
abbrev second_fails : ℕ → Bool
second_fails k = k == 1

pages_visit_example :
    (seen : List Visit) × (rest : List Visit) × (both ≡ seen ++ rest)
    × (evaluate_pages id_before 3 quiet (10 * minute) second_fails 1 both fresh
        ≡ finished (evaluate quiet (10 * minute) seen fresh))
    × (((j : ℕ) → second_fails j ≡ false) → rest ≡ [])
pages_visit_example =
    pages_visit id_before id_before-asymmetric 3 quiet (10 * minute) second_fails 1 both fresh
      (refl, (refl, tt), (refl, tt, tt)) (omega arith)
