-- ===== src/Alerts/OneOpen.antt =====
-- The open alerts of a workload and a rule in the table of internal/alerts/engine.go.
use otel_magnify.Prelude.{
  ℕ, ◌+◌, ◌≡◌, inl, inr, refl, true, false, ◌&&◌, none, some, [], ◌∷◌, ◌==◌, string_eq, arith,
  eq_iff, String, Option-cases, Bool-cases,
}
use otel_magnify.Prelude.Dict.{get, IsMap}
use otel_magnify.Prelude.Dict.Count.{count_values, weight, count-put, count-put_fresh}
use otel_magnify.Prelude.Clock.{Time}
use otel_magnify.Alerts.{
  Alert, AlertRow, AlertTable, create_alert, resolve_alert, is_unresolved, is_open_for,
  unresolved_alert, State, inserted, stamped,
}

-- How many alerts are open for a workload and a rule.
abbrev pub open_alerts : String → String → State → ℕ
open_alerts w rule s = count_values (is_open_for w rule) s.alerts

pub unresolved-none :
    (w rule : String) (t : AlertTable)
    → unresolved_alert w rule t ≡ none
    → count_values (is_open_for w rule) t ≡ 0
unfolding unresolved_alert
unresolved-none w rule [] h = refl
unresolved-none w rule ((id, r) ∷ t) h = ground (arith, unresolved-none w rule t)

pub unresolved-some :
    (w rule id : String) (t : AlertTable)
    → IsMap t
    → unresolved_alert w rule t ≡ some id
    → (r : AlertRow) × (get t id ≡ some r) × (is_open_for w rule r ≡ true)
unfolding unresolved_alert get
unresolved-some w rule id [] m h = cc
unresolved-some w rule id ((i, r) ∷ t) m h = elim (Bool-cases (is_open_for w rule r)) [
  | inl b ↦ (r, ground (arith, eq_iff i id), b)
  | inr b ↦
      let (q, g, o) = unresolved-some w rule id t m.1 (ground arith) in
      (q, ground (arith, eq_iff i id), o)
]

pub inserted-open :
    (a : Alert) (w rule : String)
    → is_open_for w rule (inserted a) ≡ (a.workload_id == w && a.rule == rule)
unfolding inserted is_open_for is_unresolved
inserted-open a w rule = ground arith

stamped-closed :
    (now : Time) (r : AlertRow) (w rule : String) → is_open_for w rule (stamped now r) ≡ false
unfolding stamped is_open_for is_unresolved
stamped-closed now r w rule = ground arith

-- Creating and resolving, counted for any workload and rule.
pub create-count :
    (a : Alert) (w rule : String) (t u : AlertTable)
    → create_alert a t ≡ some u
    → count_values (is_open_for w rule) u
      ≡ weight (is_open_for w rule) (inserted a) + count_values (is_open_for w rule) t
unfolding create_alert
create-count a w rule t u h = elim (Option-cases (get t a.id)) [
  | inl g ↦ ground (arith, h, g, count-put_fresh (is_open_for w rule) t a.id (inserted a) g)
  | inr (r, g) ↦ ground (arith, h, g)
]

pub resolve-count :
    (id w rule : String) (now : Time) (t u : AlertTable) (r : AlertRow)
    → IsMap t
    → get t id ≡ some r
    → resolve_alert id now t ≡ some u
    → count_values (is_open_for w rule) u + weight (is_open_for w rule) r
      ≡ count_values (is_open_for w rule) t
unfolding resolve_alert
resolve-count id w rule now t u r m g h = ground (
  arith,
  h,
  g,
  count-put (is_open_for w rule) t id (stamped now r) {old = r} m g,
  stamped-closed now r w rule,
)
