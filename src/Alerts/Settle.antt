-- ===== src/Alerts/Settle.antt =====
-- What one rule does to the open alerts of its workload, and of the others.
use otel_magnify.Prelude.{
  ◌+◌, ◌≤◌, ◌≡◌, inl, inr, refl, true, false, Bool, Option, none, some, string_eq, arith,
  if◌then◌else◌, eq_iff, String, Option-cases,
}
use otel_magnify.Prelude.Dict.{get, put, put-IsMap, IsMap}
use otel_magnify.Prelude.Dict.Count.{weight}
use otel_magnify.Prelude.Clock.{Time}
use otel_magnify.Alerts.{
  Alert, AlertRow, AlertTable, create_alert, resolve_alert, is_open_for, unresolved_alert, Failures,
  State, created, resolved, settle, inserted, stamped,
}
use otel_magnify.Alerts.OneOpen.{
  open_alerts, unresolved-none, unresolved-some, inserted-open, create-count, resolve-count,
}

create-IsMap : (a : Alert) (t u : AlertTable) → IsMap t → create_alert a t ≡ some u → IsMap u
unfolding create_alert
create-IsMap a t u m h = elim (Option-cases (get t a.id)) [
  | inl g ↦ ground (arith, h, g, put-IsMap t a.id (inserted a) m)
  | inr (r, g) ↦ ground (arith, h, g)
]

resolve-IsMap :
    (id : String) (now : Time) (t u : AlertTable)
    → IsMap t
    → resolve_alert id now t ≡ some u
    → IsMap u
unfolding resolve_alert
resolve-IsMap id now t u m h = elim (Option-cases (get t id)) [
  | inl g ↦ ground (arith, h, g)
  | inr (r, g) ↦ ground (arith, h, g, put-IsMap t id (stamped now r) m)
]

created-IsMap :
    (a : Alert) (s : State) (o : Option AlertTable)
    → IsMap s.alerts
    → create_alert a s.alerts ≡ o
    → IsMap (created a s o).alerts
unfolding created
created-IsMap a s none m h = m
created-IsMap a s (some u) m h = create-IsMap a s.alerts u m h

resolved-IsMap :
    (id : String) (now : Time) (s : State) (o : Option AlertTable)
    → IsMap s.alerts
    → resolve_alert id now s.alerts ≡ o
    → IsMap (resolved s o).alerts
unfolding resolved
resolved-IsMap id now s none m h = m
resolved-IsMap id now s (some u) m h = resolve-IsMap id now s.alerts u m h

pub settle-IsMap :
    (f : Failures) (a : Alert) (active : Bool) (existing : Option String) (s : State)
    → IsMap s.alerts
    → IsMap (settle f a active existing s).alerts
unfolding settle
settle-IsMap f a true none s m = ground (arith, created-IsMap a s (create_alert a s.alerts) m refl)
settle-IsMap f a true (some id) s m = m
settle-IsMap f a false none s m = m
settle-IsMap f a false (some id) s m =
    ground
      (arith, resolved-IsMap id f.resolves_at s (resolve_alert id f.resolves_at s.alerts) m refl)

created-count :
    (a : Alert) (w rule : String) (s : State) (o : Option AlertTable)
    → create_alert a s.alerts ≡ o
    → open_alerts w rule (created a s o)
      ≤ weight (is_open_for w rule) (inserted a) + open_alerts w rule s
unfolding created
created-count a w rule s none h = omega arith
created-count a w rule s (some u) h = omega (arith, create-count a w rule s.alerts u h)

resolved-count :
    (id w rule : String) (now : Time) (s : State) (o : Option AlertTable) (r : AlertRow)
    → IsMap s.alerts
    → get s.alerts id ≡ some r
    → resolve_alert id now s.alerts ≡ o
    → open_alerts w rule (resolved s o) ≤ open_alerts w rule s
unfolding resolved
resolved-count id w rule now s none r m g h = omega arith
resolved-count id w rule now s (some u) r m g h =
    omega (arith, resolve-count id w rule now s.alerts u r m g h)

-- Whatever fails in the store after the lookup, no second alert opens.
pub settle-one_open :
    (f : Failures) (a : Alert) (active : Bool) (existing : Option String) (s : State)
    (w rule : String)
    → IsMap s.alerts
    → unresolved_alert a.workload_id a.rule s.alerts ≡ existing
    → open_alerts w rule s ≤ 1
    → open_alerts w rule (settle f a active existing s) ≤ 1
unfolding settle
settle-one_open f a true none s w rule m e h = ground (
  arith,
  created-count a w rule s (create_alert a s.alerts) refl,
  unresolved-none a.workload_id a.rule s.alerts e,
  inserted-open a w rule,
  eq_iff a.workload_id w,
  eq_iff a.rule rule,
)
settle-one_open f a true (some id) s w rule m e h = h
settle-one_open f a false none s w rule m e h = h
settle-one_open f a false (some id) s w rule m e h =
    let (r, g, o) = unresolved-some a.workload_id a.rule id s.alerts m e in
    ground (
      arith,
      resolved-count id w rule f.resolves_at s (resolve_alert id f.resolves_at s.alerts) r m g refl,
    )

creates :
    (a : Alert) (t : AlertTable)
    → get t a.id ≡ none
    → create_alert a t ≡ some (put t a.id (inserted a))
unfolding create_alert
creates a t h = rw (h, create_alert) refl

resolves :
    (id : String) (now : Time) (t : AlertTable) (r : AlertRow)
    → get t id ≡ some r
    → resolve_alert id now t ≡ some (put t id (stamped now r))
unfolding resolve_alert
resolves id now t r h = rw (h, resolve_alert) refl

-- If nothing fails and the new identifier is fresh, one alert is open where the condition holds,
-- and none where it does not.
pub settle-own :
    (f : Failures) (a : Alert) (active : Bool) (existing : Option String) (s : State)
    → IsMap s.alerts
    → get s.alerts a.id ≡ none
    → f.create_fails ≡ false
    → f.resolve_fails ≡ false
    → unresolved_alert a.workload_id a.rule s.alerts ≡ existing
    → open_alerts a.workload_id a.rule s ≤ 1
    → open_alerts a.workload_id a.rule (settle f a active existing s) ≡ (if active then 1 else 0)
unfolding settle created resolved
settle-own f a true none s m fresh c r e h =
    let k = creates a s.alerts fresh in
    rw (c, settle, k, created)
      (ground (
        arith,
        create-count a a.workload_id a.rule s.alerts (put s.alerts a.id (inserted a)) k,
        unresolved-none a.workload_id a.rule s.alerts e,
        inserted-open a a.workload_id a.rule,
        eq_iff a.workload_id a.workload_id,
        eq_iff a.rule a.rule,
      ))
settle-own f a true (some id) s m fresh c r e h =
    let (q, g, o) = unresolved-some a.workload_id a.rule id s.alerts m e in
    ground (
      arith,
      o,
      resolve-count id a.workload_id a.rule f.resolves_at s.alerts
          (put s.alerts id (stamped f.resolves_at q)) q m g
          (resolves id f.resolves_at s.alerts q g),
    )
settle-own f a false none s m fresh c r e h = unresolved-none a.workload_id a.rule s.alerts e
settle-own f a false (some id) s m fresh c r e h =
    let (q, g, o) = unresolved-some a.workload_id a.rule id s.alerts m e in
    let k = resolves id f.resolves_at s.alerts q g in
    rw (r, settle, k, resolved)
      (ground (
        arith,
        o,
        resolve-count id a.workload_id a.rule f.resolves_at s.alerts
            (put s.alerts id (stamped f.resolves_at q)) q m g k,
      ))
