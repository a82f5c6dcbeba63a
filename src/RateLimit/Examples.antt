-- ===== src/RateLimit/Examples.antt =====
-- A client that fails five times, with another one between.
use otel_magnify.Prelude.{
  ◌≡◌, ◌≢◌, ◌↔◌, ◌⊎◌, inl, inr, refl, true, false, List, [], ◌∷◌, ◌+◌, ◌*◌, ◌<◌, String, string_eq,
  arith, eq_iff,
}
use otel_magnify.Prelude.Dict.{get, get-empty, put, delete}
use otel_magnify.Prelude.Clock.{second, sub_time, Time}
use otel_magnify.RateLimit.{
  login_rate_limit_max_failures, login_rate_limit_window, allow, record_failure, reset, Call,
  allows, failures, resets, step, run,
}
use otel_magnify.RateLimit.Lockout.{failures_of, lockout}

abbrev start : Time
start = 1000 * second

abbrev attempts : List Call
attempts =
    failures "a" (1001 * second)
    ∷ failures "b" (1002 * second)
    ∷ failures "a" (1003 * second)
    ∷ allows "a" (1003 * second)
    ∷ failures "a" (1004 * second)
    ∷ resets "b"
    ∷ failures "a" (1005 * second)
    ∷ []

locked : (allow "a" (1006 * second) (run (failures "a" start ∷ attempts) [])).1 ≡ false
unfolding run step allow record_failure reset get put delete
locked = refl

a-ne-empty : ◌≢◌ {A = String} "a" ""
a-ne-empty = λ h. ground (arith, eq_iff "a" "")

b-ne-a : ◌≢◌ {A = String} "b" "a"
b-ne-a = λ h. ground (arith, eq_iff "b" "a")

lockout_example :
    ((allow "a" (1006 * second) (run (failures "a" start ∷ attempts) [])).1 ≡ true) ↔ (
      (login_rate_limit_window < sub_time (1006 * second) start)
      ⊎ (failures_of "a" attempts + 1 < login_rate_limit_max_failures))
lockout_example = lockout "a" start (1006 * second) attempts [] a-ne-empty (get-empty "a") (
  inr (omega arith),
  (
    inl b-ne-a,
    (
      inr (omega arith),
      (inr (omega arith), (inr (omega arith), (b-ne-a, (inr (omega arith), tt)))),
    ),
  ),
)
