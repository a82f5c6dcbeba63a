-- ===== src/Outbox/Backoff.antt =====
-- The delays between attempts, auditOutboxBackoff of internal/audit/outbox_dispatcher.go.
use otel_magnify.Prelude.{ℕ, zero, suc, ◌+◌, ◌*◌, ◌≤◌, ◌≡◌, refl, min, arith}
use otel_magnify.Prelude.Clock.{Duration, second, minute}
use otel_magnify.Outbox.Dispatcher.{backoff_loop, audit_outbox_backoff}

-- A delay doubled a number of times.
abbrev pub doubled : ℕ → Duration → Duration
doubled zero delay = delay
doubled (suc n) delay = doubled n (2 * delay)

doubled-ge : (n : ℕ) (delay : Duration) → delay ≤ doubled n delay
doubled-ge zero delay = omega arith
doubled-ge (suc n) delay = omega (arith, doubled-ge n (2 * delay))

-- The loop doubles the delay as often as it is asked to, and stops at a minute.
backoff_loop-doubled :
    (left : ℕ) (delay : Duration)
    → delay ≤ minute
    → backoff_loop left delay ≡ min (doubled left delay) minute
unfolding backoff_loop
backoff_loop-doubled zero delay k = omega arith
backoff_loop-doubled (suc left) delay k =
    ground (arith, backoff_loop-doubled left (2 * delay), doubled-ge left (2 * delay))

-- The delay before the next attempt is a second, doubled for each attempt after the first, and a
-- minute at most.
pub backoff-doubled :
    (attempts : ℕ) → audit_outbox_backoff (suc attempts) ≡ min (doubled attempts second) minute
unfolding audit_outbox_backoff
backoff-doubled zero = refl
backoff-doubled (suc n) = ground (arith, backoff_loop-doubled (suc n) second (omega arith))

doubled-le : (n k : ℕ) (delay : Duration) → n ≤ k → doubled n delay ≤ doubled k delay
doubled-le zero k delay h = doubled-ge k delay
doubled-le (suc n) zero delay h = omega arith
doubled-le (suc n) (suc k) delay h = doubled-le n k (2 * delay) (omega arith)

-- The delay before the next attempt is between a second and a minute, and a later attempt waits
-- at least as long as an earlier one.
pub backoff_bounds :
    (attempts more : ℕ)
    → (second ≤ audit_outbox_backoff (suc attempts))
      × (audit_outbox_backoff (suc attempts) ≤ audit_outbox_backoff (suc (attempts + more)))
      × (audit_outbox_backoff (suc (attempts + more)) ≤ minute)
backoff_bounds attempts more =
    rw (backoff-doubled attempts, backoff-doubled (attempts + more))
      (
        omega (
          arith,
          doubled-ge attempts second,
          doubled-le attempts (attempts + more) second (omega arith),
        ),
        omega (arith, doubled-le attempts (attempts + more) second (omega arith)),
        omega arith,
      )
