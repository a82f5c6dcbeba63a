-- ===== src/RateLimit.antt =====
-- internal/api/login_ratelimit.go: failed logins of a client, counted in a window that begins with
-- the first. The clock reading of each call is an argument; the mutex makes a call one step.
pub mod Lockout
mod Examples
use otel_magnify.Prelude.{
  ℕ, ◌+◌, Bool, true, false, ◌||◌, Option, none, some, List, [], ◌∷◌, String, ◌==◌, string_eq, ltb,
  if◌then◌else◌,
}
use otel_magnify.Prelude.Dict.{Dict, get, put, delete}
use otel_magnify.Prelude.Clock.{Time, Duration, minute, sub_time}

abbrev pub login_rate_limit_max_failures : ℕ
login_rate_limit_max_failures = 5

abbrev pub login_rate_limit_window : Duration
login_rate_limit_window = minute

pub record LoginFailureWindow : Type 0 where
  pub count : ℕ
  pub first : Time

abbrev pub LoginRateLimiter : Type 0
LoginRateLimiter = Dict String LoginFailureWindow

-- `now.Sub(window.first) > loginRateLimitWindow`
unfoldable pub is_over : Time → LoginFailureWindow → Bool
is_over now w = ltb login_rate_limit_window (sub_time now w.first)

unfoldable pub allow_window :
    String → Time → Option LoginFailureWindow → LoginRateLimiter → LoginRateLimiter × Bool
unfolding is_over
allow_window key now none l = (l, true)
allow_window key now (some w) l =
    if is_over now w then (delete l key, true) else (l, ltb w.count login_rate_limit_max_failures)

unfoldable pub allow : String → Time → LoginRateLimiter → LoginRateLimiter × Bool
unfolding allow_window
allow key now l = if key == "" then (l, true) else allow_window key now (get l key) l

unfoldable pub next_window : Time → Option LoginFailureWindow → LoginFailureWindow
unfolding is_over
next_window now none = record { count = 1; first = now }
next_window now (some w) =
    if is_over now w then record { count = 1; first = now } else record w { count = w.count + 1 }

unfoldable pub record_failure : String → Time → LoginRateLimiter → LoginRateLimiter
unfolding next_window
record_failure key now l = if key == "" then l else put l key (next_window now (get l key))

unfoldable pub reset : String → LoginRateLimiter → LoginRateLimiter
reset key l = if key == "" then l else delete l key

-- The calls that the login handler makes, in the order in which they take the mutex.
pub data Call : Type 0 where
  allows failures : String → Time → Call
  resets : String → Call

unfoldable pub step : Call → LoginRateLimiter → LoginRateLimiter
unfolding allow record_failure reset
step (allows key now) l = (allow key now l).0
step (failures key now) l = record_failure key now l
step (resets key) l = reset key l

unfoldable pub run : List Call → LoginRateLimiter → LoginRateLimiter
unfolding step
run [] l = l
run (c ∷ cs) l = run cs (step c l)
