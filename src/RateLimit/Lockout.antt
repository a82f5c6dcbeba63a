-- ===== src/RateLimit/Lockout.antt =====
-- Five failures lock a client out until its window is over, whatever the other clients do.
use otel_magnify.Prelude.{
  ◌∙◌, ap, ℕ, ◌+◌, ◌≤◌, ◌<◌, ◌≡◌, ◌≢◌, ◌⊎◌, ◌↔◌, inl, inr, true, Option, none, some, List, [], ◌∷◌,
  ◌==◌, string_eq, arith, if◌then◌else◌, eq_iff, String, All, ltb, Bool-cases,
}
use otel_magnify.Prelude.Dict.{get, get-put, get-delete}
use otel_magnify.Prelude.Clock.{Time, sub_time}
use otel_magnify.RateLimit.{
  LoginFailureWindow, LoginRateLimiter, login_rate_limit_max_failures, login_rate_limit_window,
  allow, next_window, Call, allows, failures, resets, step, run,
}

-- How many of the calls report a failure of the client.
abbrev pub failures_of : String → List Call → ℕ
failures_of key [] = 0
failures_of key (failures k now ∷ cs) = (if k == key then 1 else 0) + failures_of key cs
failures_of key (allows k now ∷ cs) = failures_of key cs
failures_of key (resets k ∷ cs) = failures_of key cs

-- A call of the client that comes inside the window and does not reset it; or of another client.
abbrev pub InWindow : String → Time → Call → Type 0
InWindow key first (allows k now) = (k ≢ key) ⊎ (sub_time now first ≤ login_rate_limit_window)
InWindow key first (failures k now) = (k ≢ key) ⊎ (sub_time now first ≤ login_rate_limit_window)
InWindow key first (resets k) = k ≢ key

abbrev window : ℕ → Time → Option LoginFailureWindow
window n first = some (record { count = n; first = first })

-- The test of `allow` on a client that has a window.
allowed :
    (key : String) (now first : Time) (n : ℕ) (l : LoginRateLimiter)
    → key ≢ ""
    → get l key ≡ window n first
    → ((allow key now l).1 ≡ true)
      ↔ ((login_rate_limit_window < sub_time now first) ⊎ (n < login_rate_limit_max_failures))
unfolding allow
allowed key now first n l named e = (
  λ h. elim (Bool-cases (ltb login_rate_limit_window (sub_time now first))) [
    | inl o ↦ inl (ground arith)
    | inr o ↦ inr (ground (arith, eq_iff key ""))
  ],
  λ h. ground (arith, eq_iff key ""),
)

module _ (key : String) (named : key ≢ "") (first : Time) where
  step-window :
      (c : Call) (n : ℕ) (l : LoginRateLimiter)
      → InWindow key first c
      → get l key ≡ window n first
      → get (step c l) key ≡ window (failures_of key (c ∷ []) + n) first
  unfolding step
  step-window (allows k now) n l h e = ground (arith, get-delete l k key, eq_iff k key, eq_iff k "")
  step-window (failures k now) n l h e =
      ground (arith, get-put l k key (next_window now (get l k)), eq_iff k key, eq_iff k "")
  step-window (resets k) n l h e = ground (arith, get-delete l k key, eq_iff k key, eq_iff k "")

failures_of-cons :
    (key : String) (c : Call) (cs : List Call)
    → failures_of key (c ∷ cs) ≡ failures_of key (c ∷ []) + failures_of key cs
failures_of-cons key (allows k now) cs = omega arith
failures_of-cons key (failures k now) cs = omega arith
failures_of-cons key (resets k) cs = omega arith

-- Inside its window a client's failures add up, whatever other clients do in between.
pub window-run :
    (key : String) (first : Time) (cs : List Call) (n : ℕ) (l : LoginRateLimiter)
    → key ≢ ""
    → All (InWindow key first) cs
    → get l key ≡ some (record { count = n; first = first })
    → get (run cs l) key ≡ some (record { count = failures_of key cs + n; first = first })
unfolding run
window-run key first [] n l named h e = e ∙ ap (λ m. window m first) (omega arith)
window-run key first (c ∷ cs) n l named h e =
    window-run key first cs (failures_of key (c ∷ []) + n) (step c l) named h.1
      (step-window key named first c n l h.0 e)
    ∙ ap (λ m. window m first) (omega (arith, failures_of-cons key c cs))

begun :
    (key : String) (first : Time) (l : LoginRateLimiter)
    → key ≢ ""
    → get l key ≡ none
    → get (step (failures key first) l) key ≡ window 1 first
unfolding step
begun key first l named fresh =
    ground (arith, get-put l key key (next_window first (get l key)), eq_iff key "", eq_iff key key)

-- A client without a window fails at the time `first`, and then makes calls inside the window
-- that this begins, among any calls of other clients. Its next attempt is let through exactly
-- where the window is over, or fewer than five failures were recorded in it.
pub lockout :
    (key : String) (first now : Time) (cs : List Call) (l : LoginRateLimiter)
    → key ≢ ""
    → get l key ≡ none
    → All (InWindow key first) cs
    → ((allow key now (run (failures key first ∷ cs) l)).1 ≡ true) ↔ (
        (login_rate_limit_window < sub_time now first)
        ⊎ (failures_of key cs + 1 < login_rate_limit_max_failures))
unfolding run
lockout key first now cs l named fresh h =
    allowed key now first (failures_of key cs + 1) (run (failures key first ∷ cs) l) named (
      window-run key first cs 1 (step (failures key first) l) named h
        (begun key first l named fresh))
