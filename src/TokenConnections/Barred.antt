-- ===== src/TokenConnections/Barred.antt =====
-- The refusals of Track, Acquire and Fork of internal/opamp/token_connections.go, along events.
use otel_magnify.Prelude.{
  ℕ, ◌≡◌, refl, true, false, ◌&&◌, ◌||◌, Option, none, some, List, [], ◌∷◌, all, String, string_eq,
  nat_eq, arith, Bool-cases, Option-cases, inl, inr,
}
use otel_magnify.Prelude.Clock.{Time}
use otel_magnify.TokenConnections.{
  Progress, draining, notified, awaiting, finished, StopState, TokenConnections, is_disabled, track,
  acquire, fork,
}
use otel_magnify.TokenConnections.Shutdown.{
  is_idle, is_done, is_disable_finished, all_done, begin_stop, advance_stop, stop_entry, start_stop,
  Event, tracks, acquires, removes, forks, releases, completes, drains, finishes, disables,
  advances, expires, stops, advances_stop, step, run,
}
use otel_magnify.TokenConnections.Refusing.{
  Kept, track-Kept, acquire-Kept, fork-Kept, remove-Kept, disable-Kept, expire_token-Kept,
}
use otel_magnify.TokenConnections.Stopping.{
  release-Settling, complete_all-Settling, complete_remove-Settling, drain_remove-Settling,
  finish_remove-Settling, advance_disable-Settling,
}
use otel_magnify.TokenConnections.Unleased.{is_barred, track-barred, acquire-barred, fork-barred}

module _ (token_of : ℕ → String) (expires_of : ℕ → Option Time) where
  abbrev Barring : TokenConnections → TokenConnections → Type 0
  Barring c d =
      (s : ℕ) → is_barred token_of expires_of c s ≡ true → is_barred token_of expires_of d s ≡ true

  Kept-Barring : (c d : TokenConnections) → Kept c d → Barring c d
  unfolding is_barred
  Kept-Barring c d k s h = ground (arith, h, k.stopped, k.disabled (token_of s))

  stop_entry-Barring :
      (st : StopState) (p : Progress) (c : TokenConnections) → Barring c (stop_entry st p c)
  unfolding stop_entry is_barred is_disabled
  stop_entry-Barring st draining c = elim (Bool-cases (is_idle c st.active)) [
    | inl b ↦ rw (b, stop_entry) (λ s h. h)
    | inr b ↦ rw (b, stop_entry) (λ s h. h)
  ]
  stop_entry-Barring st notified c =
      Kept-Barring (record c { stop_state = some (record st { progress = awaiting }) }) _
        (complete_all-Settling st.owned_removals _).kept
  stop_entry-Barring st awaiting c =
      elim (Bool-cases (
        all (is_done c) st.removals
        && all (is_disable_finished c) st.disables
        && all_done c.remove_states)) [
          | inl b ↦ rw (b, stop_entry) (λ s h. h)
          | inr b ↦ rw (b, stop_entry) (λ s h. h)
        ]
  stop_entry-Barring st finished c = λ s h. h

  advance_stop-Barring : (c : TokenConnections) → Barring c (advance_stop c)
  unfolding advance_stop
  advance_stop-Barring c = elim (Option-cases c.stop_state) [
    | inl n ↦ simp (n, advance_stop) (λ s h. h)
    | inr (st, e) ↦ simp (e, advance_stop) (stop_entry-Barring st st.progress c)
  ]

  start_stop-Barring : (c : TokenConnections) → Barring c (start_stop token_of c)
  unfolding start_stop is_barred
  start_stop-Barring c s h = refl

  begin_stop-Barring : (c : TokenConnections) → Barring c (begin_stop token_of c)
  unfolding begin_stop
  begin_stop-Barring c = elim (Option-cases c.stop_state) [
    | inl n ↦ simp (n, begin_stop) (start_stop-Barring c)
    | inr (st, e) ↦ simp (e, begin_stop) (λ s h. h)
  ]

  step-Barring : (e : Event) (c : TokenConnections) → Barring c (step token_of expires_of e c)
  unfolding step
  step-Barring (tracks s now) c = Kept-Barring c _ (track-Kept token_of expires_of s now c)
  step-Barring (acquires s now) c = Kept-Barring c _ (acquire-Kept token_of expires_of s now c)
  step-Barring (removes s now) c = Kept-Barring c _ (remove-Kept token_of expires_of s now c)
  step-Barring (forks s) c = Kept-Barring c _ (fork-Kept token_of expires_of s c)
  step-Barring (releases l) c = Kept-Barring c _ (release-Settling l c).kept
  step-Barring (completes s) c = Kept-Barring c _ (complete_remove-Settling s c).kept
  step-Barring (drains r) c = Kept-Barring c _ (drain_remove-Settling r c).kept
  step-Barring (finishes r) c = Kept-Barring c _ (finish_remove-Settling token_of r c).kept
  step-Barring (disables id) c = Kept-Barring c _ (disable-Kept token_of id c)
  step-Barring (advances id) c = Kept-Barring c _ (advance_disable-Settling id c).kept
  step-Barring (expires id g now) c =
      Kept-Barring c _ (expire_token-Kept token_of expires_of id g now c)
  step-Barring stops c = begin_stop-Barring c
  step-Barring advances_stop c = advance_stop-Barring c

  run-Barring : (es : List Event) (c : TokenConnections) → Barring c (run token_of expires_of es c)
  unfolding run
  run-Barring [] c s h = h
  run-Barring (e ∷ es) c s h = run-Barring es _ s (step-Barring e c s h)

  -- Once the token of a session is disabled, or the server stops, the session is neither tracked
  -- nor given a lease, nor a second one beside a lease it has, after any events, and the attempt
  -- changes nothing.
  pub barred_refused :
      (es : List Event) (c : TokenConnections) (s : ℕ) (now : Time)
      → (c.stopped || is_disabled c (token_of s)) ≡ true
      → let d = run token_of expires_of es c in
        (track token_of expires_of s now d ≡ (d, false))
        × (acquire token_of expires_of s now d ≡ (d, none))
        × (fork token_of expires_of s d ≡ (d, none))
  unfolding is_barred
  barred_refused es c s now h =
      let d = run token_of expires_of es c in
      let b = run-Barring es c s h in
      (
        track-barred token_of expires_of s now d b,
        acquire-barred token_of expires_of s now d b,
        fork-barred token_of expires_of s d b,
      )
