-- ===== src/TokenConnections/Unleased.antt =====
-- The leases of internal/opamp/token_connections.go at the end of a disabling and of a stop.
use otel_magnify.Prelude.{
  ℕ, ◌≡◌, ◌≢◌, refl, Bool, true, false, not, ◌||◌, Option, none, some, List, [], ◌∷◌, String, ◌==◌,
  string_eq, nat_eq, arith, Option-cases, inl, inr,
}
use otel_magnify.Prelude.Dict.{get}
use otel_magnify.Prelude.Clock.{Time}
use otel_magnify.TokenConnections.Sets.{has}
use otel_magnify.TokenConnections.{
  finished, DisableState, StopState, TokenConnections, is_disabled, is_tracked, track, acquire,
  fork, remove, disable, expire_token, new_token_connections,
}
use otel_magnify.TokenConnections.Shutdown.{
  Event, tracks, acquires, removes, forks, releases, completes, drains, finishes, disables,
  advances, expires, stops, advances_stop, step, run,
}
use otel_magnify.TokenConnections.Registering.{removal_drains}
use otel_magnify.TokenConnections.Invariant.{
  Inv, covered, disable_waits, entry_waits, stop_waits, state_waits, is_draining, is_unfinished,
  entry_unfinished, is_undone, state_undone, Stopping,
}
use otel_magnify.TokenConnections.Refusing.{
  track-Kept, acquire-Kept, fork-Kept, remove-Kept, disable-Kept, expire_token-Kept,
}
use otel_magnify.TokenConnections.Stopping.{
  Settling-Stopping, release-Settling, complete_remove-Settling, drain_remove-Settling,
  finish_remove-Settling, advance_disable-Settling,
}
use otel_magnify.TokenConnections.Stopped.{
  Admitted-Stopping, advance_stop-Stopping, begin_stop-Stopping, undone-drains,
}
use otel_magnify.TokenConnections.Advancing.{step-Inv, run-Inv, new-Inv}

module _ (token_of : ℕ → String) (expires_of : ℕ → Option Time) where
  -- Both reasons to refuse a session, which are never taken back.
  unfoldable pub is_barred : TokenConnections → ℕ → Bool
  is_barred c s = c.stopped || is_disabled c (token_of s)

  pub track-barred :
      (s : ℕ) (now : Time) (c : TokenConnections)
      → is_barred c s ≡ true
      → track token_of expires_of s now c ≡ (c, false)
  unfolding is_barred track
  track-barred s now c h =
      let b : (token_of s == "" || c.stopped || is_disabled c (token_of s)) ≡ true =
        ground (arith, h) in
      rw b refl

  pub acquire-barred :
      (s : ℕ) (now : Time) (c : TokenConnections)
      → is_barred c s ≡ true
      → acquire token_of expires_of s now c ≡ (c, none)
  unfolding is_barred acquire
  acquire-barred s now c h =
      let b : (c.stopped || is_disabled c (token_of s) || not (is_tracked c s)) ≡ true =
        ground (arith, h) in
      rw b refl

  pub fork-barred :
      (s : ℕ) (c : TokenConnections)
      → is_barred c s ≡ true
      → fork token_of expires_of s c ≡ (c, none)
  unfolding is_barred fork
  fork-barred s c h =
      let b : (c.stopped || is_disabled c (token_of s) || not (is_tracked c s)) ≡ true =
        ground (arith, h) in
      rw b refl

  remove-stopped :
      (s : ℕ) (now : Time) (c : TokenConnections)
      → c.stopped ≡ true
      → remove token_of expires_of s now c ≡ c
  unfolding remove
  remove-stopped s now c h =
      let b : (has c.removals s || c.stopped || not (is_tracked c s)) ≡ true = ground (arith, h) in
      rw b refl

  stopped-barred : (s : ℕ) (c : TokenConnections) → c.stopped ≡ true → is_barred c s ≡ true
  unfolding is_barred
  stopped-barred s c h = ground (arith, h)

  step-Stopping :
      (e : Event) (c : TokenConnections)
      → Inv token_of c
      → Stopping c
      → Stopping (step token_of expires_of e c)
  unfolding step disable expire_token
  step-Stopping (tracks s now) c i h =
      Admitted-Stopping token_of c _ i (track-Kept token_of expires_of s now c)
        (λ b. rw (track-barred s now c (stopped-barred s c b)) refl) h
  step-Stopping (acquires s now) c i h =
      Admitted-Stopping token_of c _ i (acquire-Kept token_of expires_of s now c)
        (λ b. rw (acquire-barred s now c (stopped-barred s c b)) refl) h
  step-Stopping (removes s now) c i h =
      Admitted-Stopping token_of c _ i (remove-Kept token_of expires_of s now c)
        (remove-stopped s now c) h
  step-Stopping (forks s) c i h =
      Admitted-Stopping token_of c _ i (fork-Kept token_of expires_of s c)
        (λ b. rw (fork-barred s c (stopped-barred s c b)) refl) h
  step-Stopping (releases l) c i h = Settling-Stopping c _ (release-Settling l c) h
  step-Stopping (completes s) c i h = Settling-Stopping c _ (complete_remove-Settling s c) h
  step-Stopping (drains r) c i h = Settling-Stopping c _ (drain_remove-Settling r c) h
  step-Stopping (finishes r) c i h = Settling-Stopping c _ (finish_remove-Settling token_of r c) h
  step-Stopping (disables id) c i h =
      Admitted-Stopping token_of c _ i (disable-Kept token_of id c) (λ b. simp b refl) h
  step-Stopping (advances id) c i h = Settling-Stopping c _ (advance_disable-Settling id c) h
  step-Stopping (expires id g now) c i h =
      Admitted-Stopping token_of c _ i (expire_token-Kept token_of expires_of id g now c)
        (λ b. simp b refl) h
  step-Stopping stops c i h = begin_stop-Stopping token_of c h
  step-Stopping advances_stop c i h = advance_stop-Stopping c h

  run-Stopping :
      (es : List Event) (c : TokenConnections)
      → Inv token_of c
      → Stopping c
      → Stopping (run token_of expires_of es c)
  unfolding run
  run-Stopping [] c i h = h
  run-Stopping (e ∷ es) c i h =
      run-Stopping es _ (step-Inv token_of expires_of e c i) (step-Stopping e c i h)

  new-Stopping : Stopping new_token_connections
  unfolding new_token_connections
  new-Stopping = record {
    knows = λ st id e u. ground (arith, e);
    rests = λ st id e p. ground (arith, e);
    removed = λ st r e p. ground (arith, e);
  }

  -- After any events, a disabling that has notified the sessions of its token leaves no lease on
  -- any of them, those that were tracked or removed meanwhile included.
  pub disabled_unleased :
      (es : List Event) (id : String) (d : DisableState) (l s : ℕ)
      → get (run token_of expires_of es new_token_connections).disable_states id ≡ some d
      → is_draining d.progress ≡ false
      → get (run token_of expires_of es new_token_connections).leases l ≡ some s
      → token_of s ≢ id
  unfolding covered is_disabled has disable_waits entry_waits
  disabled_unleased es id d l s e p g =
      let i = run-Inv token_of expires_of es new_token_connections (new-Inv token_of) in
      λ q. ground (arith, e, p, g, q, i.covers l s g)

  -- After any events, a stop that has come to its end leaves no lease on any session.
  pub stopped_unleased :
      (es : List Event) (st : StopState) (l : ℕ)
      → (run token_of expires_of es new_token_connections).stop_state ≡ some st
      → st.progress ≡ finished
      → get (run token_of expires_of es new_token_connections).leases l ≡ none
  unfolding covered is_disabled has disable_waits entry_waits stop_waits state_waits is_draining
      removal_drains is_unfinished entry_unfinished is_undone state_undone
  stopped_unleased es st l e p =
      let c = run token_of expires_of es new_token_connections in
      let i = run-Inv token_of expires_of es new_token_connections (new-Inv token_of) in
      let h = run-Stopping es new_token_connections (new-Inv token_of) new-Stopping in
      elim (Option-cases (get c.leases l)) [
        | inl n ↦ n
        | inr (s, g) ↦ ground (
          arith,
          e,
          p,
          g,
          i.covers l s g,
          i.halted s,
          i.not_stopping,
          h.rests st (token_of s) e p,
          undone-drains token_of c s i.registered (λ r. h.removed st r e p),
        )
      ]
