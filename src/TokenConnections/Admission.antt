-- ===== src/TokenConnections/Admission.antt =====
-- Track, Acquire, Fork, Remove and expireToken of internal/opamp/token_connections.go, and the leases
-- that are waited for.
use otel_magnify.Prelude.{
  ◌∙◌, sym, ℕ, ◌≡◌, refl, true, false, not, ◌&&◌, ◌||◌, Option, none, some, String, ◌==◌, string_eq,
  nat_eq, arith, eq_iff, nat_beq_iff, Bool-cases, inl, inr,
}
use otel_magnify.Prelude.Dict.{get, put, delete}
use otel_magnify.Prelude.Clock.{Time, after}
use otel_magnify.TokenConnections.Sets.{
  has, members, members-add, members-drop, has-put, has-delete, add_member,
}
use otel_magnify.TokenConnections.{
  ExpiryTimer, TokenConnections, is_tracked, is_disabled, track, acquire, fork, remove,
  expire_entry, expire_token, has_expired, register_remove, detach_session, new_removal,
}
use otel_magnify.TokenConnections.Registering.{
  removal_drains, Registered, Registered-same, new_removal-Registered, new_removal-drains,
  register_remove-new,
}
use otel_magnify.TokenConnections.Invariant.{Inv, covered, disable_waits, stop_waits}
use otel_magnify.TokenConnections.Disabling.{timers-Inv, schedule-Inv, lend-Inv, begin_disable-Inv}

module _ (token_of : ℕ → String) where
  -- A session that is tracked with a token that is not disabled.
  added-Inv :
      (s : ℕ) (c : TokenConnections)
      → Inv token_of c
      → c.stopped ≡ false
      → is_disabled c (token_of s) ≡ false
      → Inv token_of (record c {
        sessions = put c.sessions s tt;
        sessions_by_id = add_member c.sessions_by_id (token_of s) s tt;
      })
  unfolding covered is_tracked is_disabled disable_waits stop_waits removal_drains
  added-Inv s c h running enabled = record {
    registered = Registered-same token_of c _ refl refl refl refl h.registered;
    covers = λ l u e. ground (arith, h.covers l u, has-put c.sessions s u tt);
    enabled =
        λ u e. ground (arith, h.enabled u, has-put c.sessions s u tt, nat_beq_iff s u, enabled);
    halted = λ u e. ground (arith, running);
    indexed = λ u e. ground (
      arith,
      h.indexed u,
      has-put c.sessions s u tt,
      nat_beq_iff s u,
      members-add c.sessions_by_id (token_of s) (token_of u) s tt,
      has-put (members c.sessions_by_id (token_of s)) s u tt,
      eq_iff (token_of s) (token_of u),
    );
    of_token = λ j u e. ground (
      arith,
      h.of_token j u,
      nat_beq_iff s u,
      members-add c.sessions_by_id (token_of s) j s tt,
      has-put (members c.sessions_by_id (token_of s)) s u tt,
      eq_iff (token_of s) j,
    );
    not_stopping = h.not_stopping;
  }

  detached-Inv :
      (s : ℕ) (c d : TokenConnections)
      → Inv token_of c
      → is_tracked c s ≡ true
      → Registered token_of d
      → d.leases ≡ c.leases
      → d.disable_states ≡ c.disable_states
      → d.stop_state ≡ c.stop_state
      → d.stopped ≡ c.stopped
      → ((u : ℕ) → is_tracked d u ≡ (not (s == u) && is_tracked c u))
      → ((u : ℕ) → removal_drains d u ≡ (s == u || removal_drains c u))
      → ((j : String) (u : ℕ)
          → has (members d.sessions_by_id j) u
            ≡ (not (token_of s == j && s == u) && has (members c.sessions_by_id j) u))
      → Inv token_of d
  unfolding covered is_disabled disable_waits stop_waits has
  detached-Inv s c d h t registered leases disables stop stopped tracked keeps by_id = record {
    registered = registered;
    covers = λ l u e. ground (
      arith,
      e,
      leases,
      disables,
      stop,
      stopped,
      h.covers l u,
      h.enabled s t,
      tracked u,
      keeps u,
      nat_beq_iff s u,
    );
    enabled = λ u e. ground (arith, e, disables, tracked u, h.enabled u);
    halted = λ u e. ground (arith, e, stopped, tracked u, h.halted u);
    indexed = λ u e. ground (arith, e, tracked u, by_id (token_of u) u, h.indexed u);
    of_token = λ j u e. ground (arith, e, by_id j u, h.of_token j u);
    not_stopping = λ e. stop ∙ h.not_stopping (sym stopped ∙ e);
  }

  removed-Inv :
      (s : ℕ) (c : TokenConnections)
      → Inv token_of c
      → is_tracked c s ≡ true
      → has c.removals s ≡ false
      → Inv token_of (register_remove token_of s (detach_session token_of s c)).0
  unfolding detach_session new_removal is_tracked removal_drains
  removed-Inv s c h t free =
      let d = detach_session token_of s c in
      let g = Registered-same token_of c d refl refl refl refl h.registered in
      rw (register_remove-new token_of s d free) (
        detached-Inv s c (new_removal token_of s d) h t (new_removal-Registered token_of s d g) refl
          refl refl refl (λ u. has-delete c.sessions s u) (λ u. new_removal-drains token_of s u d g)
          (λ j u. ground (
            arith,
            members-drop c.sessions_by_id (token_of s) j s,
            has-delete (members c.sessions_by_id (token_of s)) s u,
            eq_iff (token_of s) j,
          )))

module _ (token_of : ℕ → String) (expires_of : ℕ → Option Time) where
  pub track-Inv :
      (s : ℕ) (now : Time) (c : TokenConnections)
      → Inv token_of c
      → Inv token_of (track token_of expires_of s now c).0
  unfolding track
  track-Inv s now c h =
      elim (Bool-cases (token_of s == "" || c.stopped || is_disabled c (token_of s))) [
        | inl b ↦ rw (b, track) h
        | inr b ↦ elim (Bool-cases (has_expired now (expires_of s))) [
          | inl x ↦
              rw (b, track, x) (begin_disable-Inv token_of (token_of s) c h (ground (arith, b)))
          | inr x ↦ elim (Bool-cases (is_tracked c s)) [
            | inl t ↦ rw (b, track, x, t) h
            | inr t ↦
                rw (b, track, x, t)
                  (schedule-Inv token_of expires_of (token_of s) now _
                    (added-Inv token_of s c h (ground (arith, b)) (ground (arith, b))))
          ]
        ]
      ]

  pub acquire-Inv :
      (s : ℕ) (now : Time) (c : TokenConnections)
      → Inv token_of c
      → Inv token_of (acquire token_of expires_of s now c).0
  unfolding acquire
  acquire-Inv s now c h =
      elim (Bool-cases (c.stopped || is_disabled c (token_of s) || not (is_tracked c s))) [
        | inl b ↦ rw (b, acquire) h
        | inr b ↦ elim (Bool-cases (has_expired now (expires_of s))) [
          | inl x ↦
              rw (b, acquire, x) (begin_disable-Inv token_of (token_of s) c h (ground (arith, b)))
          | inr x ↦ rw (b, acquire, x) (lend-Inv token_of s c h (ground (arith, b)))
        ]
      ]

  pub fork-Inv :
      (s : ℕ) (c : TokenConnections)
      → Inv token_of c
      → Inv token_of (fork token_of expires_of s c).0
  unfolding fork
  fork-Inv s c h =
      elim (Bool-cases (c.stopped || is_disabled c (token_of s) || not (is_tracked c s))) [
        | inl b ↦ rw (b, fork) h
        | inr b ↦ rw (b, fork) (lend-Inv token_of s c h (ground (arith, b)))
      ]

  pub remove-Inv :
      (s : ℕ) (now : Time) (c : TokenConnections)
      → Inv token_of c
      → Inv token_of (remove token_of expires_of s now c)
  unfolding remove
  remove-Inv s now c h = elim (Bool-cases (has c.removals s || c.stopped || not (is_tracked c s))) [
    | inl b ↦ rw (b, remove) h
    | inr b ↦
        rw (b, remove)
          (schedule-Inv token_of expires_of (token_of s) now _
            (removed-Inv token_of s c h (ground (arith, b)) (ground (arith, b))))
  ]

  expire_entry-Inv :
      (id : String) (generation : ℕ) (now : Time) (e : Option ExpiryTimer) (c : TokenConnections)
      → Inv token_of c
      → c.stopped ≡ false
      → Inv token_of (expire_entry token_of expires_of id generation now e c).0
  unfolding expire_entry
  expire_entry-Inv id generation now none c h running = h
  expire_entry-Inv id generation now (some x) c h running =
      elim (Bool-cases (x.generation == generation)) [
        | inr b ↦ rw (b, expire_entry) h
        | inl b ↦ elim (Bool-cases (after x.expires_at now)) [
          | inl a ↦
              rw (b, expire_entry, a)
                (schedule-Inv token_of expires_of id now _
                  (timers-Inv token_of (delete c.expiry_timers id) c.next_timer_id c h))
          | inr a ↦ rw (b, expire_entry, a) (begin_disable-Inv token_of id c h running)
        ]
      ]

  pub expire_token-Inv :
      (id : String) (generation : ℕ) (now : Time) (c : TokenConnections)
      → Inv token_of c
      → Inv token_of (expire_token token_of expires_of id generation now c).0
  unfolding expire_token
  expire_token-Inv id generation now c h = elim (Bool-cases c.stopped) [
    | inl b ↦ simp (b, expire_token) h
    | inr b ↦
        simp (b, expire_token) (expire_entry-Inv id generation now (get c.expiry_timers id) c h b)
  ]
