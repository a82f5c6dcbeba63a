-- ===== src/TokenConnections/Disabling.antt =====
-- The timers, the leases and beginDisableLocked of internal/opamp/token_connections.go, and the leases
-- that are waited for.
use otel_magnify.Prelude.{
  ◌∙◌, ℕ, ◌≡◌, refl, true, false, not, ◌&&◌, ◌||◌, Option, none, some, List, [], ◌∷◌, ◌++◌, String,
  ◌==◌, string_eq, nat_eq, arith, eq_iff, nat_beq_iff, Bool-cases, inl, inr,
}
use otel_magnify.Prelude.Dict.{Dict, get, put, delete, get-put, get-delete, get-empty}
use otel_magnify.Prelude.Clock.{Time}
use otel_magnify.TokenConnections.Sets.{
  has, keys, elem, members, members-delete, elem-keys, elem-append, not_removing, values,
}
use otel_magnify.TokenConnections.{
  draining, DisableState, ExpiryTimer, TokenConnections, is_tracked, is_disabled, schedule_expiry,
  reschedule, arm_expiry, start_disable, begin_disable, earliest, lend, release, disable,
  register_all,
}
use otel_magnify.TokenConnections.Registering.{
  drains, removal_drains, Registered, Frame, register_all-Registered, register_all-drains,
  register_all-Frame, register_all-tracked, Registered-same,
}
use otel_magnify.TokenConnections.Invariant.{
  Inv, covered, disable_waits, entry_waits, stop_waits, state_waits, is_draining,
}

elem-not_removing :
    (removing : Dict ℕ ℕ) (ss : List ℕ) (u : ℕ)
    → elem u (not_removing removing ss) ≡ (elem u ss && not (has removing u))
unfolding elem not_removing
elem-not_removing removing [] u = refl
elem-not_removing removing (s ∷ ss) u =
    ground (arith, elem-not_removing removing ss u, nat_beq_iff s u)

module _ (token_of : ℕ → String) where
  -- The timers play no part in the invariant.
  pub timers-Inv :
      (timers : Dict String ExpiryTimer) (next : ℕ) (c : TokenConnections)
      → Inv token_of c
      → Inv token_of (record c { expiry_timers = timers; next_timer_id = next })
  unfolding covered
  timers-Inv timers next c h = record {
    registered = Registered-same token_of c _ refl refl refl refl h.registered;
    covers = h.covers;
    enabled = h.enabled;
    halted = h.halted;
    indexed = h.indexed;
    of_token = h.of_token;
    not_stopping = h.not_stopping;
  }

  reschedule-Inv :
      (id : String) (now : Time) (e : Option Time) (current : Option ExpiryTimer)
      (c : TokenConnections)
      → Inv token_of c
      → Inv token_of (reschedule id now e current c)
  unfolding reschedule arm_expiry
  reschedule-Inv id now none none c h = h
  reschedule-Inv id now none (some x) c h =
      timers-Inv (delete c.expiry_timers id) c.next_timer_id c h
  reschedule-Inv id now (some t) none c h = timers-Inv _ _ c h
  reschedule-Inv id now (some t) (some x) c h = elim (Bool-cases (x.expires_at == t)) [
    | inl b ↦ rw b h
    | inr b ↦ rw b (timers-Inv _ _ c h)
  ]

  pub schedule-Inv :
      (expires_of : ℕ → Option Time) (id : String) (now : Time) (c : TokenConnections)
      → Inv token_of c
      → Inv token_of (schedule_expiry expires_of id now c)
  unfolding schedule_expiry
  schedule-Inv expires_of id now c h =
      reschedule-Inv id now (earliest expires_of (keys (members c.sessions_by_id id)) none)
        (get c.expiry_timers id) c h

  pub lend-Inv :
      (s : ℕ) (c : TokenConnections)
      → Inv token_of c
      → is_tracked c s ≡ true
      → Inv token_of (lend s c).0
  unfolding lend covered
  lend-Inv s c h t = record {
    registered = Registered-same token_of c _ refl refl refl refl h.registered;
    covers =
        λ l u e. ground (arith, h.covers l u, h.enabled s t, get-put c.leases c.next_lease l s);
    enabled = h.enabled;
    halted = h.halted;
    indexed = h.indexed;
    of_token = h.of_token;
    not_stopping = h.not_stopping;
  }

  pub release-Inv : (l : ℕ) (c : TokenConnections) → Inv token_of c → Inv token_of (release l c)
  unfolding release covered
  release-Inv l c h = record {
    registered = Registered-same token_of c _ refl refl refl refl h.registered;
    covers = λ m u e. ground (arith, h.covers m u, get-delete c.leases l m);
    enabled = h.enabled;
    halted = h.halted;
    indexed = h.indexed;
    of_token = h.of_token;
    not_stopping = h.not_stopping;
  }

  disabled-Inv :
      (id : String) (c d : TokenConnections) (ds : DisableState) (timers : Dict String ExpiryTimer)
      → Inv token_of c
      → c.stopped ≡ false
      → is_disabled c id ≡ false
      → Frame c d
      → Registered token_of d
      → ((u : ℕ) → is_tracked d u ≡ (is_tracked c u && not (has (members c.sessions_by_id id) u)))
      → ((u : ℕ) → removal_drains c u ≡ true → removal_drains d u ≡ true)
      → ds.progress ≡ draining
      → ((u : ℕ)
          → elem u ds.sessions
            ≡ (has (members c.removals_by_id id) u || has (members c.sessions_by_id id) u))
      → Inv token_of (record d {
        expiry_timers = timers;
        sessions_by_id = delete c.sessions_by_id id;
        disable_states = put c.disable_states id ds;
      })
  unfolding covered disable_waits entry_waits stop_waits state_waits is_draining is_disabled
      is_tracked has removal_drains drains
  disabled-Inv id c d ds timers h running fresh f registered tracked keeps starts waits = record {
    registered = Registered-same token_of d _ refl refl refl refl registered;
    covers = λ l u e. ground (
      arith,
      e,
      f.leases,
      f.disable_states,
      f.stop_state,
      h.covers l u,
      h.enabled u,
      h.indexed u,
      h.of_token id u,
      h.registered.listed u,
      h.not_stopping running,
      tracked u,
      keeps u,
      starts,
      waits u,
      get-put c.disable_states id (token_of u) ds,
      eq_iff id (token_of u),
    );
    enabled = λ u e. ground (
      arith,
      tracked u,
      e,
      h.enabled u,
      h.indexed u,
      get-put c.disable_states id (token_of u) ds,
      eq_iff id (token_of u),
    );
    halted = λ u e. ground (arith, tracked u, f.stopped, running);
    indexed = λ u e. ground (
      arith,
      tracked u,
      e,
      h.indexed u,
      members-delete c.sessions_by_id id (token_of u),
      eq_iff id (token_of u),
    );
    of_token = λ j u e. ground (
      arith,
      h.of_token j u,
      members-delete c.sessions_by_id id j,
      get-empty {K = ℕ} {V = Unit {0}} u,
    );
    not_stopping = λ e. f.stop_state ∙ h.not_stopping running;
  }

  start_disable-Inv :
      (id : String) (c : TokenConnections)
      → Inv token_of c
      → c.stopped ≡ false
      → is_disabled c id ≡ false
      → Inv token_of (start_disable token_of id c)
  unfolding start_disable
  start_disable-Inv id c h running fresh =
      let removing = members c.removals_by_id id in
      let ss = keys (members c.sessions_by_id id) in
      let d = (register_all token_of true ss (values removing) [] c).0 in
      disabled-Inv id c d
        (record {
          sessions = keys removing ++ not_removing removing ss;
          removals = (register_all token_of true ss (values removing) [] c).1;
          owned_removals = (register_all token_of true ss (values removing) [] c).2;
          progress = draining;
        })
        (delete c.expiry_timers id) h running fresh
        (register_all-Frame token_of true ss (values removing) [] c)
        (register_all-Registered token_of true ss (values removing) [] c h.registered)
        (λ u. ground (
          arith,
          register_all-tracked token_of ss (values removing) [] c u,
          elem-keys (members c.sessions_by_id id) u,
        ))
        (λ u k. register_all-drains token_of true ss (values removing) [] c u h.registered k) refl
        (λ u. ground (
          arith,
          elem-append u (keys removing) (not_removing removing ss),
          elem-not_removing removing ss u,
          elem-keys removing u,
          elem-keys (members c.sessions_by_id id) u,
        ))

  pub begin_disable-Inv :
      (id : String) (c : TokenConnections)
      → Inv token_of c
      → c.stopped ≡ false
      → Inv token_of (begin_disable token_of id c).0
  unfolding begin_disable
  begin_disable-Inv id c h running = elim (Bool-cases (is_disabled c id)) [
    | inl b ↦ rw (b, begin_disable) h
    | inr b ↦ rw (b, begin_disable) (start_disable-Inv id c h running b)
  ]

  pub disable-Inv :
      (id : String) (c : TokenConnections) → Inv token_of c → Inv token_of (disable token_of id c).0
  unfolding disable
  disable-Inv id c h = elim (Bool-cases c.stopped) [
    | inl b ↦ simp (b, disable) h
    | inr b ↦ simp (b, disable) (begin_disable-Inv id c h b)
  ]
