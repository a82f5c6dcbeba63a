-- ===== src/TokenConnections/Advancing.antt =====
-- The steps of completeDisable, Stop and completeStop of internal/opamp/token_connections.go, and the
-- leases that are waited for; then the sequences of events.
use otel_magnify.Prelude.{
  ℕ, ◌≡◌, refl, true, false, ◌&&◌, Option, none, some, List, [], ◌∷◌, all, String, string_eq,
  nat_eq, arith, eq_iff, Option-cases, Bool-cases, inl, inr,
}
use otel_magnify.Prelude.Dict.{get, put, get-put}
use otel_magnify.Prelude.Clock.{Time}
use otel_magnify.TokenConnections.Sets.{has, keys, elem, values, members, elem-keys}
use otel_magnify.TokenConnections.{
  Progress, draining, notified, awaiting, finished, DisableState, StopState, TokenConnections,
  is_tracked, is_disabled, register_all, new_token_connections,
}
use otel_magnify.TokenConnections.Shutdown.{
  is_held, is_idle, is_done, advance_entry, advance_disable, notify, start_stop, begin_stop,
  stop_entry, advance_stop, unfinished, all_done, is_disable_finished, Event, tracks, acquires,
  removes, forks, releases, completes, drains, finishes, disables, advances, expires, stops,
  advances_stop, step, run,
}
use otel_magnify.TokenConnections.Registering.{
  removal_drains, Registered, Frame, register_all-Registered, register_all-drains,
  register_all-Frame, Registered-same,
}
use otel_magnify.TokenConnections.Invariant.{
  Inv, covered, disable_waits, entry_waits, stop_waits, state_waits, is_draining,
}
use otel_magnify.TokenConnections.Disabling.{release-Inv, disable-Inv}
use otel_magnify.TokenConnections.Admission.{
  track-Inv, acquire-Inv, fork-Inv, remove-Inv, expire_token-Inv,
}
use otel_magnify.TokenConnections.Waiting.{
  lease-held, idle-unheld, complete_all-Inv, complete_remove-Inv, drain_remove-Inv,
  finish_remove-Inv,
}

module _ (token_of : ℕ → String) where
  -- A disabling that stops waiting only for sessions without a lease.
  put_disable-Inv :
      (id : String) (d new : DisableState) (calls : List (List ℕ)) (c : TokenConnections)
      → Inv token_of c
      → get c.disable_states id ≡ some d
      → ((u : ℕ)
          → entry_waits u (some d) ≡ true
          → is_held c u ≡ true
          → entry_waits u (some new) ≡ true)
      → Inv token_of (record c { disable_states = put c.disable_states id new; disabled = calls })
  unfolding covered is_tracked is_disabled disable_waits stop_waits has
  put_disable-Inv id d new calls c h g waits = record {
    registered = Registered-same token_of c _ refl refl refl refl h.registered;
    covers = λ l u e. ground (
      arith,
      e,
      g,
      h.covers l u,
      waits u,
      lease-held c l u e,
      get-put c.disable_states id (token_of u) new,
      eq_iff id (token_of u),
    );
    enabled = λ u e. ground (
      arith,
      e,
      g,
      h.enabled u,
      get-put c.disable_states id (token_of u) new,
      eq_iff id (token_of u),
    );
    halted = h.halted;
    indexed = h.indexed;
    of_token = h.of_token;
    not_stopping = h.not_stopping;
  }

  advance_entry-Inv :
      (id : String) (d : DisableState) (p : Progress) (c : TokenConnections)
      → Inv token_of c
      → get c.disable_states id ≡ some d
      → d.progress ≡ p
      → Inv token_of (advance_entry id d p c)
  unfolding advance_entry entry_waits is_draining
  advance_entry-Inv id d draining c h g e = elim (Bool-cases (is_idle c d.sessions)) [
    | inl b ↦
        rw (b, advance_entry)
          (put_disable-Inv id d (record d { progress = notified }) (notify d.sessions c.disabled) c
            h g (λ u w k. ground (arith, w, k, e, idle-unheld c d.sessions u b)))
    | inr b ↦ rw (b, advance_entry) h
  ]
  advance_entry-Inv id d notified c h g e = complete_all-Inv token_of d.owned_removals _ (
      put_disable-Inv id d (record d { progress = awaiting }) c.disabled c h g
        (λ u w k. ground (arith, w, e)))
  advance_entry-Inv id d awaiting c h g e = elim (Bool-cases (all (is_done c) d.removals)) [
    | inl b ↦
        rw (b, advance_entry)
          (put_disable-Inv id d
            (record { sessions = []; removals = []; owned_removals = []; progress = finished })
            c.disabled c h g (λ u w k. ground (arith, w, e)))
    | inr b ↦ rw (b, advance_entry) h
  ]
  advance_entry-Inv id d finished c h g e = h

  advance_disable-Inv :
      (id : String) (c : TokenConnections) → Inv token_of c → Inv token_of (advance_disable id c)
  unfolding advance_disable
  advance_disable-Inv id c h = elim (Option-cases (get c.disable_states id)) [
    | inl n ↦ rw (n, advance_disable) h
    | inr (d, e) ↦ rw (e, advance_disable) (advance_entry-Inv id d d.progress c h e refl)
  ]

  -- A stop that stops waiting only for sessions without a lease.
  put_stop-Inv :
      (st new : StopState) (calls : List (List ℕ)) (c : TokenConnections)
      → Inv token_of c
      → c.stop_state ≡ some st
      → ((u : ℕ)
          → state_waits u (some st) ≡ true
          → is_held c u ≡ true
          → state_waits u (some new) ≡ true)
      → Inv token_of (record c { stop_state = some new; disabled = calls })
  unfolding covered is_tracked is_disabled disable_waits stop_waits
  put_stop-Inv st new calls c h g waits = record {
    registered = Registered-same token_of c _ refl refl refl refl h.registered;
    covers = λ l u e. ground (arith, e, g, h.covers l u, waits u, lease-held c l u e);
    enabled = h.enabled;
    halted = h.halted;
    indexed = h.indexed;
    of_token = h.of_token;
    not_stopping = λ e. ground (arith, h.not_stopping e, g);
  }

  stop_entry-Inv :
      (st : StopState) (p : Progress) (c : TokenConnections)
      → Inv token_of c
      → c.stop_state ≡ some st
      → st.progress ≡ p
      → Inv token_of (stop_entry st p c)
  unfolding stop_entry state_waits is_draining
  stop_entry-Inv st draining c h g e = elim (Bool-cases (is_idle c st.active)) [
    | inl b ↦
        rw (b, stop_entry)
          (put_stop-Inv st (record st { progress = notified }) (notify st.active c.disabled) c h g
            (λ u w k. ground (arith, w, k, e, idle-unheld c st.active u b)))
    | inr b ↦ rw (b, stop_entry) h
  ]
  stop_entry-Inv st notified c h g e = complete_all-Inv token_of st.owned_removals _ (
      put_stop-Inv st (record st { progress = awaiting }) c.disabled c h g
        (λ u w k. ground (arith, w, e)))
  stop_entry-Inv st awaiting c h g e =
      elim (Bool-cases (
        all (is_done c) st.removals
        && all (is_disable_finished c) st.disables
        && all_done c.remove_states)) [
          | inl b ↦
              rw (b, stop_entry)
                (put_stop-Inv st (record st { progress = finished }) c.disabled c h g
                  (λ u w k. ground (arith, w, e)))
          | inr b ↦ rw (b, stop_entry) h
        ]
  stop_entry-Inv st finished c h g e = h

  advance_stop-Inv : (c : TokenConnections) → Inv token_of c → Inv token_of (advance_stop c)
  unfolding advance_stop
  advance_stop-Inv c h = elim (Option-cases c.stop_state) [
    | inl n ↦ simp (n, advance_stop) h
    | inr (st, e) ↦ simp (e, advance_stop) (stop_entry-Inv st st.progress c h e refl)
  ]

  -- The stop takes over the sessions that were tracked.
  stopped-Inv :
      (c d : TokenConnections) (st : StopState)
      → Inv token_of c
      → c.stop_state ≡ none
      → Frame c d
      → Registered token_of d
      → ((u : ℕ) → removal_drains c u ≡ true → removal_drains d u ≡ true)
      → st.progress ≡ draining
      → ((u : ℕ) → elem u st.active ≡ is_tracked c u)
      → Inv token_of (record d {
        stopped = true;
        stop_state = some st;
        sessions = [];
        sessions_by_id = [];
        expiry_timers = [];
      })
  unfolding covered is_tracked is_disabled disable_waits stop_waits state_waits is_draining has
      removal_drains members get
  stopped-Inv c d st h free f registered keeps starts waits = record {
    registered = Registered-same token_of d _ refl refl refl refl registered;
    covers = λ l u e.
        ground (arith, e, free, f.leases, f.disable_states, h.covers l u, keeps u, starts, waits u);
    enabled = λ u e. ground (arith, e);
    halted = λ u e. refl;
    indexed = λ u e. ground (arith, e);
    of_token = λ j u e. ground (arith, e);
    not_stopping = λ e. ground (arith, e);
  }

  begin_stop-Inv : (c : TokenConnections) → Inv token_of c → Inv token_of (begin_stop token_of c)
  unfolding begin_stop start_stop is_tracked
  begin_stop-Inv c h = elim (Option-cases c.stop_state) [
    | inr (st, e) ↦ simp (e, begin_stop) h
    | inl n ↦
        let active = keys c.sessions in
        let d = (register_all token_of false active [] [] c).0 in
        simp (n, begin_stop)
          (stopped-Inv c d
            (record {
              sessions = keys d.removals;
              active = active;
              owned_removals = (register_all token_of false active [] [] c).2;
              removals = values d.removals;
              disables = unfinished c.disable_states;
              progress = draining;
            })
            h n (register_all-Frame token_of false active [] [] c)
            (register_all-Registered token_of false active [] [] c h.registered)
            (λ u k. register_all-drains token_of false active [] [] c u h.registered k) refl
            (λ u. elem-keys c.sessions u))
  ]

module _ (token_of : ℕ → String) (expires_of : ℕ → Option Time) where
  pub step-Inv :
      (e : Event) (c : TokenConnections)
      → Inv token_of c
      → Inv token_of (step token_of expires_of e c)
  unfolding step
  step-Inv (tracks s now) c h = track-Inv token_of expires_of s now c h
  step-Inv (acquires s now) c h = acquire-Inv token_of expires_of s now c h
  step-Inv (removes s now) c h = remove-Inv token_of expires_of s now c h
  step-Inv (forks s) c h = fork-Inv token_of expires_of s c h
  step-Inv (releases l) c h = release-Inv token_of l c h
  step-Inv (completes s) c h = complete_remove-Inv token_of s c h
  step-Inv (drains r) c h = drain_remove-Inv token_of r c h
  step-Inv (finishes r) c h = finish_remove-Inv token_of r c h
  step-Inv (disables id) c h = disable-Inv token_of id c h
  step-Inv (advances id) c h = advance_disable-Inv token_of id c h
  step-Inv (expires id g now) c h = expire_token-Inv token_of expires_of id g now c h
  step-Inv stops c h = begin_stop-Inv token_of c h
  step-Inv advances_stop c h = advance_stop-Inv token_of c h

  pub run-Inv :
      (es : List Event) (c : TokenConnections)
      → Inv token_of c
      → Inv token_of (run token_of expires_of es c)
  unfolding run
  run-Inv [] c h = h
  run-Inv (e ∷ es) c h = run-Inv es _ (step-Inv e c h)

pub new-Inv : (token_of : ℕ → String) → Inv token_of new_token_connections
unfolding new_token_connections covered is_tracked members has get
new-Inv token_of = record {
  registered = record {
    listed = λ s e. ground (arith, e);
    owner = λ s r rs e f. ground (arith, e);
    bounded = λ s r e. ground (arith, e);
    done_drained = λ r rs e f. ground (arith, e);
  };
  covers = λ l s e. ground (arith, e);
  enabled = λ s e. ground (arith, e);
  halted = λ s e. refl;
  indexed = λ s e. ground (arith, e);
  of_token = λ id s e. ground (arith, e);
  not_stopping = λ e. refl;
}
