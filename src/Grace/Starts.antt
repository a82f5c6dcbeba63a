-- ===== src/Grace/Starts.antt =====
-- A timer of internal/opamp/grace.go that is left alone starts its function.
use otel_magnify.Prelude.{
  ℕ, ◌≡◌, ◌≢◌, inl, inr, refl, true, false, not, ◌&&◌, some, none, List, [], ◌∷◌, nat_eq, string_eq,
  arith, Bool-cases, Option-cases, nat_beq_iff, eq_iff, eq_refl, String, All,
}
use otel_magnify.Prelude.Dict.{get, get-put, get-delete}
use otel_magnify.Grace.{
  Phase, armed, fired, running, finished, enter, enter_entry, expire, expire_entry, finish, arm,
  is_current, GraceTimer, GraceController, new_grace_controller, Event, schedules, cancels, expires,
  enters, returns, stops, schedule, cancel, step, run,
}
use otel_magnify.Grace.Invariant.{
  Inv, new-Inv, is_pending, timers-cancel, stopped-cancel, schedule_open, schedule-Inv,
}
use otel_magnify.Grace.Phases.{is_current_iff}
use otel_magnify.Grace.Stop.{run-Inv}
use otel_magnify.Grace.Effects.{cancel_effect, expire-SameLinks, return-SameLinks}
use otel_magnify.Grace.Callbacks.{starts, AtMostOnce, step-AtMostOnce, run-AtMostOnce}

-- An event that is no call of `Schedule` or `Cancel` with the key, no `Stop`, and not the callback of
-- the timer.
abbrev pub Leaves : String → ℕ → Event → Type 0
Leaves key p (schedules k) = k ≢ key
Leaves key p (cancels k) = k ≢ key
Leaves key p (expires q) = Unit
Leaves key p (enters q) = q ≢ p
Leaves key p (returns q) = Unit
Leaves key p stops = ⊥

-- The key names the timer, and the controller is not stopped.
record Waits (key : String) (p : ℕ) (c : GraceController) : Type 0 where
  pub current : get c.timers key ≡ some p
  pub on : c.stopped ≡ false

schedule-Waits :
    (key : String) (c : GraceController)
    → c.stopped ≡ false
    → Waits key c.allocated (schedule key c)
unfolding arm
schedule-Waits key c on = rw (schedule_open c key on) (record {
  current = ground (
    arith,
    get-put (cancel key c).timers key key (cancel key c).allocated,
    (cancel_effect key c).1,
    eq_refl key,
  );
  on = rw stopped-cancel on;
})

enter_entry-Waits :
    (key : String) (p q : ℕ) (e : GraceTimer) (ph : Phase) (c : GraceController)
    → get c.heap q ≡ some e
    → q ≢ p
    → Waits key p c
    → Waits key p (enter_entry q e ph c)
unfolding enter_entry finish
enter_entry-Waits key p q e fired c here other w =
    elim (Bool-cases (not c.stopped && is_current (get c.timers e.key) q e c)) [
      | inl t ↦ rw t (record {
        current = ground (
          arith,
          (is_current_iff c q e here (get c.timers e.key)).0 (ground arith),
          get-delete c.timers e.key key,
          w.current,
          eq_iff e.key key,
        );
        on = w.on;
      })
      | inr t ↦ rw t (record { current = w.current; on = w.on })
    ]
enter_entry-Waits key p q e armed c here other w = w
enter_entry-Waits key p q e running c here other w = w
enter_entry-Waits key p q e finished c here other w = w

step-Waits :
    (e : Event) (key : String) (p : ℕ) (c : GraceController)
    → Leaves key p e
    → Waits key p c
    → Waits key p (step e c)
unfolding step arm enter
step-Waits (schedules k) key p c h w = rw (schedule_open c k w.on) (record {
  current = ground (
    arith,
    get-put (cancel k c).timers k key (cancel k c).allocated,
    timers-cancel c k key,
    w.current,
    eq_iff k key,
  );
  on = rw stopped-cancel w.on;
})
step-Waits (cancels k) key p c h w = record {
  current = ground (arith, timers-cancel c k key, w.current, eq_iff k key);
  on = rw stopped-cancel w.on;
}
step-Waits (expires q) key p c h w = record {
  current = rw (expire-SameLinks q c).timers w.current;
  on = rw (expire-SameLinks q c).stopped w.on;
}
step-Waits (enters q) key p c h w = elim (Option-cases (get c.heap q)) [
  | inl e ↦ rw (e, enter) w
  | inr (e, g) ↦ rw (g, enter) (enter_entry-Waits key p q e e.phase c g h w)
]
step-Waits (returns q) key p c h w = record {
  current = rw (return-SameLinks q c).timers w.current;
  on = rw (return-SameLinks q c).stopped w.on;
}
step-Waits stops key p c h w = absurd h

run-Waits :
    (es : List Event) (key : String) (p : ℕ) (c : GraceController)
    → All (Leaves key p) es
    → Waits key p c
    → Waits key p (run es c)
unfolding run
run-Waits [] key p c h w = w
run-Waits (e ∷ es) key p c h w = run-Waits es key p (step e c) h.1 (step-Waits e key p c h.0 w)

-- A timer that waits has expired once `expires` came.
expire-fired :
    (c : GraceController) (p : ℕ) (e : GraceTimer)
    → get c.heap p ≡ some e
    → is_pending e.phase ≡ true
    → (f : GraceTimer) × (get (expire p c).heap p ≡ some f) × (f.key ≡ e.key) × (f.phase ≡ fired)
unfolding expire expire_entry
expire-fired c p e here h = rw (here, expire) (go e.phase refl h)
  where
    go :
        (ph : Phase)
        → e.phase ≡ ph
        → is_pending ph ≡ true
        → (f : GraceTimer) × (get (expire_entry p e ph c).heap p ≡ some f)
          × (f.key ≡ e.key)
          × (f.phase ≡ fired)
    go armed q k = (
      record e { phase = fired },
      ground (arith, get-put c.heap p p (record e { phase = fired }), nat_beq_iff p p),
      refl,
      refl,
    )
    go fired q k = (e, here, refl, q)
    go running q k = cc
    go finished q k = cc

-- The callback of a timer that waits and has expired starts its function, and frees the key.
enter-starts :
    (c : GraceController) (p : ℕ) (e : GraceTimer)
    → get c.heap p ≡ some e
    → e.phase ≡ fired
    → Waits e.key p c
    → ((enter p c).begun ≡ p ∷ c.begun) × (get (enter p c).timers e.key ≡ none)
unfolding enter enter_entry
enter-starts c p e here f w = ground (
  arith,
  here,
  w.current,
  w.on,
  is_current_iff c p e here (get c.timers e.key),
  get-delete c.timers e.key e.key,
  eq_refl e.key,
)

waiting-starts :
    (c : GraceController) (key : String) (p : ℕ)
    → Inv c
    → Waits key p c
    → ((run (expires p ∷ enters p ∷ []) c).begun ≡ p ∷ c.begun)
      × (get (run (expires p ∷ enters p ∷ []) c).timers key ≡ none)
unfolding run step
waiting-starts c key p v w =
    let (e, here, ek, ph) = v.listed key p w.current in
    let (f, there, fk, fp) = expire-fired c p e here ph in
    let links = expire-SameLinks p c in
    let k : f.key ≡ key = ground (arith, ek, fk) in
    let (b, t) =
      enter-starts (expire p c) p f there fp
        (rw k (record { current = rw links.timers w.current; on = rw links.stopped w.on })) in
    (ground (arith, b, links.begun), rw k at t)

never_started :
    (c : GraceController) (key : String) (p : ℕ)
    → AtMostOnce c p
    → get c.timers key ≡ some p
    → starts p c ≡ 0
never_started c key p (inl n) h = n
never_started c key p (inr (n, d)) h = absurd (d.unlisted key h)

scheduled-AtMostOnce :
    (before : List Event) (key : String) (p : ℕ)
    → AtMostOnce (schedule key (run before new_grace_controller)) p
unfolding step
scheduled-AtMostOnce before key p =
    step-AtMostOnce (schedules key) (run-Inv before new-Inv) p
      (run-AtMostOnce before new-Inv (λ q. inl (unfold new_grace_controller in refl)) p)

-- On a controller that is not stopped, after any run from a new one, a timer is scheduled for a key.
-- Whatever happens then, but no other call of `Schedule` or `Cancel` with the key, no `Stop` and not
-- yet the timer's callback: once the timer has expired and its callback has the mutex, its function
-- has been started exactly once, and its key is free.
pub scheduled_starts :
    (before es : List Event) (key : String)
    → (run before new_grace_controller).stopped ≡ false
    → All (Leaves key (run before new_grace_controller).allocated) es
    → let c = run before new_grace_controller in
      let d = run (expires c.allocated ∷ enters c.allocated ∷ []) (run es (schedule key c)) in
      (starts c.allocated d ≡ 1) × (get d.timers key ≡ none)
scheduled_starts before es key on h =
    let c = run before new_grace_controller in
    let p = c.allocated in
    let v : Inv (schedule key c) = schedule-Inv (run-Inv before new-Inv) key in
    let u = run es (schedule key c) in
    let w = run-Waits es key p (schedule key c) h (schedule-Waits key c on) in
    let m = run-AtMostOnce es v (scheduled-AtMostOnce before key) p in
    let (b, t) = waiting-starts u key p (run-Inv es v) w in
    (rw b (ground (arith, never_started u key p m w.current, nat_beq_iff p p)), t)
