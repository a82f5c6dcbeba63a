-- ===== src/TokenConnections/Stopped.antt =====
-- The end of completeStop of internal/opamp/token_connections.go, and the disablings and removals it
-- has waited for.
use otel_magnify.Prelude.{
  ℕ, ◌≡◌, refl, true, false, ◌&&◌, some, List, [], ◌∷◌, all, String, string_eq, nat_eq, arith,
  eq_iff, Bool-cases, Option-cases, inl, inr,
}
use otel_magnify.Prelude.Dict.{Dict, get}
use otel_magnify.TokenConnections.Sets.{keys, values}
use otel_magnify.TokenConnections.{
  RemoveState, Progress, draining, notified, awaiting, finished, DisableState, StopState,
  TokenConnections, register_all,
}
use otel_magnify.TokenConnections.Shutdown.{
  is_idle, unfinished, is_done, notify, is_disable_finished, all_done, start_stop, begin_stop,
  stop_entry, advance_stop,
}
use otel_magnify.TokenConnections.Registering.{
  Registered, removal_drains, drains, register_all-Frame,
}
use otel_magnify.TokenConnections.Invariant.{
  Inv, elem_id, is_unfinished, entry_unfinished, is_undone, state_undone, Stopping,
}
use otel_magnify.TokenConnections.Refusing.{Kept}
use otel_magnify.TokenConnections.Stopping.{Settling-Stopping, complete_all-Settling}

elem-unfinished :
    (ds : Dict String DisableState) (id : String)
    → entry_unfinished (get ds id) ≡ true
    → elem_id id (unfinished ds) ≡ true
unfolding entry_unfinished get elem_id unfinished
elem-unfinished [] id h = ground (arith, h)
elem-unfinished ((k, d) ∷ ds) id h = ground (arith, h, elem-unfinished ds id, eq_iff k id)

all-finished :
    (c : TokenConnections) (ids : List String) (id : String)
    → all (is_disable_finished c) ids ≡ true
    → elem_id id ids ≡ true
    → is_unfinished c id ≡ false
unfolding elem_id is_disable_finished is_unfinished entry_unfinished
all-finished c [] id a e = ground (arith, e)
all-finished c (x ∷ ids) id a e = ground (arith, a, e, all-finished c ids id, eq_iff x id)

all_done-get :
    (states : Dict ℕ RemoveState) (r : ℕ)
    → all_done states ≡ true
    → state_undone (get states r) ≡ false
unfolding all_done state_undone get
all_done-get [] r h = refl
all_done-get ((k, rs) ∷ states) r h = ground (arith, h, all_done-get states r)

-- Before the stop there is nothing to show, and afterwards nothing is admitted.
pub Admitted-Stopping :
    (token_of : ℕ → String) (c d : TokenConnections)
    → Inv token_of c
    → Kept c d
    → (c.stopped ≡ true → d ≡ c)
    → Stopping c
    → Stopping d
Admitted-Stopping token_of c d i k same h = elim (Bool-cases c.stopped) [
  | inl b ↦ rw (same b) h
  | inr b ↦ record {
    knows = λ st id e u. ground (arith, e, k.stop_state, i.not_stopping b);
    rests = λ st id e p. ground (arith, e, k.stop_state, i.not_stopping b);
    removed = λ st r e p. ground (arith, e, k.stop_state, i.not_stopping b);
  }
]

put_stop-Stopping :
    (st new : StopState) (calls : List (List ℕ)) (c : TokenConnections)
    → c.stop_state ≡ some st
    → new.disables ≡ st.disables
    → (new.progress ≡ finished
        → ((id : String) → is_unfinished c id ≡ false) × ((r : ℕ) → is_undone c r ≡ false))
    → Stopping c
    → Stopping (record c { stop_state = some new; disabled = calls })
unfolding is_unfinished is_undone
put_stop-Stopping st new calls c e same over h = record {
  knows = λ t id f u. ground (arith, f, u, e, same, h.knows st id e);
  rests = λ t id f p. (over (ground (arith, f, p))).0 id;
  removed = λ t r f p. (over (ground (arith, f, p))).1 r;
}

stop_entry-Stopping :
    (st : StopState) (p : Progress) (c : TokenConnections)
    → c.stop_state ≡ some st
    → Stopping c
    → Stopping (stop_entry st p c)
unfolding stop_entry is_undone
stop_entry-Stopping st draining c e h = elim (Bool-cases (is_idle c st.active)) [
  | inl b ↦
      rw (b, stop_entry)
        (put_stop-Stopping st (record st { progress = notified }) (notify st.active c.disabled) c e
          refl (λ f. ground (arith, f)) h)
  | inr b ↦ rw (b, stop_entry) h
]
stop_entry-Stopping st notified c e h =
    Settling-Stopping _ _ (complete_all-Settling st.owned_removals _) (
      put_stop-Stopping st (record st { progress = awaiting }) c.disabled c e refl
        (λ f. ground (arith, f)) h)
stop_entry-Stopping st awaiting c e h =
    elim (Bool-cases (
      all (is_done c) st.removals
      && all (is_disable_finished c) st.disables
      && all_done c.remove_states)) [
        | inl b ↦
            rw (b, stop_entry)
              (put_stop-Stopping st (record st { progress = finished }) c.disabled c e refl
                (λ f. (
                  λ id. ground (arith, b, h.knows st id e, all-finished c st.disables id),
                  λ r. all_done-get c.remove_states r (ground (arith, b)),
                ))
                h)
        | inr b ↦ rw (b, stop_entry) h
      ]
stop_entry-Stopping st finished c e h = h

pub advance_stop-Stopping : (c : TokenConnections) → Stopping c → Stopping (advance_stop c)
unfolding advance_stop
advance_stop-Stopping c h = elim (Option-cases c.stop_state) [
  | inl n ↦ simp (n, advance_stop) h
  | inr (st, e) ↦ simp (e, advance_stop) (stop_entry-Stopping st st.progress c e h)
]

stopped-Stopping :
    (c d : TokenConnections) (st : StopState)
    → d.disable_states ≡ c.disable_states
    → st.disables ≡ unfinished c.disable_states
    → st.progress ≡ draining
    → Stopping (record d {
      stopped = true;
      stop_state = some st;
      sessions = [];
      sessions_by_id = [];
      expiry_timers = [];
    })
unfolding is_unfinished
stopped-Stopping c d st same knows starts = record {
  knows = λ t id e u. ground (arith, e, u, same, knows, elem-unfinished c.disable_states id);
  rests = λ t id e p. ground (arith, e, p, starts);
  removed = λ t r e p. ground (arith, e, p, starts);
}

pub begin_stop-Stopping :
    (token_of : ℕ → String) (c : TokenConnections) → Stopping c → Stopping (begin_stop token_of c)
unfolding begin_stop start_stop
begin_stop-Stopping token_of c h = elim (Option-cases c.stop_state) [
  | inr (st, e) ↦ simp (e, begin_stop) h
  | inl n ↦
      let active = keys c.sessions in
      let d = (register_all token_of false active [] [] c).0 in
      simp (n, begin_stop)
        (stopped-Stopping c d
          (record {
            sessions = keys d.removals;
            active = active;
            owned_removals = (register_all token_of false active [] [] c).2;
            removals = values d.removals;
            disables = unfinished c.disable_states;
            progress = draining;
          })
          (register_all-Frame token_of false active [] [] c).disable_states refl refl)
]

pub undone-drains :
    (token_of : ℕ → String) (c : TokenConnections) (s : ℕ)
    → Registered token_of c
    → ((r : ℕ) → is_undone c r ≡ false)
    → removal_drains c s ≡ false
unfolding removal_drains drains is_undone state_undone
undone-drains token_of c s g h = elim (Option-cases (get c.removals s)) [
  | inl n ↦ rw (n, removal_drains) refl
  | inr (r, e) ↦ elim (Option-cases (get c.remove_states r)) [
    | inl n ↦ rw (e, removal_drains, n) refl
    | inr (rs, f) ↦ ground (arith, e, f, h r, g.done_drained r rs f)
  ]
]
