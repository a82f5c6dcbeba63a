-- ===== src/Grace/Stop.antt =====
-- `Stop`, and what every sequence of steps keeps.
use otel_magnify.Prelude.{
  ℕ, ◌≡◌, ◌≢◌, refl, true, false, some, List, [], ◌∷◌, ◌==◌, nat_eq, string_eq, arith, Bool-cases,
  inl, inr, nat_beq_iff, String, any,
}
use otel_magnify.Prelude.Dict.{Dict, get, get-any, get-empty}
use otel_magnify.Grace.{
  armed, finished, GraceTimer, GraceController, stop_timer, stop_all, begin_stop, Event, schedules,
  cancels, expires, enters, returns, stops, step, run,
}
use otel_magnify.Grace.Heap.{
  halt, after_stop, heap-stop_timer, relist-HeapInv, stop_all-HeapInv, SameLinks,
  stop_all-SameLinks,
}
use otel_magnify.Prelude.Dict.Count.{count_values}
use otel_magnify.Grace.{stop_returns}
use otel_magnify.Grace.Heap.{unfinished}
use otel_magnify.Grace.Invariant.{Inv, cancel-Inv, schedule-Inv}
use otel_magnify.Grace.Phases.{expire-Inv, enter-Inv, return-Inv}

stop_armed :
    (ts : Dict String ℕ) (c : GraceController) (q : ℕ) (e : GraceTimer)
    → get (stop_all ts c).heap q ≡ some e
    → e.phase ≡ armed
    → (get c.heap q ≡ some e) × (any (λ (x : String × ℕ). x.1 == q) ts ≡ false)
unfolding stop_all after_stop halt
stop_armed [] c q e h a = (h, refl)
stop_armed ((k, p) ∷ ts) c q e h a =
    let (g, out) = stop_armed ts (stop_timer p c) q e h a in
    (ground (arith, heap-stop_timer p c q), ground (arith, heap-stop_timer p c q))

-- No timer is armed after the loop over the whole map.
no_armed :
    {c : GraceController}
    → Inv c
    → (d : GraceController) → d.heap ≡ c.heap
    → (q : ℕ) (e : GraceTimer) → get (stop_all c.timers d).heap q ≡ some e
    → e.phase ≢ armed
no_armed {c} v d same q e h = λ a.
    let (g, out) = stop_armed c.timers d q e h a in
    ground (arith, get-any (λ p. p == q) c.timers e.key q, v.armed_listed q e, nat_beq_iff q q)

pub stop_open :
    (c : GraceController)
    → c.stopped ≡ false
    → begin_stop c ≡ stop_all c.timers (record c { stopped = true; timers = [] })
unfolding begin_stop
stop_open c h = simp h

pub stop_again : (c : GraceController) → c.stopped ≡ true → begin_stop c ≡ c
unfolding begin_stop
stop_again c h = simp h

pub begin_stop-Inv : {c : GraceController} → Inv c → Inv (begin_stop c)
begin_stop-Inv {c} v = elim (Bool-cases c.stopped) [
  | inl e ↦ rw (stop_again c e) v
  | inr e ↦ rw (stop_open c e) stopped_state
]
  where
    bare : GraceController
    bare = record c { stopped = true; timers = [] }

    links : SameLinks bare (stop_all c.timers bare)
    links = stop_all-SameLinks c.timers bare

    none_listed : (k : String) (q : ℕ) → get (stop_all c.timers bare).timers k ≢ some q
    none_listed k q = rw (links.timers, get-empty k) (λ h. cc)

    stopped_state : Inv (stop_all c.timers bare)
    stopped_state = record {
      heap = stop_all-HeapInv c.timers (relist-HeapInv v.heap refl refl refl);
      listed = λ k q h. absurd (none_listed k q h);
      armed_listed = λ q e h a. absurd (no_armed v bare refl q e h a);
      stopped_empty = λ h k. rw links.timers (get-empty k);
    }

pub step-Inv : (e : Event) {c : GraceController} → Inv c → Inv (step e c)
unfolding step
step-Inv (schedules key) v = schedule-Inv v key
step-Inv (cancels key) v = cancel-Inv v key
step-Inv (expires p) v = expire-Inv v p
step-Inv (enters p) v = enter-Inv v p
step-Inv (returns p) v = return-Inv v p
step-Inv stops v = begin_stop-Inv v

-- After any events in any order, from a controller where it holds: the map lists under a key a timer
-- of that key whose function has not started, every armed timer is the one listed under its key, a
-- stopped controller lists none, and the wait group is the number of timers not finished.
pub run-Inv : (es : List Event) {c : GraceController} → Inv c → Inv (run es c)
unfolding run
run-Inv [] v = v
run-Inv (e ∷ es) v = run-Inv es (step-Inv e v)

none_unfinished :
    (d : Dict ℕ GraceTimer)
    → count_values unfinished d ≡ 0
    → (p : ℕ) (e : GraceTimer) → get d p ≡ some e
    → e.phase ≡ finished
unfolding get
none_unfinished [] h p e g = cc
none_unfinished ((q, f) ∷ d) h p e g = ground (arith, none_unfinished d _ p e)

-- `Stop` returns, its channel closed, only when every timer that was ever armed is finished: no
-- function is running, and none will run.
pub stop_returns-finished :
    (es : List Event) {c : GraceController}
    → Inv c
    → stop_returns (run es c) ≡ true
    → (p : ℕ) (e : GraceTimer) → get (run es c).heap p ≡ some e
    → e.phase ≡ finished
unfolding stop_returns
stop_returns-finished es {c} v h p e g =
    none_unfinished (run es c).heap (ground (arith, (run-Inv es v).heap.counted)) p e g
