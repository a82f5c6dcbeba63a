-- ===== src/Grace/Invariant.antt =====
-- The timers map lists under a key a timer of that key whose function has not started.
use otel_magnify.Prelude.{
  ℕ, ◌+◌, ◌%◌, ◌^◌, ◌≡◌, refl, Bool, true, false, none, some, ◌==◌, nat_eq, string_eq, arith,
  if◌then◌else◌, Option-cases, Bool-cases, inl, inr, nat_beq_iff, eq_iff, eq_refl, String,
}
use otel_magnify.Prelude.Dict.{get, delete, get-put, get-delete}
use otel_magnify.Grace.{
  Phase, armed, fired, running, finished, GraceTimer, GraceController, new_grace_controller,
  stop_timer, cancel, arm, schedule,
}
use otel_magnify.Grace.Heap.{
  HeapInv, after_stop, heap-stop_timer, stop_timer-HeapInv, relist-HeapInv, arm-HeapInv,
  stop_timer-SameLinks,
}

abbrev pub is_pending : Phase → Bool
is_pending armed = true
is_pending fired = true
is_pending running = false
is_pending finished = false

-- A timer that the map lists under a key is that key's, and has not run.
abbrev pub ListedOk : GraceController → String → ℕ → Type 0
ListedOk c key p =
    (e : GraceTimer) × (get c.heap p ≡ some e) × (e.key ≡ key) × (is_pending e.phase ≡ true)

pub record Inv (c : GraceController) : Type 0 where
  pub heap : HeapInv c
  pub listed : (key : String) (p : ℕ) → get c.timers key ≡ some p → ListedOk c key p
  pub armed_listed :
      (p : ℕ) (e : GraceTimer)
      → get c.heap p ≡ some e
      → e.phase ≡ armed
      → get c.timers e.key ≡ some p
  pub stopped_empty : c.stopped ≡ true → (key : String) → get c.timers key ≡ none

pub new-Inv : Inv new_grace_controller
unfolding new_grace_controller get
new-Inv = record {
  heap = record { maps = tt; below = λ p e h. cc; counted = refl };
  listed = λ key p h. cc;
  armed_listed = λ p e h k. cc;
  stopped_empty = λ h key. refl;
}

-- `Cancel` at a listed key: the key is dropped, and its timer stopped.
module _ {c : GraceController} (v : Inv c) (key : String) (p : ℕ)
    (here : get c.timers key ≡ some p) where
  abbrev dropped : GraceController
  dropped = stop_timer p (record c { timers = delete c.timers key })

  timers-dropped : (k : String) → get dropped.timers k ≡ (if key == k then none else get c.timers k)
  timers-dropped k = rw (stop_timer-SameLinks _ _).timers (get-delete c.timers key k)

  heap-dropped :
      (q : ℕ) → get dropped.heap q ≡ (if p == q then after_stop (get c.heap q) else get c.heap q)
  heap-dropped q = heap-stop_timer p (record c { timers = delete c.timers key }) q

  dropped-listed : (k : String) (q : ℕ) → get dropped.timers k ≡ some q → ListedOk dropped k q
  dropped-listed k q h =
      let (e, f, ek, ep) = v.listed k q (ground (arith, timers-dropped k)) in
      (
        e,
        ground (
          arith,
          heap-dropped q,
          timers-dropped k,
          v.listed key p here,
          nat_beq_iff p q,
          eq_iff key k,
        ),
        ek,
        ep,
      )

  dropped-armed :
      (q : ℕ) (e : GraceTimer)
      → get dropped.heap q ≡ some e
      → e.phase ≡ armed
      → get dropped.timers e.key ≡ some q
  unfolding after_stop
  dropped-armed q e h a = ground (
    arith,
    heap-dropped q,
    timers-dropped e.key,
    v.armed_listed q e,
    nat_beq_iff p q,
    eq_iff key e.key,
  )

  dropped-Inv : Inv dropped
  dropped-Inv = record {
    heap = stop_timer-HeapInv (relist-HeapInv v.heap refl refl refl) p;
    listed = dropped-listed;
    armed_listed = dropped-armed;
    stopped_empty = λ h k. ground (
      arith,
      timers-dropped k,
      stop_timer-SameLinks p (record c { timers = delete c.timers key }),
      v.stopped_empty _ k,
    );
  }

pub cancel-Inv : {c : GraceController} → Inv c → (key : String) → Inv (cancel key c)
unfolding cancel
cancel-Inv {c} v key = elim (Option-cases (get c.timers key)) [
  | inl e ↦ rw (e, cancel) v
  | inr (p, e) ↦ rw (e, cancel) (dropped-Inv v key p e)
]

-- After `Cancel` nothing is listed under the key, and the other keys are as before.
pub timers-cancel :
    (c : GraceController) (key k : String)
    → get (cancel key c).timers k ≡ (if key == k then none else get c.timers k)
unfolding cancel
timers-cancel c key k = elim (Option-cases (get c.timers key)) [
  | inl e ↦ rw (e, cancel) (ground (arith, eq_iff key k))
  | inr (p, e) ↦ rw (e, cancel) (rw (stop_timer-SameLinks _ _).timers (get-delete c.timers key k))
]

pub stopped-cancel : (c : GraceController) (key : String) → (cancel key c).stopped ≡ c.stopped
unfolding cancel
stopped-cancel c key = elim (Option-cases (get c.timers key)) [
  | inl e ↦ rw (e, cancel)
  | inr (p, e) ↦ rw (e, cancel) (rw (stop_timer-SameLinks _ _).stopped)
]

module _ {c : GraceController} (v : Inv c) (key : String) (free : get c.timers key ≡ none)
    (on : c.stopped ≡ false) where
  abbrev new_timer : GraceTimer
  new_timer = record { key = key; id = (c.next_id + 1) % 2 ^ 64; phase = armed }

  arm-Inv : Inv (arm key c)
  unfolding arm
  arm-Inv = record {
    heap = arm-HeapInv key v.heap;
    listed = λ k q h. elim (Bool-cases (key == k)) [
      | inl same ↦ (
        new_timer,
        ground (
          arith,
          get-put c.heap c.allocated q new_timer,
          get-put c.timers key k c.allocated,
          nat_beq_iff c.allocated q,
        ),
        (eq_iff key k).0 same,
        refl,
      )
      | inr other ↦
          let (e, f, ek, ep) = v.listed k q (ground (arith, get-put c.timers key k c.allocated)) in
          (
            e,
            ground (
              arith,
              get-put c.heap c.allocated q new_timer,
              v.heap.below q e f,
              nat_beq_iff c.allocated q,
            ),
            ek,
            ep,
          )
    ];
    armed_listed = λ q e h a. ground (
      arith,
      get-put c.heap c.allocated q new_timer,
      get-put c.timers key e.key c.allocated,
      v.armed_listed q e,
      nat_beq_iff c.allocated q,
      eq_iff key e.key,
    );
    stopped_empty = λ h k. cc;
  }

pub schedule_stopped : (c : GraceController) (key : String) → c.stopped ≡ true → schedule key c ≡ c
unfolding schedule
schedule_stopped c key h = simp h

pub schedule_open :
    (c : GraceController) (key : String)
    → c.stopped ≡ false
    → schedule key c ≡ arm key (cancel key c)
unfolding schedule
schedule_open c key h = simp h

pub schedule-Inv : {c : GraceController} → Inv c → (key : String) → Inv (schedule key c)
schedule-Inv {c} v key = elim (Bool-cases c.stopped) [
  | inl e ↦ rw (schedule_stopped c key e) v
  | inr e ↦
      rw (schedule_open c key e)
        (arm-Inv (cancel-Inv v key) key (rw (timers-cancel, eq_refl key)) (rw stopped-cancel e))
]
