-- ===== src/Grace/Heap.antt =====
-- The timers that were ever allocated, and the wait group that counts those not finished.
use otel_magnify.Prelude.{
  ℕ, ◌+◌, ◌<◌, ◌≡◌, refl, Bool, true, false, Option, none, some, [], ◌∷◌, ◌==◌, nat_eq, string_eq,
  arith, inl, inr, not, ◌&&◌, Bool-cases, ◌%◌, ◌^◌, if◌then◌else◌, Option-cases, nat_beq_iff,
  String,
}
use otel_magnify.Prelude.Dict.{Dict, get, put, get-put, IsMap, put-IsMap}
use otel_magnify.Prelude.Dict.Count.{count_values, weight, count-put, count-put_fresh}
use otel_magnify.Grace.{
  Phase, armed, fired, running, finished, GraceTimer, GraceController, finish, stop_entry,
  stop_timer, arm, expire_entry, expire, enter_entry, enter, return_entry, return_from, stop_all,
  is_current,
}

abbrev pub unfinished : GraceTimer → Bool
unfinished e = elim e.phase [ armed ↦ true | fired ↦ true | running ↦ true | finished ↦ false ]

pub record HeapInv (c : GraceController) : Type 0 where
  pub maps : IsMap c.heap
  pub below : (p : ℕ) (e : GraceTimer) → get c.heap p ≡ some e → p < c.allocated
  pub counted : c.wg ≡ count_values unfinished c.heap

-- What `Stop` and `finish` make of a phase.
unfoldable pub halt : Phase → Phase
halt armed = finished
halt ph = ph

unfoldable pub after_stop : Option GraceTimer → Option GraceTimer
unfolding halt
after_stop none = none
after_stop (some e) = some (record e { phase = halt e.phase })

module _ (p : ℕ) (c : GraceController) where
  pub heap-stop_timer :
      (q : ℕ)
      → get (stop_timer p c).heap q ≡ (if p == q then after_stop (get c.heap q) else get c.heap q)
  unfolding stop_timer after_stop
  heap-stop_timer q = elim (Option-cases (get c.heap p)) [
    | inl e ↦ rw (e, stop_timer) (ground (arith, nat_beq_iff p q))
    | inr (e, h) ↦ rw (h, stop_timer) (stopped e e.phase h refl)
  ]
    where
      stopped :
          (e : GraceTimer) (ph : Phase)
          → get c.heap p ≡ some e
          → e.phase ≡ ph
          → get (stop_entry p e ph c).heap q
            ≡ (if p == q then after_stop (get c.heap q) else get c.heap q)
      stopped e armed h k =
          ground (arith, get-put c.heap p q (record e { phase = finished }), nat_beq_iff p q)
      stopped e fired h k = ground (arith, nat_beq_iff p q)
      stopped e running h k = ground (arith, nat_beq_iff p q)
      stopped e finished h k = ground (arith, nat_beq_iff p q)

-- A write of a phase keeps the heap in order, if the wait group follows.
module _ {c : GraceController} (v : HeapInv c) (p : ℕ) (e : GraceTimer)
    (here : get c.heap p ≡ some e) (ph : Phase) where
  below-phase :
      (q : ℕ) (f : GraceTimer)
      → get (put c.heap p (record e { phase = ph })) q ≡ some f
      → q < c.allocated
  below-phase q f h = ground (
    arith,
    get-put c.heap p q (record e { phase = ph }),
    nat_beq_iff p q,
    v.below q f,
    v.below p e here,
  )

  counted-phase :
      count_values unfinished (put c.heap p (record e { phase = ph })) + weight unfinished e
      ≡ weight unfinished (record e { phase = ph }) + c.wg
  counted-phase = rw v.counted (count-put unfinished c.heap p (record e { phase = ph }) v.maps here)

  -- A phase that keeps the timer unfinished leaves the wait group as it is.
  pub phase-HeapInv :
      {d : GraceController}
      → d.heap ≡ put c.heap p (record e { phase = ph })
      → d.wg ≡ c.wg
      → d.allocated ≡ c.allocated
      → unfinished e ≡ unfinished (record e { phase = ph })
      → HeapInv d
  phase-HeapInv {d} eh ew ea same = record {
    maps = rw eh (put-IsMap c.heap p (record e { phase = ph }) v.maps);
    below = λ q f h. rw ea (below-phase q f (rw eh at h));
    counted = rw (eh, ew) (ground (arith, counted-phase));
  }

module _ {c : GraceController} (v : HeapInv c) (p : ℕ) (e : GraceTimer)
    (here : get c.heap p ≡ some e) where
  -- `finish` takes one off the wait group, which is not zero then.
  pub finish-HeapInv : unfinished e ≡ true → HeapInv (finish p e c)
  unfolding finish
  finish-HeapInv open' = record {
    maps = put-IsMap c.heap p (record e { phase = finished }) v.maps;
    below = below-phase v p e here finished;
    counted = ground (arith, counted-phase v p e here finished);
  }

  pub wait_group_positive : unfinished e ≡ true → 0 < c.wg
  wait_group_positive open' = ground (arith, counted-phase v p e here finished)

module _ {c : GraceController} (v : HeapInv c) (p : ℕ) where
  module _ (e : GraceTimer) (here : get c.heap p ≡ some e) where
    stop_entry-HeapInv : (ph : Phase) → e.phase ≡ ph → HeapInv (stop_entry p e ph c)
    unfolding stop_entry
    stop_entry-HeapInv armed h = finish-HeapInv v p e here (rw h)
    stop_entry-HeapInv fired h = v
    stop_entry-HeapInv running h = v
    stop_entry-HeapInv finished h = v

    expire_entry-HeapInv : (ph : Phase) → e.phase ≡ ph → HeapInv (expire_entry p e ph c)
    unfolding expire_entry
    expire_entry-HeapInv armed h = phase-HeapInv v p e here fired refl refl refl (rw h)
    expire_entry-HeapInv fired h = v
    expire_entry-HeapInv running h = v
    expire_entry-HeapInv finished h = v

    enter_entry-HeapInv : (ph : Phase) → e.phase ≡ ph → HeapInv (enter_entry p e ph c)
    unfolding enter_entry
    enter_entry-HeapInv fired h =
        elim (Bool-cases (not c.stopped && is_current (get c.timers e.key) p e c)) [
          | inl t ↦ rw t (phase-HeapInv v p e here running refl refl refl (rw h))
          | inr t ↦ rw t (finish-HeapInv v p e here (rw h))
        ]
    enter_entry-HeapInv armed h = v
    enter_entry-HeapInv running h = v
    enter_entry-HeapInv finished h = v

    return_entry-HeapInv : (ph : Phase) → e.phase ≡ ph → HeapInv (return_entry p e ph c)
    unfolding return_entry
    return_entry-HeapInv running h = finish-HeapInv v p e here (rw h)
    return_entry-HeapInv armed h = v
    return_entry-HeapInv fired h = v
    return_entry-HeapInv finished h = v

  pub stop_timer-HeapInv : HeapInv (stop_timer p c)
  unfolding stop_timer
  stop_timer-HeapInv = elim (Option-cases (get c.heap p)) [
    | inl e ↦ rw (e, stop_timer) v
    | inr (e, h) ↦ rw (h, stop_timer) (stop_entry-HeapInv e h e.phase refl)
  ]

  pub expire-HeapInv : HeapInv (expire p c)
  unfolding expire
  expire-HeapInv = elim (Option-cases (get c.heap p)) [
    | inl e ↦ rw (e, expire) v
    | inr (e, h) ↦ rw (h, expire) (expire_entry-HeapInv e h e.phase refl)
  ]

  pub enter-HeapInv : HeapInv (enter p c)
  unfolding enter
  enter-HeapInv = elim (Option-cases (get c.heap p)) [
    | inl e ↦ rw (e, enter) v
    | inr (e, h) ↦ rw (h, enter) (enter_entry-HeapInv e h e.phase refl)
  ]

  pub return-HeapInv : HeapInv (return_from p c)
  unfolding return_from
  return-HeapInv = elim (Option-cases (get c.heap p)) [
    | inl e ↦ rw (e, return_from) v
    | inr (e, h) ↦ rw (h, return_from) (return_entry-HeapInv e h e.phase refl)
  ]

-- The timers map and the log play no part in the heap's invariant.
pub relist-HeapInv :
    {c d : GraceController}
    → HeapInv c
    → d.heap ≡ c.heap
    → d.wg ≡ c.wg
    → d.allocated ≡ c.allocated
    → HeapInv d
relist-HeapInv v eh ew ea = record {
  maps = rw eh v.maps;
  below = λ p e h. rw ea (v.below p e (rw eh at h));
  counted = rw (eh, ew) v.counted;
}

pub stop_all-HeapInv :
    (ts : Dict String ℕ) {c : GraceController} → HeapInv c → HeapInv (stop_all ts c)
unfolding stop_all
stop_all-HeapInv [] v = v
stop_all-HeapInv ((k, p) ∷ ts) v = stop_all-HeapInv ts (stop_timer-HeapInv v p)

unallocated : {c : GraceController} → HeapInv c → get c.heap c.allocated ≡ none
unallocated {c} v = elim (Option-cases (get c.heap c.allocated)) [
  | inl e ↦ e
  | inr (e, h) ↦ absurd (omega (arith, v.below c.allocated e h))
]

pub arm-HeapInv : (key : String) {c : GraceController} → HeapInv c → HeapInv (arm key c)
unfolding arm
arm-HeapInv key {c} v = record {
  maps = put-IsMap c.heap c.allocated _ v.maps;
  below = λ p e h. ground (
    arith,
    get-put c.heap c.allocated p
        (record { key = key; id = (c.next_id + 1) % 2 ^ 64; phase = armed }),
    nat_beq_iff c.allocated p,
    v.below p e,
  );
  counted =
      rw (count-put_fresh unfinished c.heap c.allocated _ (unallocated v))
        (omega (arith, v.counted));
}

-- What stopping a timer leaves alone.
pub record SameLinks (c d : GraceController) : Type 0 where
  pub timers : d.timers ≡ c.timers
  pub stopped : d.stopped ≡ c.stopped
  pub allocated : d.allocated ≡ c.allocated
  pub begun : d.begun ≡ c.begun

pub stop_timer-SameLinks : (p : ℕ) (c : GraceController) → SameLinks c (stop_timer p c)
unfolding stop_timer
stop_timer-SameLinks p c = ground arith

pub stop_all-SameLinks : (ts : Dict String ℕ) (c : GraceController) → SameLinks c (stop_all ts c)
unfolding stop_all
stop_all-SameLinks [] c = record { timers = refl; stopped = refl; allocated = refl; begun = refl }
stop_all-SameLinks ((k, p) ∷ ts) c =
    ground (arith, stop_all-SameLinks ts (stop_timer p c), stop_timer-SameLinks p c)
