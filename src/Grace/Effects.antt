-- ===== src/Grace/Effects.antt =====
-- What one step changes: which timers are listed, and whose function is started.
use otel_magnify.Prelude.{
  ℕ, ◌≤◌, ◌≡◌, ◌⊎◌, inl, inr, refl, true, false, not, ◌&&◌, some, [], ◌∷◌, nat_eq, string_eq, arith,
  Option-cases, Bool-cases, String,
}
use otel_magnify.Prelude.Dict.{get, delete, get-put, get-delete}
use otel_magnify.Grace.{
  Phase, armed, fired, running, finished, GraceTimer, GraceController, finish, cancel, arm,
  schedule, expire, enter_entry, enter, return_from, stop_all, is_current, begin_stop, Event,
  schedules, cancels, expires, enters, returns, stops, step,
}
use otel_magnify.Grace.Heap.{SameLinks, stop_timer-SameLinks, stop_all-SameLinks}
use otel_magnify.Grace.Invariant.{timers-cancel, stopped-cancel, schedule_stopped, schedule_open}
use otel_magnify.Grace.Phases.{is_current_iff}
use otel_magnify.Grace.Stop.{stop_open, stop_again}

-- How the links change: a timer is listed only by being armed, and never by a stopped controller.
pub record Links (c d : GraceController) : Type 0 where
  pub kept :
      (k : String) (p : ℕ) → get d.timers k ≡ some p → (get c.timers k ≡ some p) ⊎ (p ≡ c.allocated)
  pub grows : c.allocated ≤ d.allocated
  pub stays : c.stopped ≡ true → d.stopped ≡ true

-- The function of one timer was started, which was its key's current one.
pub record Started (c d : GraceController) (p : ℕ) (e : GraceTimer) : Type 0 where
  pub here : get c.heap p ≡ some e
  pub current : get c.timers e.key ≡ some p
  pub on : c.stopped ≡ false
  pub logged : d.begun ≡ p ∷ c.begun
  pub unlinked : d.timers ≡ delete c.timers e.key

abbrev pub Effect : GraceController → GraceController → Type 0
Effect c d = Links c d × ((d.begun ≡ c.begun) ⊎ ((p : ℕ) × (e : GraceTimer) × Started c d p e))

same-Effect : {c d : GraceController} → SameLinks c d → Effect c d
same-Effect s = (
  record {
    kept = λ k p h. inl (rw s.timers at h);
    grows = omega (arith, s.allocated);
    stays = λ h. rw s.stopped h;
  },
  inl s.begun,
)

no-Effect : (c : GraceController) → Effect c c
no-Effect c = same-Effect (record { timers = refl; stopped = refl; allocated = refl; begun = refl })

pub cancel_effect :
    (key : String) (c : GraceController)
    → ((cancel key c).begun ≡ c.begun) × ((cancel key c).allocated ≡ c.allocated)
unfolding cancel
cancel_effect key c = elim (Option-cases (get c.timers key)) [
  | inl e ↦ rw (e, cancel) (refl, refl)
  | inr (p, e) ↦
      rw (e, cancel) ((stop_timer-SameLinks _ _).begun, (stop_timer-SameLinks _ _).allocated)
]

cancel-Effect : (key : String) (c : GraceController) → Effect c (cancel key c)
cancel-Effect key c = (
  record {
    kept = λ k p h. inl (ground (arith, timers-cancel c key k));
    grows = omega (arith, (cancel_effect key c).1);
    stays = λ h. rw stopped-cancel h;
  },
  inl (cancel_effect key c).0,
)

arm-Effect :
    (key : String) (c : GraceController) → c.stopped ≡ false → Effect c (arm key (cancel key c))
unfolding arm
arm-Effect key c on = (
  record {
    kept = λ k p h. ground (
      arith,
      get-put (cancel key c).timers key k (cancel key c).allocated,
      timers-cancel c key k,
      (cancel_effect key c).1,
    );
    grows = omega (arith, (cancel_effect key c).1);
    stays = λ h. cc;
  },
  inl (cancel_effect key c).0,
)

schedule-Effect : (key : String) (c : GraceController) → Effect c (schedule key c)
schedule-Effect key c = elim (Bool-cases c.stopped) [
  | inl e ↦ rw (schedule_stopped c key e) (no-Effect c)
  | inr e ↦ rw (schedule_open c key e) (arm-Effect key c e)
]

nothing_listed : (k : String) (p : ℕ) → ¬ (get {V = ℕ} [] k ≡ some p)
unfolding get
nothing_listed k p h = cc

stop-Effect : (c : GraceController) → Effect c (begin_stop c)
stop-Effect c = elim (Bool-cases c.stopped) [
  | inl e ↦ rw (stop_again c e) (no-Effect c)
  | inr e ↦ rw (stop_open c e) (
    record {
      kept = λ k p h. absurd (nothing_listed k p (rw links.timers at h));
      grows = omega (arith, links);
      stays = λ h. links.stopped;
    },
    inl links.begun,
  )
]
  where
    bare : GraceController
    bare = record c { stopped = true; timers = [] }

    links : SameLinks bare (stop_all c.timers bare)
    links = stop_all-SameLinks c.timers bare

pub expire-SameLinks : (p : ℕ) (c : GraceController) → SameLinks c (expire p c)
unfolding expire
expire-SameLinks p c = ground arith

pub return-SameLinks : (p : ℕ) (c : GraceController) → SameLinks c (return_from p c)
unfolding return_from
return-SameLinks p c = ground arith

module _ (c : GraceController) (p : ℕ) (e : GraceTimer) (here : get c.heap p ≡ some e) where
  enter_entry-Effect : (ph : Phase) → Effect c (enter_entry p e ph c)
  unfolding enter_entry finish
  enter_entry-Effect fired =
      elim (Bool-cases (not c.stopped && is_current (get c.timers e.key) p e c)) [
        | inl t ↦ rw t (
          record {
            kept = λ k q h. inl (ground (arith, get-delete c.timers e.key k));
            grows = omega arith;
            stays = λ h. h;
          },
          inr (
            p,
            e,
            record {
              here = here;
              current = (is_current_iff c p e here (get c.timers e.key)).0 (ground arith);
              on = ground arith;
              logged = refl;
              unlinked = refl;
            },
          ),
        )
        | inr t ↦
            rw t (
              same-Effect
                (record { timers = refl; stopped = refl; allocated = refl; begun = refl }))
      ]
  enter_entry-Effect armed = no-Effect c
  enter_entry-Effect running = no-Effect c
  enter_entry-Effect finished = no-Effect c

enter-Effect : (p : ℕ) (c : GraceController) → Effect c (enter p c)
unfolding enter
enter-Effect p c = elim (Option-cases (get c.heap p)) [
  | inl e ↦ rw (e, enter) (no-Effect c)
  | inr (e, h) ↦ rw (h, enter) (enter_entry-Effect c p e h e.phase)
]

pub step-Effect : (e : Event) (c : GraceController) → Effect c (step e c)
unfolding step
step-Effect (schedules key) c = schedule-Effect key c
step-Effect (cancels key) c = cancel-Effect key c
step-Effect (expires p) c = same-Effect (expire-SameLinks p c)
step-Effect (enters p) c = enter-Effect p c
step-Effect (returns p) c = same-Effect (return-SameLinks p c)
step-Effect stops c = stop-Effect c
