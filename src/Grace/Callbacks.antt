-- ===== src/Grace/Callbacks.antt =====
-- When a callback's function is started, over all orders of events.
use otel_magnify.Prelude.{
  ℕ, ◌<◌, ◌≡◌, ◌≢◌, ◌⊎◌, inl, inr, refl, true, some, List, [], ◌∷◌, ◌==◌, nat_eq, string_eq, arith,
  Bool-cases, nat_beq_iff, eq_iff, String, count_if, ◌∙◌,
}
use otel_magnify.Prelude.Dict.{get, get-delete}
use otel_magnify.Grace.{GraceTimer, GraceController, Event, step, run}
use otel_magnify.Grace.Invariant.{Inv}
use otel_magnify.Grace.Stop.{step-Inv}
use otel_magnify.Grace.Effects.{Links, Started, step-Effect}

-- How often the function of a timer was started.
abbrev pub starts : ℕ → GraceController → ℕ
starts p c = count_if (λ q. q == p) c.begun

-- A timer that was replaced, cancelled or started: no key names it.
pub record IsDetached (c : GraceController) (p : ℕ) : Type 0 where
  pub below : p < c.allocated
  pub unlisted : (k : String) → get c.timers k ≢ some p

step-IsDetached :
    (e : Event) {c : GraceController} {p : ℕ} → IsDetached c p → IsDetached (step e c) p
step-IsDetached e {c} {p} d = record {
  below = omega (arith, d.below, (step-Effect e c).0.grows);
  unlisted = λ k h. ground (arith, (step-Effect e c).0.kept k p h, d.unlisted k, d.below);
}

step_detached :
    (e : Event) {c : GraceController} {p : ℕ} → IsDetached c p → starts p (step e c) ≡ starts p c
step_detached e {c} {p} d = elim ((step-Effect e c).1) [
  | inl same ↦ rw same
  | inr (q, t, s) ↦ rw s.logged (ground (arith, d.unlisted t.key, s.current, nat_beq_iff q p))
]

-- Once its key was scheduled again, or cancelled, or its function started, a timer's function is
-- never started again, whatever happens.
pub detached_never_starts :
    (es : List Event) {c : GraceController} {p : ℕ}
    → IsDetached c p
    → starts p (run es c) ≡ starts p c
unfolding run
detached_never_starts [] d = refl
detached_never_starts (e ∷ es) d =
    detached_never_starts es (step-IsDetached e d) ∙ step_detached e d

-- A timer that no key names, or that is not allocated, has been started once at most.
abbrev pub AtMostOnce : GraceController → ℕ → Type 0
AtMostOnce c p = (starts p c ≡ 0) ⊎ ((starts p c ≡ 1) × IsDetached c p)

Started-IsDetached :
    {c d : GraceController} {p : ℕ} {t : GraceTimer}
    → Inv c
    → Links c d
    → Started c d p t
    → IsDetached d p
Started-IsDetached {c} {d} {p} {t} v l s = record {
  below = omega (arith, v.heap.below p t s.here, l.grows);
  unlisted = λ k h. ground (
    arith,
    rw s.unlinked at h,
    get-delete c.timers t.key k,
    v.listed k p,
    s.here,
    eq_iff t.key k,
  );
}

pub step-AtMostOnce :
    (e : Event) {c : GraceController} → Inv c → (p : ℕ) → AtMostOnce c p → AtMostOnce (step e c) p
step-AtMostOnce e {c} v p (inr (n, d)) = inr (step_detached e d ∙ n, step-IsDetached e d)
step-AtMostOnce e {c} v p (inl n) = elim ((step-Effect e c).1) [
  | inl same ↦ inl (rw same n)
  | inr (q, t, s) ↦ elim (Bool-cases (q == p)) [
    | inl mine ↦ inr (
      rw (s.logged, mine) (omega (arith, n)),
      rw (← (nat_beq_iff q p).0 mine) (Started-IsDetached v (step-Effect e c).0 s),
    )
    | inr other ↦ inl (rw (s.logged, other) (omega (arith, n)))
  ]
]

pub run-AtMostOnce :
    (es : List Event) {c : GraceController}
    → Inv c
    → ((p : ℕ) → AtMostOnce c p)
    → (p : ℕ) → AtMostOnce (run es c) p
unfolding run
run-AtMostOnce [] v h = h
run-AtMostOnce (e ∷ es) v h = run-AtMostOnce es (step-Inv e v) (λ p. step-AtMostOnce e v p (h p))

step_stopped :
    (e : Event) (c : GraceController)
    → c.stopped ≡ true
    → ((step e c).stopped ≡ true) × ((step e c).begun ≡ c.begun)
step_stopped e c h = ground (arith, step-Effect e c)

-- Once `Stop` was called, no function is started.
pub none_start_after_stop :
    (es : List Event) (c : GraceController) → c.stopped ≡ true → (run es c).begun ≡ c.begun
unfolding run
none_start_after_stop [] c h = refl
none_start_after_stop (e ∷ es) c h =
    let (on, same) = step_stopped e c h in none_start_after_stop es (step e c) on ∙ same
