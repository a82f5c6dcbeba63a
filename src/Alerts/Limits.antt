-- ===== src/Alerts/Limits.antt =====
-- A page of internal/alerts/engine.go and the rows that are left after it.
use otel_magnify.Prelude.{
  ℕ, zero, suc, ◌<◌, ◌≡◌, refl, sym, ◌∙◌, ap, List, [], ◌∷◌, ◌++◌, string_eq, nat_eq, length,
  Option-cases, inl, inr, arith,
}
use mathlib.Core.List.{append_assoc}
use otel_magnify.Prelude.Clock.{Time}
use otel_magnify.Alerts.{Engine, State, Visit, evaluate_workload, evaluate, then_do}
use otel_magnify.Alerts.Pages.{limited, last_id}

pub evaluate-append :
    (e : Engine) (now : Time) (xs ys : List Visit) (s : State)
    → evaluate e now (xs ++ ys) s ≡ then_do (evaluate e now xs s) (λ d. evaluate e now ys d)
unfolding evaluate then_do
evaluate-append e now [] ys s = refl
evaluate-append e now (v ∷ xs) ys s = elim (Option-cases (evaluate_workload e now v s)) [
  | inl n ↦ rw n refl
  | inr (d, f) ↦ rw f (evaluate-append e now xs ys d)
]

-- What `limited` leaves.
abbrev pub beyond : ℕ → List Visit → List Visit
beyond zero vs = vs
beyond (suc n) [] = []
beyond (suc n) (v ∷ vs) = beyond n vs

pub limited-beyond : (n : ℕ) (vs : List Visit) → limited n vs ++ beyond n vs ≡ vs
unfolding limited
limited-beyond zero vs = refl
limited-beyond (suc n) [] = refl
limited-beyond (suc n) (v ∷ vs) = ap (λ l. v ∷ l) (limited-beyond n vs)

-- A page that is not full is the last one.
pub short-beyond : (n : ℕ) (vs : List Visit) → length (limited n vs) < n → beyond n vs ≡ []
unfolding limited
short-beyond zero vs h = ground (arith, h)
short-beyond (suc n) [] h = refl
short-beyond (suc n) (v ∷ vs) h = short-beyond n vs (omega (arith, h))

pub empty-beyond : (n : ℕ) (vs : List Visit) → 0 < n → length (limited n vs) ≡ 0 → beyond n vs ≡ []
unfolding limited
empty-beyond zero vs p h = ground (arith, p)
empty-beyond (suc n) [] p h = refl
empty-beyond (suc n) (v ∷ vs) p h = ground (arith, h)

last-split :
    (v : Visit) (vs : List Visit)
    → (xs : List Visit) × (y : Visit) × (v ∷ vs ≡ xs ++ y ∷ []) × (last_id (v ∷ vs) ≡ y.workload.id)
unfolding last_id
last-split v [] = ([], v, refl, refl)
last-split v (w ∷ vs) = let (xs, y, e, f) = last-split w vs in (v ∷ xs, y, ap (λ l. v ∷ l) e, f)

pub page-middle :
    (pre page rest : List Visit)
    → 0 < length page
    → (xs : List Visit) × (y : Visit) × (pre ++ (page ++ rest) ≡ xs ++ y ∷ rest)
      × (last_id page ≡ y.workload.id)
page-middle pre [] rest h = ground (arith, h)
page-middle pre (v ∷ vs) rest h =
    let (xs, y, e, f) = last-split v vs in
    (
      pre ++ xs,
      y,
      ap (λ l. pre ++ (l ++ rest)) e
          ∙ ap (λ l. pre ++ l) (append_assoc xs (y ∷ []) rest)
          ∙ sym (append_assoc pre xs (y ∷ rest)),
      f,
    )
