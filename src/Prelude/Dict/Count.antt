-- ===== src/Prelude/Dict/Count.antt =====
-- How many entries of a map pass a test, through writes.
use otel_magnify.Prelude.Tests.{if◌then◌else◌}
use otel_magnify.Prelude.Eq.{Eq}
use otel_magnify.Prelude.Dict.{Dict, get, delete, put, delete_absent, IsMap}
use Prim.Native.Nat.{ℕ, ◌+◌}
use mathlib.Core.Path.{◌≡◌}
use mathlib.Core.Bool.{Bool}
use mathlib.Core.Option.{none, some}
use mathlib.Core.List.{[], ◌∷◌}
use native.Mathlib.Omega.{arith}

abbrev pub weight {ℓ} : {V : Type ℓ} → (V → Bool) → V → ℕ
weight p v = if p v then 1 else 0

abbrev pub count_values {ℓ} : {K V : Type ℓ} → (V → Bool) → Dict K V → ℕ
count_values p [] = 0
count_values p ((k, v) ∷ d) = weight p v + count_values p d

module _ {ℓ} {K V : Type ℓ} ⦃e : Eq K⦄ (p : V → Bool) where
  pub count-delete :
      (d : Dict K V) (k : K) {v : V}
      → IsMap d
      → get d k ≡ some v
      → count_values p (delete d k) + weight p v ≡ count_values p d
  unfolding get delete
  count-delete [] k m h = ground arith
  count-delete ((j, w) ∷ d) k {v} m h =
      ground (arith, e.eqb_iff j k, delete_absent d k, count-delete d k {v = v} m.1)

  pub count-put_fresh :
      (d : Dict K V) (k : K) (v : V)
      → get d k ≡ none
      → count_values p (put d k v) ≡ weight p v + count_values p d
  unfolding put
  count-put_fresh d k v h = rw (delete_absent d k h)

  pub count-put :
      (d : Dict K V) (k : K) (v : V) {old : V}
      → IsMap d
      → get d k ≡ some old
      → count_values p (put d k v) + weight p old ≡ weight p v + count_values p d
  unfolding put
  count-put d k v {old} m h = ground (arith, count-delete d k {v = old} m h)
