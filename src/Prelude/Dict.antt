-- ===== src/Prelude/Dict.antt =====
-- Go's maps as association lists, with their laws: a write is seen at its key and nowhere else.
pub mod Count
use Prim.Native.Nat.{◌≤◌}
use mathlib.Core.Path.{◌≡◌, refl, ap}
use mathlib.Core.Bool.{Bool, true}
use mathlib.Core.Logic.{inl, inr}
use Prim.Native.Nat.{suc}
use mathlib.Core.Option.{Option, none, some}
use mathlib.Core.List.{List, [], ◌∷◌}
use native.Mathlib.Omega.{arith}
use otel_magnify.Prelude.Tests.{if◌then◌else◌, Bool-cases}
use otel_magnify.Prelude.Eq.{Eq, ◌==◌}
use otel_magnify.Prelude.Lists.{length, any}

abbrev pub Dict {ℓ} : Type ℓ → Type ℓ → Type ℓ
Dict K V = List (K × V)

module _ {ℓ} {K V : Type ℓ} ⦃e : Eq K⦄ where
  unfoldable pub get : Dict K V → K → Option V
  get [] k = none
  get ((j, v) ∷ d) k = if j == k then some v else get d k

  -- `delete(d, k)`
  unfoldable pub delete : Dict K V → K → Dict K V
  delete [] k = []
  delete ((j, v) ∷ d) k = let rest = delete d k in if j == k then rest else (j, v) ∷ rest

  -- `d[k] = v`
  unfoldable pub put : Dict K V → K → V → Dict K V
  unfolding delete
  put d k v = (k, v) ∷ delete d k

  pub get-delete :
      (d : Dict K V) (k j : K) → get (delete d k) j ≡ (if k == j then none else get d j)
  unfolding get delete
  get-delete [] k j = ground arith
  get-delete ((i, v) ∷ d) k j =
      ground (arith, get-delete d k j, e.eqb_iff i k, e.eqb_iff i j, e.eqb_iff k j)

  pub get-put :
      (d : Dict K V) (k j : K) (v : V) → get (put d k v) j ≡ (if k == j then some v else get d j)
  unfolding get put
  get-put d k j v = ground (arith, get-delete d k j)

  pub get-empty : (k : K) → get [] k ≡ none
  unfolding get
  get-empty k = refl

  pub length-delete : (d : Dict K V) (k : K) → length (delete d k) ≤ length d
  unfolding delete
  length-delete [] k = omega arith
  length-delete ((j, v) ∷ d) k = ground (arith, length-delete d k)

-- Go's maps hold a key once. Every map of the models is built by `put` and `delete`.
abbrev pub IsMap {ℓ} : {K V : Type ℓ} ⦃e : Eq K⦄ → Dict K V → Type ℓ
IsMap [] = Unit
IsMap ((k, v) ∷ d) = (get d k ≡ none) × IsMap d

module _ {ℓ} {K V : Type ℓ} ⦃e : Eq K⦄ where
  pub delete-IsMap : (d : Dict K V) (k : K) → IsMap d → IsMap (delete d k)
  unfolding delete
  delete-IsMap [] k h = h
  delete-IsMap ((j, v) ∷ d) k h = ground (arith, delete-IsMap d k h.1, get-delete d k j)

  pub put-IsMap : (d : Dict K V) (k : K) (v : V) → IsMap d → IsMap (put d k v)
  unfolding put
  put-IsMap d k v h = (rw (get-delete d k k, (e.eqb_iff k k).1 refl), delete-IsMap d k h)

  delete_absent : (d : Dict K V) (k : K) → get d k ≡ none → delete d k ≡ d
  unfolding get delete
  delete_absent [] k h = refl
  delete_absent ((j, v) ∷ d) k h = ground (arith, delete_absent d k)

  pub length-put_fresh :
      (d : Dict K V) (k : K) (v : V) → get d k ≡ none → length (put d k v) ≡ suc (length d)
  unfolding put
  length-put_fresh d k v h = ap (λ (t : Dict K V). suc (length t)) (delete_absent d k h)

  -- What a loop over a map finds is what stands at some key.
  pub any-get :
      (p : V → Bool) (d : Dict K V)
      → IsMap d
      → any (λ e. p e.1) d ≡ true
      → (k : K) × (v : V) × (get d k ≡ some v) × (p v ≡ true)
  unfolding get
  any-get p [] m h = cc
  any-get p ((j, w) ∷ d) m h = elim (Bool-cases (p w)) [
    | inl here ↦ (j, w, rw (e.eqb_iff j j).1 refl, here)
    | inr later ↦
        let (k, v, g, q) = any-get p d m.1 (ground arith) in
        (k, v, ground (arith, e.eqb_iff j k), q)
  ]

  pub get-any :
      (p : V → Bool) (d : Dict K V) (k : K) (v : V)
      → get d k ≡ some v
      → p v ≡ true
      → any (λ e. p e.1) d ≡ true
  unfolding get
  get-any p [] k v h q = cc
  get-any p ((j, w) ∷ d) k v h q = ground (arith, get-any p d k v)

pub ruleset dict_laws = (get-empty, get-delete, get-put)
