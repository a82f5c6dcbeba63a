-- ===== src/Alerts/Paging.antt =====
-- The loop of evaluatePages of internal/alerts/engine.go over its pages.
use otel_magnify.Prelude.{
  ℕ, zero, suc, ◌+◌, ◌<◌, ◌≡◌, refl, sym, ◌∙◌, ap, Bool, true, false, List, [], ◌∷◌, ◌++◌, String,
  ◌==◌, string_eq, nat_eq, ltb, length, select, All, Option-cases, Bool-cases, inl, inr, arith,
  length-append,
}
use mathlib.Core.Path.{subst}
use mathlib.Core.List.{append-nil, append_assoc}
use otel_magnify.Prelude.Clock.{Time}
use otel_magnify.Alerts.{Engine, State, Visit, evaluate, then_do}
use otel_magnify.Alerts.Pages.{
  finished, limited, page_limit, last_id, effective_size, is_after, list_workloads_page,
  evaluate_loop, evaluate_pages, page_turn,
}
use otel_magnify.Alerts.Limits.{
  evaluate-append, beyond, limited-beyond, short-beyond, empty-beyond, page-middle,
}

module _ (id_before : String → String → Bool) where
  -- Each identifier is before all that follow, and none is empty.
  abbrev pub Ordered : List Visit → Type 0
  Ordered [] = Unit
  Ordered (v ∷ vs) =
      ((v.workload.id == "") ≡ false)
      × All (λ w. id_before v.workload.id w.workload.id ≡ true) vs
      × Ordered vs

  select_following :
      (i : String) (vs : List Visit)
      → (i == "") ≡ false
      → All (λ w. id_before i w.workload.id ≡ true) vs
      → select (is_after id_before i) vs ≡ vs
  unfolding is_after
  select_following i [] n h = refl
  select_following i (v ∷ vs) n h = ground (arith, n, h.0, select_following i vs n h.1)

  page-limited :
      (after : String) (size : ℕ) (suf table : List Visit)
      → 0 < size
      → select (is_after id_before after) table ≡ suf
      → list_workloads_page id_before after size table ≡ limited size suf
  unfolding list_workloads_page page_limit
  page-limited after size suf table p a =
      let n : page_limit size ≡ size = ground (arith, p) in
      ap (λ l. limited l (select (is_after id_before after) table)) n ∙ ap (λ l. limited size l) a

  -- The loop ends after it has visited the first of the rows, and all if no page fails.
  abbrev Visits :
      ℕ → Engine → Time → (ℕ → Bool) → ℕ → String → ℕ → List Visit → State → List Visit → Type 0
  Visits fuel e now page_fails k after size table s suf =
      (seen : List Visit) × (rest : List Visit) × (suf ≡ seen ++ rest)
      × (evaluate_loop id_before fuel e now page_fails k after size table s
          ≡ finished (evaluate e now seen s))
      × (((j : ℕ) → page_fails j ≡ false) → rest ≡ [])

  module _ (fuel : ℕ) (e : Engine) (now : Time) (page_fails : ℕ → Bool) (k : ℕ) (size : ℕ) where
    -- One turn of the loop, on a page and the rows that are left after it.
    loop-turn :
        (after : String) (page rest table : List Visit) (s : State)
        → page_fails k ≡ false
        → list_workloads_page id_before after size table ≡ page
        → (length page ≡ 0 → rest ≡ [])
        → (length page < size → rest ≡ [])
        → ((d : State)
            → 0 < length page
            → Visits fuel e now page_fails (k + 1) (last_id page) size table d rest)
        → Visits (suc fuel) e now page_fails k after size table s (page ++ rest)
    unfolding evaluate_loop page_turn evaluate then_do
    loop-turn after [] rest table s b g empty short next =
        ([], [], empty refl, rw (b, evaluate_loop, g, page_turn) refl, λ h. refl)
    loop-turn after (v ∷ vs) rest table s b g empty short next =
        elim (Option-cases (evaluate e now (v ∷ vs) s)) [
          | inl n ↦ (
            (v ∷ vs) ++ rest,
            [],
            sym (append-nil ((v ∷ vs) ++ rest)),
            rw (b, evaluate_loop, g, page_turn, evaluate-append e now (v ∷ vs) rest s, n) refl,
            λ h. refl,
          )
          | inr (d, f) ↦ elim (Bool-cases (ltb (length (v ∷ vs)) size)) [
            | inl c ↦ (
              (v ∷ vs) ++ rest,
              [],
              sym (append-nil ((v ∷ vs) ++ rest)),
              rw
                  (
                    b,
                    evaluate_loop,
                    g,
                    page_turn,
                    evaluate-append e now (v ∷ vs) rest s,
                    f,
                    c,
                    short (ground (arith, c)),
                  )
                  refl,
              λ h. refl,
            )
            | inr c ↦
                let (seen, left, split, ends, all) = next d (ground arith) in
                (
                  (v ∷ vs) ++ seen,
                  left,
                  ap (λ l. (v ∷ vs) ++ l) split ∙ sym (append_assoc (v ∷ vs) seen left),
                  rw (b, evaluate_loop, g, page_turn, evaluate-append e now (v ∷ vs) seen s, f, c)
                      ends,
                  all,
                )
          ]
        ]

  module _ (asymmetric : (i j : String) → id_before i j ≡ true → id_before j i ≡ false) where
    All-middle :
        (i : String) (xs zs : List Visit) (y : Visit)
        → All (λ w. id_before i w.workload.id ≡ true) (xs ++ y ∷ zs)
        → id_before i y.workload.id ≡ true
    All-middle i [] zs y h = h.0
    All-middle i (x ∷ xs) zs y h = All-middle i xs zs y h.1

    Ordered-middle :
        (xs zs : List Visit) (y : Visit) → Ordered (xs ++ y ∷ zs) → (y.workload.id == "") ≡ false
    Ordered-middle [] zs y h = h.0
    Ordered-middle (x ∷ xs) zs y h = Ordered-middle xs zs y h.2

    -- The rows after one of them are those that follow it.
    select-after :
        (xs zs : List Visit) (y : Visit)
        → Ordered (xs ++ y ∷ zs)
        → select (is_after id_before y.workload.id) (xs ++ y ∷ zs) ≡ zs
    unfolding is_after
    select-after [] zs y h = ground (
      arith,
      h.0,
      asymmetric y.workload.id y.workload.id,
      select_following y.workload.id zs h.0 h.1,
    )
    select-after (x ∷ xs) zs y h = ground (
      arith,
      asymmetric x.workload.id y.workload.id (All-middle x.workload.id xs zs y h.1),
      Ordered-middle xs zs y h.2,
      select-after xs zs y h.2,
    )

    rest_after :
        (xs zs table : List Visit) (y : Visit)
        → table ≡ xs ++ y ∷ zs
        → Ordered table
        → select (is_after id_before y.workload.id) table ≡ zs
    rest_after xs zs table y t o = rw t (select-after xs zs y (rw t at o))

    -- The loop, where `after` stands for the rows `pre` that were visited already.
    loop-Visits :
        (fuel : ℕ) (e : Engine) (now : Time) (page_fails : ℕ → Bool) (k : ℕ) (after : String)
        (size : ℕ) (pre suf table : List Visit) (s : State)
        → table ≡ pre ++ suf
        → Ordered table
        → select (is_after id_before after) table ≡ suf
        → length suf < fuel
        → 0 < size
        → Visits fuel e now page_fails k after size table s suf
    unfolding evaluate_loop evaluate
    loop-Visits zero e now page_fails k after size pre suf table s t o a n p =
        ([], suf, refl, ground (arith, n), λ h. ground (arith, n))
    loop-Visits (suc fuel) e now page_fails k after size pre suf table s t o a n p =
        let page = limited size suf in
        let rest = beyond size suf in
        let join : page ++ rest ≡ suf = limited-beyond size suf in
        elim (Bool-cases (page_fails k)) [
          | inl b ↦ ([], suf, refl, rw (b, evaluate_loop) refl, λ h. ground (arith, h k, b))
          | inr b ↦
              subst (λ l. Visits (suc fuel) e now page_fails k after size table s l) join
                (loop-turn fuel e now page_fails k size after page rest table s b
                  (page-limited after size suf table p a) (empty-beyond size suf p)
                  (short-beyond size suf)
                  (λ d nonempty.
                    let (xs, y, split, last) = page-middle pre page rest nonempty in
                    let whole : table ≡ xs ++ y ∷ rest =
                      t ∙ ap (λ l. pre ++ l) (sym join) ∙ split in
                    loop-Visits fuel e now page_fails (k + 1) (last_id page) size (xs ++ y ∷ [])
                      rest table d (whole ∙ sym (append_assoc xs (y ∷ []) rest)) o
                      (ap (λ i. select (is_after id_before i) table) last
                        ∙ rest_after xs rest table y whole o)
                      (omega (arith, n, nonempty, length-append page rest, ap length join)) p))
        ]

    from_start : (vs : List Visit) → select (is_after id_before "") vs ≡ vs
    unfolding is_after
    from_start [] = refl
    from_start (v ∷ vs) = ap (λ l. v ∷ l) (from_start vs)

    -- Where no two identifiers are before each other, the workloads stand in the order of their
    -- identifiers and none of these is empty, a fuel above their number is enough for the pages: the
    -- pass ends, whatever the page size is, whichever pages fail to be read, and whether or not a
    -- rule panics. It has evaluated the first of the workloads, each once and in order, and all of
    -- them if every page is read.
    pub pages_visit :
        (fuel : ℕ) (e : Engine) (now : Time) (page_fails : ℕ → Bool) (size : ℕ) (table : List Visit)
        (s : State)
        → Ordered table
        → length table < fuel
        → (seen : List Visit) × (rest : List Visit) × (table ≡ seen ++ rest)
          × (evaluate_pages id_before fuel e now page_fails size table s
              ≡ finished (evaluate e now seen s))
          × (((j : ℕ) → page_fails j ≡ false) → rest ≡ [])
    unfolding evaluate_pages effective_size
    pages_visit fuel e now page_fails size table s o n =
        loop-Visits fuel e now page_fails 0 "" (effective_size size) [] table table s refl o
          (from_start table) n (ground arith)
