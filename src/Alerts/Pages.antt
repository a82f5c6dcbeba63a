-- ===== src/Alerts/Pages.antt =====
-- evaluatePages of internal/alerts/engine.go over ListWorkloadsPage of internal/store/workloads.go.
-- The workloads that are not archived are a list in the order of their identifiers, which is that of
-- the database and the parameter `id_before`; they do not change during a pass. The loop runs on
-- fuel, a unit for a page.
use otel_magnify.Prelude.{
  ℕ, zero, suc, ◌+◌, Bool, true, false, ◌||◌, Option, none, some, List, [], ◌∷◌, String, ◌==◌,
  string_eq, nat_eq, ltb, if◌then◌else◌, length, select,
}
use otel_magnify.Prelude.Clock.{Time}
use otel_magnify.Alerts.{Engine, State, Visit, evaluate}

abbrev pub default_workload_page_size : ℕ
default_workload_page_size = 500

-- What a pass has come to: its end, where a panic is `none`, or the end of the fuel.
pub data Pass : Type 0 where
  finished : Option State → Pass
  exhausted : Pass

-- `LIMIT`
unfoldable pub limited : ℕ → List Visit → List Visit
limited zero vs = []
limited (suc n) [] = []
limited (suc n) (v ∷ vs) = v ∷ limited n vs

unfoldable pub page_limit : ℕ → ℕ
page_limit limit = if limit == 0 then 100 else limit

-- `workloads[len(workloads)-1].ID`
unfoldable pub last_id : List Visit → String
last_id [] = ""
last_id (v ∷ []) = v.workload.id
last_id (v ∷ w ∷ vs) = last_id (w ∷ vs)

-- `if pageSize <= 0 { pageSize = defaultWorkloadPageSize }`
unfoldable pub effective_size : ℕ → ℕ
effective_size size = if size == 0 then default_workload_page_size else size

-- The rest of a turn, after a page was read; `next` is the loop on the pages after an identifier.
unfoldable pub page_turn : Engine → Time → ℕ → List Visit → State → (String → State → Pass) → Pass
unfolding last_id
page_turn e now size [] s next = finished (some s)
page_turn e now size (v ∷ vs) s next = elim (evaluate e now (v ∷ vs) s) [
  | none ↦ finished none
  | some d ↦ elim (ltb (length (v ∷ vs)) size) [
    | true ↦ finished (some d)
    | false ↦ next (last_id (v ∷ vs)) d
  ]
]

module _ (id_before : String → String → Bool) where
  -- `id > ?`, which is left out after the empty identifier
  unfoldable pub is_after : String → Visit → Bool
  is_after after v = after == "" || id_before after v.workload.id

  unfoldable pub list_workloads_page : String → ℕ → List Visit → List Visit
  unfolding limited page_limit is_after
  list_workloads_page after limit table = limited (page_limit limit) (select (is_after after) table)

  -- The loop; the reading of the page number `k` fails where `page_fails` says so.
  unfoldable pub evaluate_loop :
      ℕ → Engine → Time → (ℕ → Bool) → ℕ → String → ℕ → List Visit → State → Pass
  unfolding list_workloads_page page_turn
  evaluate_loop zero e now page_fails k after size table s = exhausted
  evaluate_loop (suc fuel) e now page_fails k after size table s = elim (page_fails k) [
    | true ↦ finished (some s)
    | false ↦
        page_turn e now size (list_workloads_page after size table) s
          (λ i d. evaluate_loop fuel e now page_fails (k + 1) i size table d)
  ]

  unfoldable pub evaluate_pages : ℕ → Engine → Time → (ℕ → Bool) → ℕ → List Visit → State → Pass
  unfolding evaluate_loop effective_size
  evaluate_pages fuel e now page_fails size table s =
      evaluate_loop fuel e now page_fails 0 "" (effective_size size) table s
