-- ===== src/Approvals/Lifecycle.antt =====
-- The statements of internal/store/config_approvals.go as events in any order, and the row of a request.
use otel_magnify.Prelude.{
  ◌≡◌, ◌⊎◌, inl, inr, refl, ◌∙◌, true, false, ◌&&◌, ◌||◌, Option, some, List, [], ◌∷◌, String, ◌==◌,
  string_eq, arith, eq_iff, Option-cases, Bool-cases,
}
use mathlib.Core.Path.{subst}
use otel_magnify.Prelude.Dict.{get, put, get-put}
use otel_magnify.Prelude.Clock.{Time}
use otel_magnify.Outbox.{Fault, answered, refused, answer_lost}
use otel_magnify.Approvals.{
  pending_status, approved_status, pushed_status, ConfigApprovalRequest, Approvals, Push,
  pending_request, resolved_id, with_defaults, updated_row, commit, is_present, upsert,
  create_or_update_found, approved_row, approve_config_approval_request, pushed_row,
  mark_config_approval_request_pushed,
}

pub data Event : Type 0 where
  requests : Fault → String → Option String → String → Time → ConfigApprovalRequest → Event
  approves : Fault → String → String → String → Time → Event
  pushes : Fault → String → Push → Event

unfoldable pub step : Event → Approvals → Approvals
step (requests fault id found fresh now req) t =
    (create_or_update_found fault id found fresh now req t).0
step (approves fault id by comment at) t =
    (approve_config_approval_request fault id by comment at t).0
step (pushes fault id p) t = (mark_config_approval_request_pushed fault id p t).0

unfoldable pub run : List Event → Approvals → Approvals
unfolding step
run [] t = t
run (e ∷ es) t = run es (step e t)

-- What may become of a request.
pub record Follows (r s : ConfigApprovalRequest) : Type 0 where
  pub workload_id : s.workload_id ≡ r.workload_id
  pub target_group : s.target_group ≡ r.target_group
  pub created_at : s.created_at ≡ r.created_at
  pub approved :
      r.status ≡ approved_status
      → ((s.status ≡ approved_status) ⊎ (s.status ≡ pushed_status))
        × (s.approved_by ≡ r.approved_by)
        × (s.approved_at ≡ r.approved_at)
  pub pushed :
      r.status ≡ pushed_status
      → (s.status ≡ pushed_status)
        × (s.approved_by ≡ r.approved_by)
        × (s.approved_at ≡ r.approved_at)
        × (s.config_hash ≡ r.config_hash)
        × (s.pushed_at ≡ r.pushed_at)

Follows-refl : (r : ConfigApprovalRequest) → Follows r r
Follows-refl r = record {
  workload_id = refl;
  target_group = refl;
  created_at = refl;
  approved = λ h. (inl h, refl, refl);
  pushed = λ h. (h, refl, refl, refl, refl);
}

Follows-trans : (r s u : ConfigApprovalRequest) → Follows r s → Follows s u → Follows r u
Follows-trans r s u f g = record {
  workload_id = g.workload_id ∙ f.workload_id;
  target_group = g.target_group ∙ f.target_group;
  created_at = g.created_at ∙ f.created_at;
  approved = λ h.
      let (x, by, at) = f.approved h in
      elim x [
        | inl a ↦ let (y, by', at') = g.approved a in (y, by' ∙ by, at' ∙ at)
        | inr p ↦ let (y, by', at', hash, when) = g.pushed p in (inr y, by' ∙ by, at' ∙ at)
      ];
  pushed = λ h.
      let (x, by, at, hash, when) = f.pushed h in
      let (y, by', at', hash', when') = g.pushed x in
      (y, by' ∙ by, at' ∙ at, hash' ∙ hash, when' ∙ when);
}

abbrev Becomes : ConfigApprovalRequest → Approvals → String → Type 0
Becomes r t id = (s : ConfigApprovalRequest) × (get t id ≡ some s) × Follows r s

put-Becomes :
    (i id : String) (r s : ConfigApprovalRequest) (t : Approvals)
    → get t id ≡ some r
    → ((i ≡ id) → Follows r s)
    → Becomes r (put t i s) id
put-Becomes i id r s t g h = elim (Bool-cases (i == id)) [
  | inl b ↦ (s, ground (arith, b, get-put t i id s), h (ground (arith, b, eq_iff i id)))
  | inr b ↦ (r, ground (arith, b, g, get-put t i id s), Follows-refl r)
]

commit-Becomes :
    (fault : Fault) (i id : String) (r s : ConfigApprovalRequest) (t : Approvals)
    → get t id ≡ some r
    → ((i ≡ id) → Follows r s)
    → Becomes r (commit fault i s t).0 id
unfolding commit
commit-Becomes answered i id r s t g h = put-Becomes i id r s t g h
commit-Becomes refused i id r s t g h = (r, g, Follows-refl r)
commit-Becomes answer_lost i id r s t g h = put-Becomes i id r s t g h

-- Two reads of one row.
same_row :
    (t : Approvals) (i id : String) (q r : ConfigApprovalRequest)
    → get t i ≡ some q
    → get t id ≡ some r
    → (i ≡ id)
    → q ≡ r
same_row t i id q r f g e = ground (arith, f, g, e)

updated_row-Follows : (req r : ConfigApprovalRequest) → Follows r (updated_row req r)
unfolding updated_row
updated_row-Follows req r = record {
  workload_id = refl;
  target_group = refl;
  created_at = refl;
  approved = λ h. (inl h, refl, refl);
  pushed = λ h. (h, refl, refl, refl, refl);
}

upsert-Becomes :
    (fault : Fault) (i id : String) (req r : ConfigApprovalRequest) (t : Approvals)
    → get t id ≡ some r
    → Becomes r (upsert fault i req t).0 id
unfolding upsert updated_row
upsert-Becomes fault i id req r t g = elim (Option-cases (get t i)) [
  | inr (q, f) ↦
      rw (f, upsert)
        (commit-Becomes fault i id r (updated_row req q) t g (λ e.
          subst (λ x. Follows x (updated_row req q)) (same_row t i id q r f g e)
            (updated_row-Follows req q)))
  | inl f ↦
      elim (Bool-cases (
        req.status == pending_status
        && is_present (pending_request req.workload_id req.target_group t))) [
          | inl b ↦ rw (f, upsert, b) (r, g, Follows-refl r)
          | inr b ↦
              rw (f, upsert, b) (commit-Becomes fault i id r req t g (λ e. ground (arith, f, g, e)))
        ]
]

status_known :
    (r : ConfigApprovalRequest) (known other : String)
    → r.status ≡ known
    → (known == other) ≡ false
    → (r.status == other) ≡ false
status_known r known other h f = rw h f

approved_row-Follows :
    (by comment : String) (at : Time) (r : ConfigApprovalRequest)
    → (r.status == pending_status) ≡ true
    → Follows r (approved_row by comment at r)
unfolding approved_row
approved_row-Follows by comment at r b = record {
  workload_id = refl;
  target_group = refl;
  created_at = refl;
  approved = λ h. ground (arith, b, status_known r approved_status pending_status h refl);
  pushed = λ h. ground (arith, b, status_known r pushed_status pending_status h refl);
}

pushed_row-Follows :
    (p : Push) (r : ConfigApprovalRequest)
    → (r.status == approved_status || r.status == pending_status) ≡ true
    → Follows r (pushed_row p r)
unfolding pushed_row
pushed_row-Follows p r b = record {
  workload_id = refl;
  target_group = refl;
  created_at = refl;
  approved = λ h. (inr refl, refl, refl);
  pushed = λ h. ground (
    arith,
    b,
    status_known r pushed_status pending_status h refl,
    status_known r pushed_status approved_status h refl,
  );
}

approve-Becomes :
    (fault : Fault) (i id by comment : String) (at : Time) (r : ConfigApprovalRequest)
    (t : Approvals)
    → get t id ≡ some r
    → Becomes r (approve_config_approval_request fault i by comment at t).0 id
unfolding approve_config_approval_request
approve-Becomes fault i id by comment at r t g = elim (Option-cases (get t i)) [
  | inl f ↦ rw (f, approve_config_approval_request) (r, g, Follows-refl r)
  | inr (q, f) ↦ elim (Bool-cases (q.status == pending_status)) [
    | inr b ↦ rw (f, approve_config_approval_request, b) (r, g, Follows-refl r)
    | inl b ↦
        rw (f, approve_config_approval_request, b)
          (commit-Becomes fault i id r (approved_row by comment at q) t g (λ e.
            subst (λ x. Follows x (approved_row by comment at q)) (same_row t i id q r f g e)
              (approved_row-Follows by comment at q b)))
  ]
]

push-Becomes :
    (fault : Fault) (i id : String) (p : Push) (r : ConfigApprovalRequest) (t : Approvals)
    → get t id ≡ some r
    → Becomes r (mark_config_approval_request_pushed fault i p t).0 id
unfolding mark_config_approval_request_pushed
push-Becomes fault i id p r t g = elim (Option-cases (get t i)) [
  | inl f ↦ rw (f, mark_config_approval_request_pushed) (r, g, Follows-refl r)
  | inr (q, f) ↦ elim (Bool-cases (q.status == approved_status || q.status == pending_status)) [
    | inr b ↦ rw (f, mark_config_approval_request_pushed, b) (r, g, Follows-refl r)
    | inl b ↦
        rw (f, mark_config_approval_request_pushed, b)
          (commit-Becomes fault i id r (pushed_row p q) t g (λ e.
            subst (λ x. Follows x (pushed_row p q)) (same_row t i id q r f g e)
              (pushed_row-Follows p q b)))
  ]
]

step-Becomes :
    (e : Event) (id : String) (r : ConfigApprovalRequest) (t : Approvals)
    → get t id ≡ some r
    → Becomes r (step e t) id
unfolding step create_or_update_found
step-Becomes (requests fault i found fresh now req) id r t g =
    upsert-Becomes fault (resolved_id i found fresh) id (with_defaults now req) r t g
step-Becomes (approves fault i by comment at) id r t g =
    approve-Becomes fault i id by comment at r t g
step-Becomes (pushes fault i p) id r t g = push-Becomes fault i id p r t g

-- After any requests, approvals and pushes, in any order and with any failures, whatever the
-- lookups before the insertions have found, a request that is stored keeps its workload, its group
-- and the time of its creation. Once it is approved it stays approved by the same person at the
-- same time, until it is pushed; once it is pushed it stays so, with the same configuration, and is
-- not approved any more.
pub request_lifecycle :
    (es : List Event) (id : String) (r : ConfigApprovalRequest) (t : Approvals)
    → get t id ≡ some r
    → (s : ConfigApprovalRequest) × (get (run es t) id ≡ some s) × Follows r s
unfolding run
request_lifecycle [] id r t g = (r, g, Follows-refl r)
request_lifecycle (e ∷ es) id r t g =
    let (s, f, h) = step-Becomes e id r t g in
    let (u, k, j) = request_lifecycle es id s (step e t) f in (u, k, Follows-trans r s u h j)
