-- ===== src/Approvals.antt =====
-- internal/store/config_approvals.go over its table: the rows by their primary key. Each statement is
-- one step, which may be refused, or carried out with its answer lost. The lookup of a pending
-- request and the insertion that follows it are two statements, so the insertion takes what the
-- lookup has found as an argument.
pub mod Lifecycle
mod Examples
use otel_magnify.Prelude.{
  ℕ, Bool, true, false, not, ◌&&◌, ◌||◌, Option, none, some, List, [], ◌∷◌, String, ◌==◌, string_eq,
  if◌then◌else◌,
}
use otel_magnify.Prelude.Dict.{Dict, get, put}
use otel_magnify.Prelude.Clock.{Time, is_zero}
use otel_magnify.Outbox.{Fault, answered, refused, answer_lost}

abbrev pub pending_status : String
pending_status = "pending"

abbrev pub approved_status : String
approved_status = "approved"

abbrev pub pushed_status : String
pushed_status = "pushed"

-- The columns beside the key, and the fields of a request beside its identifier.
pub record ConfigApprovalRequest : Type 0 where
  pub workload_id : String
  pub draft_yaml : String
  pub target_group : String
  pub target_env : String
  pub requester : String
  pub request_comment : String
  pub approver : String
  pub approval_comment : String
  pub status : String
  pub approved_by : Option String
  pub approved_at : Option Time
  pub push_comment : Option String
  pub prod_target : Bool
  pub prod_confirmation : Bool
  pub prod_double_confirmed : Bool
  pub break_glass : Bool
  pub break_glass_reason : Option String
  pub config_hash : Option String
  pub created_at : Time
  pub updated_at : Time
  pub pushed_at : Option Time

abbrev pub Approvals : Type 0
Approvals = Dict String ConfigApprovalRequest

pub data ApprovalError : Type 0 where
  no_rows store_error : ApprovalError

pub data Answer : Type 0 where
  returns : ConfigApprovalRequest → Answer
  fails : ApprovalError → Answer

unfoldable pub is_pending_for : String → String → ConfigApprovalRequest → Bool
is_pending_for workload_id target_group r =
    r.workload_id == workload_id && r.target_group == target_group && r.status == pending_status

-- getPendingConfigApprovalRequest, the identifier of the row
unfoldable pub pending_request : String → String → Approvals → Option String
unfolding is_pending_for
pending_request workload_id target_group [] = none
pending_request workload_id target_group ((id, r) ∷ t) =
    let rest = pending_request workload_id target_group t in
    if is_pending_for workload_id target_group r then some id else rest

-- The identifier of the request, or of the pending one that was found, or a fresh one.
unfoldable pub resolved_id : String → Option String → String → String
resolved_id id found fresh =
    if not (id == "") then id else elim found [ none ↦ fresh | some existing ↦ existing ]

unfoldable pub with_defaults : Time → ConfigApprovalRequest → ConfigApprovalRequest
with_defaults now req = record req {
  status = if req.status == "" then pending_status else req.status;
  created_at = if is_zero req.created_at then now else req.created_at;
  updated_at = now;
}

-- `ON CONFLICT(id) DO UPDATE SET`
unfoldable pub updated_row : ConfigApprovalRequest → ConfigApprovalRequest → ConfigApprovalRequest
updated_row req r = record r {
  draft_yaml = req.draft_yaml;
  target_env = req.target_env;
  requester = req.requester;
  request_comment = req.request_comment;
  prod_target = req.prod_target;
  prod_confirmation = req.prod_confirmation;
  updated_at = req.updated_at;
}

unfoldable pub commit : Fault → String → ConfigApprovalRequest → Approvals → Approvals × Answer
commit answered id r t = (put t id r, returns r)
commit refused id r t = (t, fails store_error)
commit answer_lost id r t = (put t id r, fails store_error)

unfoldable pub is_present : Option String → Bool
is_present none = false
is_present (some id) = true

-- The insertion; the index of the table holds one pending request for a workload and a group.
unfoldable pub upsert : Fault → String → ConfigApprovalRequest → Approvals → Approvals × Answer
unfolding pending_request updated_row commit is_present
upsert fault id req t = elim (get t id) [
  | some r ↦ commit fault id (updated_row req r) t
  | none ↦
      if req.status == pending_status
        && is_present (pending_request req.workload_id req.target_group t)
      then (t, fails store_error)
      else commit fault id req t
]

-- CreateOrUpdateConfigApprovalRequest, after its lookup has found `found`.
unfoldable pub create_or_update_found :
    Fault
    → String
    → Option String
    → String
    → Time
    → ConfigApprovalRequest
    → Approvals
    → Approvals × Answer
unfolding resolved_id with_defaults upsert
create_or_update_found fault id found fresh now req t =
    upsert fault (resolved_id id found fresh) (with_defaults now req) t

-- The whole, when nothing comes between.
unfoldable pub create_or_update_config_approval_request :
    Fault → String → String → Time → ConfigApprovalRequest → Approvals → Approvals × Answer
unfolding create_or_update_found pending_request
create_or_update_config_approval_request fault id fresh now req t =
    create_or_update_found fault id (pending_request req.workload_id req.target_group t) fresh now
      req t

unfoldable pub approved_row : String → String → Time → ConfigApprovalRequest → ConfigApprovalRequest
approved_row approved_by comment at r = record r {
  status = approved_status;
  approver = approved_by;
  approval_comment = comment;
  approved_by = some approved_by;
  approved_at = some at;
  updated_at = at;
}

unfoldable pub approve_config_approval_request :
    Fault → String → String → String → Time → Approvals → Approvals × Answer
unfolding approved_row commit
approve_config_approval_request fault id approved_by comment at t = elim (get t id) [
  | none ↦ (t, fails no_rows)
  | some r ↦
      if r.status == pending_status
      then commit fault id (approved_row approved_by comment at r) t
      else (t, fails no_rows)
]

-- What a push records.
pub record Push : Type 0 where
  pub config_hash : String
  pub push_comment : String
  pub prod_double_confirmed : Bool
  pub break_glass : Bool
  pub break_glass_reason : String
  pub pushed_at : Time

unfoldable pub pushed_row : Push → ConfigApprovalRequest → ConfigApprovalRequest
pushed_row p r = record r {
  status = pushed_status;
  push_comment = some p.push_comment;
  prod_double_confirmed = p.prod_double_confirmed;
  break_glass = p.break_glass;
  break_glass_reason = if p.break_glass_reason == "" then none else some p.break_glass_reason;
  config_hash = some p.config_hash;
  pushed_at = some p.pushed_at;
  updated_at = p.pushed_at;
}

unfoldable pub mark_config_approval_request_pushed :
    Fault → String → Push → Approvals → Approvals × Answer
unfolding pushed_row commit
mark_config_approval_request_pushed fault id p t = elim (get t id) [
  | none ↦ (t, fails no_rows)
  | some r ↦
      if r.status == approved_status || r.status == pending_status
      then commit fault id (pushed_row p r) t
      else (t, fails no_rows)
]
