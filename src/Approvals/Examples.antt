-- ===== src/Approvals/Examples.antt =====
-- A request, its approval and its push.
use otel_magnify.Prelude.{◌≡◌, refl, true, false, none, some, List, [], ◌∷◌, String, string_eq}
use otel_magnify.Prelude.Dict.{get, put}
use otel_magnify.Outbox.{answered, answer_lost}
use otel_magnify.Approvals.{
  ConfigApprovalRequest, Approvals, is_pending_for, pending_request, resolved_id, with_defaults,
  updated_row, commit, is_present, upsert, create_or_update_found,
  create_or_update_config_approval_request, approved_row, approve_config_approval_request,
  pushed_row, mark_config_approval_request_pushed,
}
use otel_magnify.Approvals.Lifecycle.{
  Event, requests, approves, pushes, step, run, Follows, request_lifecycle,
}

-- Opens the table for a test.
opened : Approvals
unfolding get put is_pending_for pending_request resolved_id with_defaults updated_row commit
    is_present upsert create_or_update_found create_or_update_config_approval_request approved_row
    approve_config_approval_request pushed_row mark_config_approval_request_pushed step run
opened = []

abbrev request : String → ConfigApprovalRequest
request draft = record {
  workload_id = "w1";
  draft_yaml = draft;
  target_group = "g1";
  target_env = "prod";
  requester = "ada";
  request_comment = "";
  approver = "";
  approval_comment = "";
  status = "";
  approved_by = none;
  approved_at = none;
  push_comment = none;
  prod_target = true;
  prod_confirmation = true;
  prod_double_confirmed = false;
  break_glass = false;
  break_glass_reason = none;
  config_hash = none;
  created_at = 0;
  updated_at = 0;
  pushed_at = none;
}

abbrev asked : Approvals
asked = (create_or_update_config_approval_request answered "" "car_1" 10 (request "a: 1") []).0

-- A second request updates the pending one.
finds_pending :
    (create_or_update_config_approval_request answered "" "car_2" 20 (request "a: 2") asked).0
    ≡ put asked "car_1"
        (record (request "a: 2") { status = "pending"; created_at = 10; updated_at = 20 })
unfolding opened
finds_pending = refl

abbrev approved : Approvals
approved = run (approves answered "car_1" "bob" "fine" 30 ∷ []) asked

abbrev approved_request : ConfigApprovalRequest
approved_request = record (request "a: 1") {
  status = "approved";
  approver = "bob";
  approval_comment = "fine";
  approved_by = some "bob";
  approved_at = some 30;
  created_at = 10;
  updated_at = 30;
}

request_approved : get approved "car_1" ≡ some approved_request
unfolding opened
request_approved = refl

-- A request that found the pending one before its approval replaces the draft after it.
draft_replaced :
    get
      (run (requests answered "" (some "car_1") "car_2" 40 (request "b: 2") ∷ []) approved)
      "car_1"
    ≡ some (record approved_request { draft_yaml = "b: 2"; updated_at = 40 })
unfolding opened
draft_replaced = refl

abbrev later : List Event
later =
    requests answered "" (some "car_1") "car_2" 40 (request "b: 2")
    ∷ pushes answer_lost "car_1" (record {
      config_hash = "h";
      push_comment = "";
      prod_double_confirmed = true;
      break_glass = false;
      break_glass_reason = "";
      pushed_at = 50;
    })
    ∷ approves answered "car_1" "eve" "" 60
    ∷ []

request_lifecycle_example :
    (s : ConfigApprovalRequest) × (get (run later approved) "car_1" ≡ some s)
    × Follows approved_request s
request_lifecycle_example =
    request_lifecycle later "car_1" approved_request approved request_approved
