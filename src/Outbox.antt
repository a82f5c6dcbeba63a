-- ===== src/Outbox.antt =====
-- internal/store/audit_outbox.go: the table of audit events that wait for delivery, the rows by
-- their primary key, and the operations on it, each one statement of the database and so one step.
-- `uuid.Parse(...).String()` is the parameter `uuid_text`, the order of text of the database
-- `id_before`. A statement may fail before or after it is carried out. The times that an operation
-- passes to its statement arrive there cut to microseconds, and so do the times that come back.
pub mod Dispatcher
pub mod Backoff
pub mod Claims
pub mod Steps
pub mod Delivery
pub mod Turns
pub mod Deadline
mod Examples
use otel_magnify.Prelude.{
  ℕ, ◌+◌, Bool, true, false, not, ◌&&◌, ◌||◌, Option, none, some, List, [], ◌∷◌, String, ◌==◌,
  string_eq, nat_eq, ltb, leb, if◌then◌else◌,
}
use otel_magnify.Prelude.Dict.{Dict, get, put}
use otel_magnify.Prelude.Clock.{Time, is_zero, before, after, to_micros}

pub data OutboxError : Type 0 where
  token_not_canonical event_id_not_canonical zero_time time_not_utc lease_not_after_now
        next_attempt_before_completed duplicate_event database_error :
      OutboxError

pub data Result (A : Type 0) : Type 0 where
  ok : A → Result A
  failed : OutboxError → Result A

-- A `time.Time` argument with its location.
pub record Stamp : Type 0 where
  pub at : Time
  pub is_utc : Bool

pub record AuditEvent : Type 0 where
  pub event_id : String
  pub occurred_at : Time
  pub action : String
  pub user_id : String
  pub email : String
  pub resource : String
  pub resource_id : String
  pub detail : String

pub record PendingAuditEvent : Type 0 where
  pub event : AuditEvent
  pub attempt_count : ℕ
  pub claim_token : String
  pub lease_until : Time

-- The columns `claim_token` and `lease_until`, which the table keeps null together.
pub record Lease : Type 0 where
  pub claim_token : String
  pub lease_until : Time

pub record Row : Type 0 where
  pub occurred_at : Time
  pub action : String
  pub user_id : String
  pub email : String
  pub resource : String
  pub resource_id : String
  pub detail : String
  pub attempt_count : ℕ
  pub next_attempt_at : Time
  pub lease : Option Lease
  pub delivered_at : Option Time

abbrev pub AuditOutbox : Type 0
AuditOutbox = Dict String Row

-- Whether the database carries a statement out and whether its answer arrives.
pub data Fault : Type 0 where
  answered refused answer_lost : Fault

unfoldable pub validate_utc_time : Stamp → Option OutboxError
validate_utc_time value =
    if is_zero value.at
    then some zero_time
    else if not value.is_utc
    then some time_not_utc
    else none

unfoldable pub and_then : Option OutboxError → Option OutboxError → Option OutboxError
and_then none later = later
and_then (some e) later = some e

unfoldable pub is_delivered : Row → Bool
is_delivered r = elim r.delivered_at [ none ↦ false | some at ↦ true ]

-- `claim_token IS NULL OR lease_until <= $2`
unfoldable pub lease_is_over : Time → Option Lease → Bool
lease_is_over now none = true
lease_is_over now (some l) = leb l.lease_until now

-- The `WHERE` clause of a claim.
unfoldable pub is_due : Time → Row → Bool
unfolding is_delivered lease_is_over
is_due now r = not (is_delivered r) && leb r.next_attempt_at now && lease_is_over now r.lease

-- `claim_token = $2 AND $3 < lease_until`, both cut to microseconds
unfoldable pub holds_lease : String → Time → Option Lease → Bool
holds_lease token now none = false
holds_lease token now (some l) = l.claim_token == token && before now l.lease_until

unfoldable pub may_settle : String → Time → Row → Bool
unfolding is_delivered holds_lease
may_settle token completed_at r = holds_lease token completed_at r.lease && not (is_delivered r)

-- What the statements write. Their times have been cut to microseconds by then.
unfoldable pub lease_row : String → Time → Row → Row
lease_row token until r = record r {
  lease = some (record { claim_token = token; lease_until = until });
  attempt_count = r.attempt_count + 1;
}

unfoldable pub deliver_row : Time → Row → Row
deliver_row completed_at r = record r { delivered_at = some completed_at; lease = none }

unfoldable pub reschedule_row : Time → Row → Row
reschedule_row next_attempt_at r = record r { next_attempt_at = next_attempt_at; lease = none }

-- The columns that a claim returns.
unfoldable pub scan : String → String → Time → Row → PendingAuditEvent
scan id token until r = record {
  event = record {
    event_id = id;
    occurred_at = r.occurred_at;
    action = r.action;
    user_id = r.user_id;
    email = r.email;
    resource = r.resource;
    resource_id = r.resource_id;
    detail = r.detail;
  };
  attempt_count = r.attempt_count + 1;
  claim_token = token;
  lease_until = until;
}

-- An update of one row, and the answer to it.
unfoldable pub commit :
    {A : Type 0} → Fault → String → Row → A → AuditOutbox → AuditOutbox × Result A
commit answered id r a t = (put t id r, ok a)
commit refused id r a t = (t, failed database_error)
commit answer_lost id r a t = (put t id r, failed database_error)

-- A statement that meets no row.
unfoldable pub no_row : {A : Type 0} → Fault → A → AuditOutbox → AuditOutbox × Result A
no_row answered a t = (t, ok a)
no_row refused a t = (t, failed database_error)
no_row answer_lost a t = (t, failed database_error)

unfoldable pub settle_row :
    Fault
    → String
    → String
    → Time
    → (Row → Row)
    → Option Row
    → AuditOutbox
    → AuditOutbox × Result Bool
unfolding commit no_row may_settle
settle_row fault id token completed_at change none t = no_row fault false t
settle_row fault id token completed_at change (some r) t =
    if may_settle token completed_at r
    then commit fault id (change r) true t
    else no_row fault false t

unfoldable pub new_row : AuditEvent → Row
new_row e = record {
  occurred_at = to_micros e.occurred_at;
  action = e.action;
  user_id = e.user_id;
  email = e.email;
  resource = e.resource;
  resource_id = e.resource_id;
  detail = e.detail;
  attempt_count = 0;
  next_attempt_at = to_micros e.occurred_at;
  lease = none;
  delivered_at = none;
}

unfoldable pub insert_audit_outbox_event :
    Fault → AuditEvent → AuditOutbox → AuditOutbox × Result Unit
unfolding commit new_row
insert_audit_outbox_event fault e t = elim (get t e.event_id) [
  | some r ↦ (t, failed duplicate_event)
  | none ↦ commit fault e.event_id (new_row e) tt t
]

module _ (id_before : String → String → Bool) where
  -- `ORDER BY next_attempt_at, occurred_at, event_id`
  unfoldable pub comes_before : String → Row → String → Row → Bool
  comes_before i r j s =
      ltb r.next_attempt_at s.next_attempt_at
      || (r.next_attempt_at == s.next_attempt_at
          && (ltb r.occurred_at s.occurred_at || (r.occurred_at == s.occurred_at && id_before i j)))

  unfoldable pub earlier : String → Row → Option (String × Row) → Option (String × Row)
  unfolding comes_before
  earlier i r none = some (i, r)
  earlier i r (some (j, s)) = if comes_before j s i r then some (j, s) else some (i, r)

  -- The first due row in that order, of those that no other transaction has locked.
  unfoldable pub candidate : (String → Bool) → Time → AuditOutbox → Option (String × Row)
  unfolding is_due earlier
  candidate locked now [] = none
  candidate locked now ((i, r) ∷ t) =
      let rest = candidate locked now t in
      if is_due now r && not (locked i) then earlier i r rest else rest

  unfoldable pub claim_row :
      Fault
      → String
      → Time
      → Option (String × Row)
      → AuditOutbox
      → AuditOutbox × Result (Option PendingAuditEvent)
  unfolding commit no_row lease_row scan
  claim_row fault token until none t = no_row fault none t
  claim_row fault token until (some (id, r)) t =
      commit fault id (lease_row token until r) (some (scan id token until r)) t

  module _ (uuid_text : String → Option String) where
    unfoldable pub is_canonical_uuid : String → Bool
    is_canonical_uuid value = elim (uuid_text value) [ none ↦ false | some text ↦ text == value ]

    unfoldable pub validate_claim : String → Stamp → Stamp → Option OutboxError
    unfolding and_then validate_utc_time is_canonical_uuid
    validate_claim token now until =
        if not (is_canonical_uuid token)
        then some token_not_canonical
        else and_then (validate_utc_time now) (
            and_then (validate_utc_time until)
              (if not (after until.at now.at) then some lease_not_after_now else none))

    unfoldable pub claim_audit_outbox_event :
        (String → Bool)
        → Fault
        → String
        → Stamp
        → Stamp
        → AuditOutbox
        → AuditOutbox × Result (Option PendingAuditEvent)
    unfolding claim_row candidate validate_claim
    claim_audit_outbox_event locked fault token now until t =
        elim (validate_claim token now until) [
          | some e ↦ (t, failed e)
          | none ↦
              claim_row fault token (to_micros until.at) (candidate locked (to_micros now.at) t) t
        ]

    unfoldable pub validate_outbox_completion : String → String → Stamp → Option OutboxError
    unfolding validate_utc_time is_canonical_uuid
    validate_outbox_completion event_id token completed_at =
        if not (is_canonical_uuid event_id)
        then some event_id_not_canonical
        else if not (is_canonical_uuid token)
        then some token_not_canonical
        else validate_utc_time completed_at

    unfoldable pub mark_audit_outbox_event_delivered :
        Fault → String → String → Stamp → AuditOutbox → AuditOutbox × Result Bool
    unfolding settle_row deliver_row validate_outbox_completion
    mark_audit_outbox_event_delivered fault id token completed_at t =
        elim (validate_outbox_completion id token completed_at) [
          | some e ↦ (t, failed e)
          | none ↦
              settle_row fault id token (to_micros completed_at.at)
                (deliver_row (to_micros completed_at.at)) (get t id) t
        ]

    unfoldable pub validate_reschedule : String → String → Stamp → Stamp → Option OutboxError
    unfolding and_then validate_utc_time validate_outbox_completion
    validate_reschedule id token completed_at next =
        and_then (validate_outbox_completion id token completed_at) (
          and_then (validate_utc_time next)
            (if before next.at completed_at.at then some next_attempt_before_completed else none))

    unfoldable pub reschedule_audit_outbox_event :
        Fault → String → String → Stamp → Stamp → AuditOutbox → AuditOutbox × Result Bool
    unfolding settle_row reschedule_row validate_reschedule
    reschedule_audit_outbox_event fault id token completed_at next t =
        elim (validate_reschedule id token completed_at next) [
          | some e ↦ (t, failed e)
          | none ↦
              settle_row fault id token (to_micros completed_at.at)
                (reschedule_row (to_micros next.at)) (get t id) t
        ]
