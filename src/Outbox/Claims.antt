-- ===== src/Outbox/Claims.antt =====
-- A claim holds its row until it is settled or its lease is over, and a delivered row stays.
use otel_magnify.Prelude.{
  ◌<◌, ◌≡◌, ◌≢◌, ◌⊎◌, inl, inr, refl, true, false, not, ◌&&◌, Option, none, some, List, [], ◌∷◌,
  string_eq, arith, eq_iff, String, Bool-cases, Bool,
}
use otel_magnify.Prelude.Dict.{get, get-put, put-IsMap, IsMap}
use otel_magnify.Prelude.Clock.{Time}
use otel_magnify.Outbox.{
  AuditEvent, AuditOutbox, Fault, answered, refused, answer_lost, Stamp, Row, Lease, is_due,
  lease_is_over, holds_lease, may_settle, is_delivered, comes_before, commit, no_row, earlier,
  candidate, claim_audit_outbox_event, mark_audit_outbox_event_delivered,
  reschedule_audit_outbox_event, insert_audit_outbox_event,
}

-- The statements that run on the table, each with its failure.
pub data Statement : Type 0 where
  inserts : Fault → AuditEvent → Statement
  claims : (String → Bool) → Fault → String → Stamp → Stamp → Statement
  marks : Fault → String → String → Stamp → Statement
  reschedules : Fault → String → String → Stamp → Stamp → Statement

module _ (id_before : String → String → Bool) (uuid_text : String → Option String) where
  unfoldable pub step : Statement → AuditOutbox → AuditOutbox
  step (inserts fault e) t = (insert_audit_outbox_event fault e t).0
  step (claims locked fault token now until) t =
      (claim_audit_outbox_event id_before uuid_text locked fault token now until t).0
  step (marks fault id token at) t =
      (mark_audit_outbox_event_delivered id_before uuid_text fault id token at t).0
  step (reschedules fault id token at next) t =
      (reschedule_audit_outbox_event id_before uuid_text fault id token at next t).0

  unfoldable pub run : List Statement → AuditOutbox → AuditOutbox
  unfolding step
  run [] t = t
  run (s ∷ ss) t = run ss (step s t)

-- A statement that writes a row writes it at its key, or nothing.
pub get-commit :
    {A : Type 0} (fault : Fault) (id j : String) (r : Row) (a : A) (t : AuditOutbox)
    → (get (commit fault id r a t).0 j ≡ get t j)
      ⊎ ((id ≡ j) × (get (commit fault id r a t).0 j ≡ some r))
unfolding commit
get-commit answered id j r a t = ground (arith, get-put t id j r, eq_iff id j)
get-commit refused id j r a t = inl refl
get-commit answer_lost id j r a t = ground (arith, get-put t id j r, eq_iff id j)

pub no_row-keeps : {A : Type 0} (fault : Fault) (a : A) (t : AuditOutbox) → (no_row fault a t).0 ≡ t
unfolding no_row
no_row-keeps answered a t = refl
no_row-keeps refused a t = refl
no_row-keeps answer_lost a t = refl

module _ (id_before : String → String → Bool) where
  earlier-cases :
      (i id : String) (s r : Row) (o : Option (String × Row))
      → earlier id_before i s o ≡ some (id, r)
      → ((i ≡ id) × (s ≡ r)) ⊎ (o ≡ some (id, r))
  unfolding earlier
  earlier-cases i id s r none h = inl (cc, cc)
  earlier-cases i id s r (some (j, q)) h = elim (Bool-cases (comes_before id_before j q i s)) [
    | inl b ↦ inr (ground arith)
    | inr b ↦ inl (ground arith)
  ]

  -- What a claim takes is a row of the table that is due.
  pub candidate-due :
      (locked : String → Bool) (now : Time) (t : AuditOutbox) (id : String) (r : Row)
      → IsMap t
      → candidate id_before locked now t ≡ some (id, r)
      → (is_due now r ≡ true) × (get t id ≡ some r)
  unfolding candidate get
  candidate-due locked now [] id r m h = cc
  candidate-due locked now ((i, s) ∷ t) id r m h =
      elim (Bool-cases (is_due now s && not (locked i))) [
        | inl d ↦ elim (earlier-cases i id s r (candidate id_before locked now t) (ground arith)) [
          | inl (e, f) ↦ (ground arith, ground (arith, eq_iff i id))
          | inr later ↦
              let (due, found) = candidate-due locked now t id r m.1 later in
              (due, ground (arith, eq_iff i id))
        ]
        | inr d ↦
            let (due, found) = candidate-due locked now t id r m.1 (ground arith) in
            (due, ground (arith, eq_iff i id))
      ]

pub commit-IsMap :
    {A : Type 0} (fault : Fault) (id : String) (r : Row) (a : A) (t : AuditOutbox)
    → IsMap t
    → IsMap (commit fault id r a t).0
unfolding commit
commit-IsMap answered id r a t m = put-IsMap t id r m
commit-IsMap refused id r a t m = m
commit-IsMap answer_lost id r a t m = put-IsMap t id r m

pub no_row-IsMap :
    {A : Type 0} (fault : Fault) (a : A) (t : AuditOutbox) → IsMap t → IsMap (no_row fault a t).0
no_row-IsMap fault a t m = rw (no_row-keeps fault a t) m

-- An active lease keeps a row from being due.
pub leased-not_due :
    (now : Time) (r : Row) (l : Lease)
    → r.lease ≡ some l
    → now < l.lease_until
    → is_due now r ≡ false
unfolding is_due lease_is_over
leased-not_due now r l h b = rw h (ground arith)

pub delivered-not_due : (now at : Time) (r : Row) → r.delivered_at ≡ some at → is_due now r ≡ false
unfolding is_due is_delivered
delivered-not_due now at r h = rw h refl

pub delivered-unsettled :
    (token : String) (now at : Time) (r : Row)
    → r.delivered_at ≡ some at
    → may_settle token now r ≡ false
unfolding may_settle is_delivered
delivered-unsettled token now at r h = rw h (ground arith)

pub leased-unsettled :
    (token : String) (now : Time) (r : Row) (l : Lease)
    → r.lease ≡ some l
    → l.claim_token ≢ token
    → may_settle token now r ≡ false
unfolding may_settle holds_lease
leased-unsettled token now r l h other = rw h (ground (arith, eq_iff l.claim_token token))
