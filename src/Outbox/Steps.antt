-- ===== src/Outbox/Steps.antt =====
-- Each statement keeps the keys unique, and keeps the rows that it may not write.
use otel_magnify.Prelude.{
  ◌≡◌, ◌≢◌, inl, inr, true, false, Option, none, some, List, [], ◌∷◌, string_eq, arith, String, All,
  Option-cases, Bool-cases, Bool,
}
use otel_magnify.Prelude.Dict.{get, IsMap}
use otel_magnify.Prelude.Clock.{Time, to_micros}
use otel_magnify.Outbox.{
  AuditOutbox, Fault, Row, is_due, may_settle, commit, settle_row, candidate, claim_row, lease_row,
  scan, new_row, deliver_row, reschedule_row, PendingAuditEvent, claim_audit_outbox_event,
  mark_audit_outbox_event_delivered, reschedule_audit_outbox_event, insert_audit_outbox_event,
  validate_claim, validate_outbox_completion, validate_reschedule,
}
use otel_magnify.Outbox.Claims.{
  Statement, inserts, claims, marks, reschedules, step, run, candidate-due, get-commit,
  no_row-keeps, commit-IsMap, no_row-IsMap,
}

commit-elsewhere :
    {A : Type 0} (fault : Fault) (i id : String) (s : Row) (a : A) (t : AuditOutbox)
    → i ≢ id
    → get (commit fault i s a t).0 id ≡ get t id
commit-elsewhere fault i id s a t h = elim (get-commit fault i id s a t) [
  | inl e ↦ e
  | inr (e, f) ↦ ground arith
]

settle-keeps :
    (fault : Fault) (i id token : String) (at : Time) (change : Row → Row) (r : Row)
    (t : AuditOutbox)
    → get t id ≡ some r
    → ((i ≡ id) → may_settle token at r ≡ false)
    → get (settle_row fault i token at change (get t i) t).0 id ≡ some r
unfolding settle_row
settle-keeps fault i id token at change r t e h = elim (Option-cases (get t i)) [
  | inl f ↦ rw (f, no_row-keeps fault false t) e
  | inr (s, f) ↦ rw f (elim (Bool-cases (may_settle token at s)) [
    | inl b ↦ rw (b, commit-elsewhere fault i id (change s) true t (λ q. ground (arith, h q))) e
    | inr b ↦ rw (b, no_row-keeps fault false t) e
  ])
]

settle-IsMap :
    (fault : Fault) (i token : String) (at : Time) (change : Row → Row) (o : Option Row)
    (t : AuditOutbox)
    → IsMap t
    → IsMap (settle_row fault i token at change o t).0
unfolding settle_row
settle-IsMap fault i token at change none t m = no_row-IsMap fault false t m
settle-IsMap fault i token at change (some s) t m = elim (Bool-cases (may_settle token at s)) [
  | inl b ↦ rw b (commit-IsMap fault i (change s) true t m)
  | inr b ↦ rw b (no_row-IsMap fault false t m)
]

-- A statement that does not write the row.
abbrev pub Spares : String → Row → Statement → Type 0
Spares id r (inserts fault e) = Unit
Spares id r (claims locked fault token now until) = is_due (to_micros now.at) r ≡ false
Spares id r (marks fault i token at) = (i ≡ id) → may_settle token (to_micros at.at) r ≡ false
Spares id r (reschedules fault i token at next) =
    (i ≡ id) → may_settle token (to_micros at.at) r ≡ false

module _ (id_before : String → String → Bool) (uuid_text : String → Option String) where
  claim-keeps :
      (id token : String) (r : Row) (locked : String → Bool) (fault : Fault) (now until : Time)
      (t : AuditOutbox)
      → IsMap t
      → get t id ≡ some r
      → is_due now r ≡ false
      → get (claim_row id_before fault token until (candidate id_before locked now t) t).0 id
        ≡ some r
  unfolding claim_row
  claim-keeps id token r locked fault now until t m g h =
      elim (Option-cases (candidate id_before locked now t)) [
        | inl c ↦ rw (c, no_row-keeps {A = Option PendingAuditEvent} fault none t) g
        | inr ((j, s), c) ↦
            let (due, found) = candidate-due id_before locked now t j s m c in
            rw
              (
                c,
                commit-elsewhere fault j id (lease_row token until s) (some (scan j token until s))
                    t (λ q. ground arith),
              )
              g
      ]

  pub step-keeps :
      (id : String) (r : Row) (s : Statement) (t : AuditOutbox)
      → IsMap t
      → get t id ≡ some r
      → Spares id r s
      → get (step id_before uuid_text s t) id ≡ some r
  unfolding step insert_audit_outbox_event claim_audit_outbox_event
      mark_audit_outbox_event_delivered reschedule_audit_outbox_event
  step-keeps id r (inserts fault e) t m g h = elim (Option-cases (get t e.event_id)) [
    | inl f ↦
        rw
          (
            f,
            step,
            insert_audit_outbox_event,
            commit-elsewhere fault e.event_id id (new_row e) tt t (λ q. cc),
          )
          g
    | inr (s, f) ↦ rw (f, step, insert_audit_outbox_event) g
  ]
  step-keeps id r (claims locked fault token now until) t m g h =
      elim (Option-cases (validate_claim id_before uuid_text token now until)) [
        | inl v ↦
            rw (v, step, claim_audit_outbox_event)
              (claim-keeps id token r locked fault (to_micros now.at) (to_micros until.at) t m g h)
        | inr (e, v) ↦ rw (v, step, claim_audit_outbox_event) g
      ]
  step-keeps id r (marks fault i token at) t m g h =
      elim (Option-cases (validate_outbox_completion id_before uuid_text i token at)) [
        | inl v ↦
            rw (v, step, mark_audit_outbox_event_delivered)
              (settle-keeps fault i id token (to_micros at.at) (deliver_row (to_micros at.at)) r t g
                h)
        | inr (e, v) ↦ rw (v, step, mark_audit_outbox_event_delivered) g
      ]
  step-keeps id r (reschedules fault i token at next) t m g h =
      elim (Option-cases (validate_reschedule id_before uuid_text i token at next)) [
        | inl v ↦
            rw (v, step, reschedule_audit_outbox_event)
              (settle-keeps fault i id token (to_micros at.at) (reschedule_row (to_micros next.at))
                r t g h)
        | inr (e, v) ↦ rw (v, step, reschedule_audit_outbox_event) g
      ]

  pub step-IsMap :
      (s : Statement) (t : AuditOutbox) → IsMap t → IsMap (step id_before uuid_text s t)
  unfolding step insert_audit_outbox_event claim_audit_outbox_event
      mark_audit_outbox_event_delivered reschedule_audit_outbox_event claim_row
  step-IsMap (inserts fault e) t m = elim (Option-cases (get t e.event_id)) [
    | inl f ↦
        rw (f, step, insert_audit_outbox_event) (commit-IsMap fault e.event_id (new_row e) tt t m)
    | inr (s, f) ↦ rw (f, step, insert_audit_outbox_event) m
  ]
  step-IsMap (claims locked fault token now until) t m =
      elim (Option-cases (validate_claim id_before uuid_text token now until)) [
        | inl v ↦ elim (Option-cases (candidate id_before locked (to_micros now.at) t)) [
          | inl c ↦
              rw (v, step, claim_audit_outbox_event, c, claim_row)
                (no_row-IsMap {A = Option PendingAuditEvent} fault none t m)
          | inr ((i, r), c) ↦
              rw (v, step, claim_audit_outbox_event, c, claim_row)
                (commit-IsMap fault i (lease_row token (to_micros until.at) r)
                  (some (scan i token (to_micros until.at) r)) t m)
        ]
        | inr (e, v) ↦ rw (v, step, claim_audit_outbox_event) m
      ]
  step-IsMap (marks fault i token at) t m =
      elim (Option-cases (validate_outbox_completion id_before uuid_text i token at)) [
        | inl v ↦
            rw (v, step, mark_audit_outbox_event_delivered)
              (settle-IsMap fault i token (to_micros at.at) (deliver_row (to_micros at.at))
                (get t i) t m)
        | inr (e, v) ↦ rw (v, step, mark_audit_outbox_event_delivered) m
      ]
  step-IsMap (reschedules fault i token at next) t m =
      elim (Option-cases (validate_reschedule id_before uuid_text i token at next)) [
        | inl v ↦
            rw (v, step, reschedule_audit_outbox_event)
              (settle-IsMap fault i token (to_micros at.at) (reschedule_row (to_micros next.at))
                (get t i) t m)
        | inr (e, v) ↦ rw (v, step, reschedule_audit_outbox_event) m
      ]

  pub run-keeps :
      (id : String) (r : Row) (ss : List Statement) (t : AuditOutbox)
      → IsMap t
      → get t id ≡ some r
      → All (Spares id r) ss
      → get (run id_before uuid_text ss t) id ≡ some r
  unfolding run
  run-keeps id r [] t m g h = g
  run-keeps id r (s ∷ ss) t m g h =
      run-keeps id r ss (step id_before uuid_text s t) (step-IsMap s t m)
        (step-keeps id r s t m g h.0) h.1
