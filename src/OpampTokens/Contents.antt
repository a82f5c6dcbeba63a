-- ===== src/OpampTokens/Contents.antt =====
-- The columns of an audit event in the table of internal/store/audit_outbox.go, along its statements.
use otel_magnify.Prelude.{
  ◌≡◌, inl, inr, refl, ◌∙◌, ap, true, false, Option, none, some, string_eq, arith, String,
  Option-cases, Bool-cases, Bool,
}
use otel_magnify.Prelude.Dict.{get, IsMap}
use otel_magnify.Prelude.Clock.{Time, to_micros}
use otel_magnify.Outbox.{
  AuditEvent, AuditOutbox, Fault, Row, may_settle, commit, settle_row, candidate, claim_row,
  lease_row, scan, new_row, deliver_row, reschedule_row, PendingAuditEvent,
  claim_audit_outbox_event, mark_audit_outbox_event_delivered, reschedule_audit_outbox_event,
  insert_audit_outbox_event, validate_claim, validate_outbox_completion, validate_reschedule,
}
use otel_magnify.Outbox.Claims.{
  Statement, inserts, claims, marks, reschedules, step, candidate-due, get-commit, no_row-keeps,
}

-- The columns of a row that hold its event.
unfoldable pub content : Row → AuditEvent
content r = (scan "" "" 0 r).event

abbrev pub Holds : AuditOutbox → String → Row → Type 0
Holds t id r = (s : Row) × (get t id ≡ some s) × (content s ≡ content r)

commit-content :
    {A : Type 0} (fault : Fault) (j id : String) (s r : Row) (a : A) (t : AuditOutbox)
    → get t id ≡ some r
    → ((j ≡ id) → content s ≡ content r)
    → Holds (commit fault j s a t).0 id r
commit-content fault j id s r a t g h = elim (get-commit fault j id s a t) [
  | inl e ↦ (r, e ∙ g, refl)
  | inr (q, f) ↦ (s, f, h q)
]

-- Two reads of the same row.
content-at :
    (t : AuditOutbox) (j id : String) (s r : Row)
    → get t id ≡ some r
    → get t j ≡ some s
    → (j ≡ id)
    → content s ≡ content r
content-at t j id s r g f q = ap content (ground (arith, g, f, q))

settle-content :
    (fault : Fault) (i id token : String) (at : Time) (change : Row → Row) (r : Row)
    (t : AuditOutbox)
    → get t id ≡ some r
    → ((s : Row) → content (change s) ≡ content s)
    → Holds (settle_row fault i token at change (get t i) t).0 id r
unfolding settle_row
settle-content fault i id token at change r t g same = elim (Option-cases (get t i)) [
  | inl f ↦ rw (f, no_row-keeps fault false t) (r, g, refl)
  | inr (s, f) ↦ rw f (elim (Bool-cases (may_settle token at s)) [
    | inl b ↦ rw b (
        commit-content fault i id (change s) r true t g (λ q. same s ∙ content-at t i id s r g f q))
    | inr b ↦ rw (b, no_row-keeps fault false t) (r, g, refl)
  ])
]

module _ (id_before : String → String → Bool) (uuid_text : String → Option String) where
  claim-content :
      (id token : String) (r : Row) (locked : String → Bool) (fault : Fault) (now until : Time)
      (t : AuditOutbox)
      → IsMap t
      → get t id ≡ some r
      → Holds (claim_row id_before fault token until (candidate id_before locked now t) t).0 id r
  unfolding claim_row content
  claim-content id token r locked fault now until t m g =
      elim (Option-cases (candidate id_before locked now t)) [
        | inl c ↦ rw (c, no_row-keeps {A = Option PendingAuditEvent} fault none t) (r, g, refl)
        | inr ((j, s), c) ↦
            let (due, found) = candidate-due id_before locked now t j s m c in
            rw c (
              commit-content fault j id (lease_row token until s) r (some (scan j token until s)) t
                g (λ q. content-at t j id s r g found q))
      ]

  pub step-content :
      (id : String) (r : Row) (s : Statement) (t : AuditOutbox)
      → IsMap t
      → get t id ≡ some r
      → Holds (step id_before uuid_text s t) id r
  unfolding step insert_audit_outbox_event claim_audit_outbox_event
      mark_audit_outbox_event_delivered reschedule_audit_outbox_event content
  step-content id r (inserts fault e) t m g = elim (Option-cases (get t e.event_id)) [
    | inl f ↦
        rw (f, step, insert_audit_outbox_event)
          (commit-content fault e.event_id id (new_row e) r tt t g (λ q. ground (arith, f, g, q)))
    | inr (s, f) ↦ rw (f, step, insert_audit_outbox_event) (r, g, refl)
  ]
  step-content id r (claims locked fault token now until) t m g =
      elim (Option-cases (validate_claim id_before uuid_text token now until)) [
        | inl v ↦
            rw (v, step, claim_audit_outbox_event)
              (claim-content id token r locked fault (to_micros now.at) (to_micros until.at) t m g)
        | inr (e, v) ↦ rw (v, step, claim_audit_outbox_event) (r, g, refl)
      ]
  step-content id r (marks fault i token at) t m g =
      elim (Option-cases (validate_outbox_completion id_before uuid_text i token at)) [
        | inl v ↦
            rw (v, step, mark_audit_outbox_event_delivered)
              (settle-content fault i id token (to_micros at.at) (deliver_row (to_micros at.at)) r t
                g (λ s. refl))
        | inr (e, v) ↦ rw (v, step, mark_audit_outbox_event_delivered) (r, g, refl)
      ]
  step-content id r (reschedules fault i token at next) t m g =
      elim (Option-cases (validate_reschedule id_before uuid_text i token at next)) [
        | inl v ↦
            rw (v, step, reschedule_audit_outbox_event)
              (settle-content fault i id token (to_micros at.at)
                (reschedule_row (to_micros next.at)) r t g (λ s. refl))
        | inr (e, v) ↦ rw (v, step, reschedule_audit_outbox_event) (r, g, refl)
      ]
