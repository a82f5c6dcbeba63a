-- ===== src/OpampTokens/Trail.antt =====
-- The audit events that CreateOpAMPToken and RevokeOpAMPToken of internal/store/opamp_tokens.go write.
use otel_magnify.Prelude.{
  ◌≡◌, inl, inr, refl, sym, Bool, Option, none, some, List, [], ◌∷◌, String, ◌==◌, string_eq, arith,
  eq_iff, Option-cases, Bool-cases, nat_eq,
}
use otel_magnify.Prelude.Dict.{get, put, get-put, IsMap, put-IsMap}
use otel_magnify.Prelude.Clock.{Time, to_micros}
use otel_magnify.Outbox.{AuditEvent, AuditOutbox, Stamp, new_row}
use otel_magnify.Outbox.Claims.{Statement}
use otel_magnify.Outbox.Claims
use otel_magnify.Outbox.Steps.{step-IsMap}
use otel_magnify.OpampTokens.AuditEvents.{StampedEvent, validate_token_audit_event}
use otel_magnify.OpampTokens.{
  TokenRow, Store, is_present, inserted_row, revoked_row, validate_new, validate_revocation,
  create_opamp_token, revoke_opamp_token, OpampTokenCredential, and_then, checked, event_checked,
}
use otel_magnify.OpampTokens.Transactions.{
  Event, creates, revokes, uses, delivers, step, run, Written, create-either, revoke-either,
  mark-either,
}
use otel_magnify.OpampTokens.Contents.{step-content}
use otel_magnify.OpampTokens.Logged.{
  Tells, Logged, put-Logged, valid-Tells, new-Logged, Audited, put-Audited,
}

pub record Trail (db : Store) : Type 0 where
  pub keyed : IsMap db.outbox
  pub audited : (id : String) (r : TokenRow) → get db.tokens id ≡ some r → Audited db.outbox id r

-- A row that is written with an event.
Written-Trail :
    (id : String) (r : TokenRow) (e : AuditEvent) (db d : Store)
    → Written id r e db d
    → Trail db
    → Audited (put db.outbox e.event_id (new_row e)) id r
    → Trail d
Written-Trail id r e db d w h new = record {
  keyed = rw w.outbox (put-IsMap db.outbox e.event_id (new_row e) h.keyed);
  audited = λ j s g. elim (Bool-cases (id == j)) [
    | inl b ↦
        let q : id ≡ j = ground (arith, b, eq_iff id j) in
        let f : r ≡ s = ground (arith, b, g, w.tokens, get-put db.tokens id j r) in
        rw (w.outbox, sym q, sym f) new
    | inr b ↦ rw w.outbox (
        put-Audited db.outbox j s e.event_id (new_row e) w.fresh
          (h.audited j s (ground (arith, b, g, w.tokens, get-put db.tokens id j r))))
  ];
}

-- The time of the last use plays no part.
used-Trail :
    (id : String) (now : Time) (r : TokenRow) (db d : Store)
    → Trail db
    → get db.tokens id ≡ some r
    → d.tokens ≡ put db.tokens id (record r { last_used_at = some now })
    → d.outbox ≡ db.outbox
    → Trail d
used-Trail id now r db d h g t o =
    let new : TokenRow = record r { last_used_at = some now } in
    let a = h.audited id r g in
    record {
      keyed = rw o h.keyed;
      audited = λ j s f. elim (Bool-cases (id == j)) [
        | inl b ↦
            let q : id ≡ j = ground (arith, b, eq_iff id j) in
            let k : new ≡ s = ground (arith, b, f, t, get-put db.tokens id j new) in
            rw (o, sym q, sym k)
              (record { created = a.created; revoked = a.revoked; by_somebody = a.by_somebody })
        | inr b ↦ rw o (h.audited j s (ground (arith, b, f, t, get-put db.tokens id j new)))
      ];
    }

module _ (id_before : String → String → Bool) (uuid_text : String → Option String) where
  statement-Logged :
      (s : Statement) (outbox : AuditOutbox) (action id actor : String) (at : Time)
      → IsMap outbox
      → Logged outbox action id actor at
      → Logged (Claims.step id_before uuid_text s outbox) action id actor at
  statement-Logged s outbox action id actor at m (e, row, g, h) =
      let (r, f, same) = step-content id_before uuid_text e row s outbox m g in (e, r, f, rw same h)

  delivered-Trail :
      (s : Statement) (db : Store)
      → Trail db
      → Trail (record db { outbox = Claims.step id_before uuid_text s db.outbox })
  delivered-Trail s db h = record {
    keyed = step-IsMap id_before uuid_text s db.outbox h.keyed;
    audited = λ id r g.
        let a = h.audited id r g in
        record {
          created =
              statement-Logged s db.outbox "opamp.token.create" id r.created_by r.created_at h.keyed
                a.created;
          revoked = λ actor at f k.
              statement-Logged s db.outbox "opamp.token.revoke" id actor at h.keyed
                (a.revoked actor at f k);
          by_somebody = a.by_somebody;
        };
  }

  created-event :
      (c : OpampTokenCredential) (e : StampedEvent)
      → validate_new uuid_text c e ≡ none
      → Tells e.event "opamp.token.create" c.token.id c.token.created_by c.token.created_at.at
  unfolding validate_new and_then checked event_checked
  created-event c e v =
      elim (Option-cases (
        validate_token_audit_event uuid_text e "opamp.token.create" c.token.id c.token.created_by
          c.token.created_at.at)) [
            | inl n ↦
                valid-Tells uuid_text e "opamp.token.create" c.token.id c.token.created_by
                  c.token.created_at.at n
            | inr (x, f) ↦ ground (arith, v, f)
          ]

  revoked-event :
      (id by : String) (now : Stamp) (e : StampedEvent)
      → validate_revocation uuid_text id by now e ≡ none
      → Tells e.event "opamp.token.revoke" id by now.at
  unfolding validate_revocation and_then checked event_checked
  revoked-event id by now e v =
      elim (Option-cases
        (validate_token_audit_event uuid_text e "opamp.token.revoke" id by now.at)) [
          | inl n ↦ valid-Tells uuid_text e "opamp.token.revoke" id by now.at n
          | inr (x, f) ↦ ground (arith, v, f)
        ]

  step-Trail : (ev : Event) (db : Store) → Trail db → Trail (step id_before uuid_text ev db)
  unfolding step inserted_row revoked_row is_present
  step-Trail (creates transaction c e) db h = elim (create-either uuid_text transaction c e db) [
    | inl f ↦ rw f h
    | inr (v, absent, w) ↦
        Written-Trail c.token.id (inserted_row c) e.event db
          (create_opamp_token uuid_text transaction c e db).0 w h
          (record {
            created =
                new-Logged db.outbox e.event "opamp.token.create" c.token.id c.token.created_by
                  c.token.created_at.at (created-event c e v);
            revoked = λ actor at f k. ground (arith, f);
            by_somebody = refl;
          })
  ]
  step-Trail (revokes transaction id by now e) db h =
      elim (revoke-either uuid_text transaction id by now e db) [
        | inl f ↦ rw f h
        | inr (v, (r, g, free, w)) ↦
            Written-Trail id (revoked_row by now.at r) e.event db
              (revoke_opamp_token uuid_text transaction id by now e db).0 w h
              (record {
                created =
                    put-Logged db.outbox "opamp.token.create" id r.created_by r.created_at
                      e.event.event_id (new_row e.event) w.fresh (h.audited id r g).created;
                revoked = λ actor at f k.
                    let x : to_micros now.at ≡ at = ground (arith, f) in
                    let y : by ≡ actor = ground (arith, k) in
                    rw (sym x, sym y)
                      (new-Logged db.outbox e.event "opamp.token.revoke" id by now.at
                        (revoked-event id by now e v));
                by_somebody = refl;
              })
      ]
  step-Trail (uses transaction id now) db h = elim (mark-either uuid_text transaction id now db) [
    | inl f ↦ rw f h
    | inr (r, g, t, o) ↦ used-Trail id (to_micros now) r db _ h g t o
  ]
  step-Trail (delivers s) db h = delivered-Trail s db h

  run-Trail : (es : List Event) (db : Store) → Trail db → Trail (run id_before uuid_text es db)
  unfolding run
  run-Trail [] db h = h
  run-Trail (e ∷ es) db h = run-Trail es _ (step-Trail e db h)

  new-Trail : Trail (record { tokens = []; outbox = [] })
  unfolding get
  new-Trail = record { keyed = tt; audited = λ id r g. ground (arith, g) }

  -- After any operations and deliveries on an empty store, failures of the database included, every
  -- token has an audit event of its creation in the outbox, by its creator and at its time, and
  -- where it is revoked, one of its revocation, by the actor and at the time that are stored; a
  -- token is revoked by somebody exactly where it is revoked at a time.
  pub audit_trail :
      (es : List Event) (id : String) (r : TokenRow)
      → let d = run id_before uuid_text es (record { tokens = []; outbox = [] }) in
        get d.tokens id ≡ some r
        → Logged d.outbox "opamp.token.create" id r.created_by r.created_at
          × ((actor : String) (at : Time)
              → r.revoked_at ≡ some at
              → r.revoked_by ≡ some actor
              → Logged d.outbox "opamp.token.revoke" id actor at)
          × (is_present r.revoked_by ≡ is_present r.revoked_at)
  audit_trail es id r g =
      let a = (run-Trail es (record { tokens = []; outbox = [] }) new-Trail).audited id r g in
      (a.created, a.revoked, a.by_somebody)
