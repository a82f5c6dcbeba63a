-- ===== src/OpampTokens/Transactions.antt =====
-- The operations of internal/store/opamp_tokens.go as events in any order, beside the statements on the
-- outbox, and what a transaction may write.
use otel_magnify.Prelude.{
  ◌≡◌, ◌∙◌, ◌⊎◌, inl, inr, refl, Bool, true, false, Option, none, some, List, [], ◌∷◌, String,
  string_eq, Option-cases, Bool-cases,
}
use otel_magnify.Prelude.Dict.{get, put}
use otel_magnify.Prelude.Clock.{Time, to_micros}
use otel_magnify.Outbox.{AuditEvent, Stamp, new_row}
use otel_magnify.Outbox.Claims.{Statement}
use otel_magnify.Outbox.Claims
use otel_magnify.OpampTokens.AuditEvents.{StampedEvent, is_canonical_opamp_token_id}
use otel_magnify.OpampTokens.{
  OpampTokenCredential, TokenRow, Store, Transaction, commits, query_fails, write_fails,
  commit_refused, commit_answer_lost, TokenError, store_error, is_present, inserted_row,
  revoked_row, close, close_with_event, validate_new, create_opamp_token, validate_revocation,
  revoke_row, revoke_found, revoked_token, populate_opamp_token_state, revoke_opamp_token, is_live,
  used_tokens, spared_write, is_used_recently, mark_row, mark_found, mark_opamp_token_used,
  commit_outcome_unknown,
}

pub data Event : Type 0 where
  creates : Transaction → OpampTokenCredential → StampedEvent → Event
  revokes : Transaction → String → String → Stamp → StampedEvent → Event
  uses : Transaction → String → Time → Event
  delivers : Statement → Event

close-either :
    {A : Type 0} (transaction : Transaction) (unknown : TokenError) (a : A) (d db : Store)
    → ((close transaction unknown a d db).0 ≡ db) ⊎ ((close transaction unknown a d db).0 ≡ d)
unfolding close
close-either commits unknown a d db = inr refl
close-either query_fails unknown a d db = inl refl
close-either write_fails unknown a d db = inl refl
close-either commit_refused unknown a d db = inl refl
close-either commit_answer_lost unknown a d db = inr refl

-- A new audit event is written together with the row of a token.
pub record Written (id : String) (r : TokenRow) (e : AuditEvent) (db d : Store) : Type 0 where
  pub tokens : d.tokens ≡ put db.tokens id r
  pub outbox : d.outbox ≡ put db.outbox e.event_id (new_row e)
  pub fresh : get db.outbox e.event_id ≡ none

close_with_event-either :
    {A : Type 0} (transaction : Transaction) (id : String) (r : TokenRow) (e : AuditEvent) (a : A)
    (db : Store)
    → ((close_with_event transaction e a (put db.tokens id r) db).0 ≡ db)
      ⊎ Written id r e db (close_with_event transaction e a (put db.tokens id r) db).0
unfolding close_with_event is_present
close_with_event-either transaction id r e a db = elim (Option-cases (get db.outbox e.event_id)) [
  | inr (q, f) ↦ inl (rw (f, close_with_event) refl)
  | inl f ↦
      rw (f, close_with_event)
        (elim (close-either transaction commit_outcome_unknown a
          (record { tokens = put db.tokens id r; outbox = put db.outbox e.event_id (new_row e) })
          db) [
            | inl g ↦ inl g
            | inr g ↦ inr (rw g (record { tokens = refl; outbox = refl; fresh = f }))
          ])
]

module _ (uuid_text : String → Option String) where
  -- A creation changes nothing, or adds a row that was not there, with its event.
  pub create-either :
      (transaction : Transaction) (c : OpampTokenCredential) (e : StampedEvent) (db : Store)
      → ((create_opamp_token uuid_text transaction c e db).0 ≡ db)
        ⊎ ((validate_new uuid_text c e ≡ none)
            × (get db.tokens c.token.id ≡ none)
            × Written c.token.id
                (inserted_row c)
                e.event
                db
                (create_opamp_token uuid_text transaction c e db).0)
  unfolding create_opamp_token is_present
  create-either transaction c e db = elim (Option-cases (validate_new uuid_text c e)) [
    | inr (x, v) ↦ inl (rw (v, create_opamp_token) refl)
    | inl v ↦ elim (Option-cases (get db.tokens c.token.id)) [
      | inr (r, f) ↦ inl (rw (v, create_opamp_token, f) refl)
      | inl f ↦
          rw (v, create_opamp_token, f)
            (elim (close_with_event-either transaction c.token.id (inserted_row c) e.event tt db) [
              | inl g ↦ inl g
              | inr g ↦ inr (refl, refl, g)
            ])
    ]
  ]

  -- A revocation changes nothing, or writes the revocation to a row that had none, with its event.
  abbrev Revokes : String → String → Stamp → StampedEvent → Store → Store → Type 0
  Revokes id by now e db d =
      (r : TokenRow) × (get db.tokens id ≡ some r)
      × (is_present r.revoked_at ≡ false)
      × Written id (revoked_row by now.at r) e.event db d

  revoke_found-either :
      (transaction : Transaction) (id by : String) (now : Stamp) (e : StampedEvent) (r : TokenRow)
      (db : Store)
      → get db.tokens id ≡ some r
      → ((revoke_found transaction id by now.at e.event r db).0 ≡ db)
        ⊎ Revokes id by now e db (revoke_found transaction id by now.at e.event r db).0
  unfolding revoke_found
  revoke_found-either transaction id by now e r db g = elim (Bool-cases (is_present r.revoked_at)) [
    | inl b ↦ inl (rw (b, revoke_found) refl)
    | inr b ↦
        rw (b, revoke_found)
          (elim (close_with_event-either transaction id (revoked_row by now.at r) e.event
            (revoked_token by now.at (populate_opamp_token_state id now.at r), true) db) [
              | inl f ↦ inl f
              | inr f ↦ inr (r, g, b, f)
            ])
  ]

  revoke_row-either :
      (transaction : Transaction) (id by : String) (now : Stamp) (e : StampedEvent)
      (o : Option TokenRow) (db : Store)
      → get db.tokens id ≡ o
      → ((revoke_row transaction id by now.at e.event o db).0 ≡ db)
        ⊎ Revokes id by now e db (revoke_row transaction id by now.at e.event o db).0
  unfolding revoke_row
  revoke_row-either query_fails id by now e o db g = inl refl
  revoke_row-either commits id by now e none db g = inl refl
  revoke_row-either write_fails id by now e none db g = inl refl
  revoke_row-either commit_refused id by now e none db g = inl refl
  revoke_row-either commit_answer_lost id by now e none db g = inl refl
  revoke_row-either commits id by now e (some r) db g =
      revoke_found-either commits id by now e r db g
  revoke_row-either write_fails id by now e (some r) db g =
      revoke_found-either write_fails id by now e r db g
  revoke_row-either commit_refused id by now e (some r) db g =
      revoke_found-either commit_refused id by now e r db g
  revoke_row-either commit_answer_lost id by now e (some r) db g =
      revoke_found-either commit_answer_lost id by now e r db g

  pub revoke-either :
      (transaction : Transaction) (id by : String) (now : Stamp) (e : StampedEvent) (db : Store)
      → ((revoke_opamp_token uuid_text transaction id by now e db).0 ≡ db)
        ⊎ ((validate_revocation uuid_text id by now e ≡ none)
            × Revokes id by now e db (revoke_opamp_token uuid_text transaction id by now e db).0)
  unfolding revoke_opamp_token
  revoke-either transaction id by now e db =
      elim (Option-cases (validate_revocation uuid_text id by now e)) [
        | inr (x, v) ↦ inl (rw (v, revoke_opamp_token) refl)
        | inl v ↦
            rw (v, revoke_opamp_token)
              (elim (revoke_row-either transaction id by now e (get db.tokens id) db refl) [
                | inl g ↦ inl g
                | inr g ↦ inr (refl, g)
              ])
      ]

  -- Recording a use changes nothing, or the time of the last use of a row.
  abbrev Uses : String → Time → Store → Store → Type 0
  Uses id now db d =
      (r : TokenRow) × (get db.tokens id ≡ some r)
      × (d.tokens ≡ put db.tokens id (record r { last_used_at = some (to_micros now) }))
      × (d.outbox ≡ db.outbox)

  mark_found-either :
      (transaction : Transaction) (id : String) (now : Time) (r : TokenRow) (db : Store)
      → get db.tokens id ≡ some r
      → ((mark_found transaction id now r db).0 ≡ db)
        ⊎ Uses id now db (mark_found transaction id now r db).0
  unfolding mark_found used_tokens
  mark_found-either transaction id now r db g = elim (Bool-cases (is_live now r)) [
    | inr b ↦ inl (rw (b, mark_found) refl)
    | inl b ↦
        rw (b, mark_found)
          (elim (close-either (spared_write (is_used_recently now r.last_used_at) transaction)
            store_error tt (record db { tokens = used_tokens id now r db.tokens }) db) [
              | inl f ↦ inl f
              | inr f ↦ elim (Bool-cases (is_used_recently now r.last_used_at)) [
                | inl u ↦ inl (f ∙ rw (u, used_tokens) refl)
                | inr u ↦ inr (rw f (r, g, rw (u, used_tokens) refl, refl))
              ]
            ])
  ]

  mark_row-either :
      (transaction : Transaction) (id : String) (now : Time) (o : Option TokenRow) (db : Store)
      → get db.tokens id ≡ o
      → ((mark_row transaction id now o db).0 ≡ db)
        ⊎ Uses id now db (mark_row transaction id now o db).0
  unfolding mark_row
  mark_row-either query_fails id now o db g = inl refl
  mark_row-either commits id now none db g = inl refl
  mark_row-either write_fails id now none db g = inl refl
  mark_row-either commit_refused id now none db g = inl refl
  mark_row-either commit_answer_lost id now none db g = inl refl
  mark_row-either commits id now (some r) db g = mark_found-either commits id now r db g
  mark_row-either write_fails id now (some r) db g = mark_found-either write_fails id now r db g
  mark_row-either commit_refused id now (some r) db g =
      mark_found-either commit_refused id now r db g
  mark_row-either commit_answer_lost id now (some r) db g =
      mark_found-either commit_answer_lost id now r db g

  pub mark-either :
      (transaction : Transaction) (id : String) (now : Time) (db : Store)
      → ((mark_opamp_token_used uuid_text transaction id now db).0 ≡ db)
        ⊎ Uses id now db (mark_opamp_token_used uuid_text transaction id now db).0
  unfolding mark_opamp_token_used
  mark-either transaction id now db = elim (Bool-cases (is_canonical_opamp_token_id uuid_text id)) [
    | inr b ↦ inl (rw (b, mark_opamp_token_used) refl)
    | inl b ↦
        rw (b, mark_opamp_token_used)
          (mark_row-either transaction id now (get db.tokens id) db refl)
  ]

module _ (id_before : String → String → Bool) (uuid_text : String → Option String) where
  unfoldable pub step : Event → Store → Store
  unfolding Claims.step
  step (creates transaction c e) db = (create_opamp_token uuid_text transaction c e db).0
  step (revokes transaction id by now e) db =
      (revoke_opamp_token uuid_text transaction id by now e db).0
  step (uses transaction id now) db = (mark_opamp_token_used uuid_text transaction id now db).0
  step (delivers s) db = record db { outbox = Claims.step id_before uuid_text s db.outbox }

  unfoldable pub run : List Event → Store → Store
  unfolding step
  run [] db = db
  run (e ∷ es) db = run es (step e db)
