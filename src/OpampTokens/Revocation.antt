-- ===== src/OpampTokens/Revocation.antt =====
-- RevokeOpAMPToken of internal/store/opamp_tokens.go, and the operations that come after it.
use otel_magnify.Prelude.{
  ℕ, ◌≡◌, ◌≢◌, inl, inr, refl, Bool, Option, some, List, [], ◌∷◌, String, ◌==◌, string_eq, arith,
  eq_iff, Bool-cases, nat_eq,
}
use otel_magnify.Prelude.Dict.{get, put, get-put}
use otel_magnify.Prelude.Clock.{Time, to_micros}
use otel_magnify.OpampTokens.{
  TokenRow, Store, Transaction, returns, OpampTokenPrincipal, is_present, is_live, inserted_row,
  revoked_row, mark_found, mark_row, mark_opamp_token_used, validate_row, validate_opamp_token,
  create_opamp_token, revoke_opamp_token,
}
use otel_magnify.OpampTokens.Transactions.{
  Event, creates, revokes, uses, delivers, step, run, create-either, revoke-either, mark-either,
}

abbrev IsRevoked : String → Time → Option String → Store → Type 0
IsRevoked id at by db =
    (r : TokenRow) × (get db.tokens id ≡ some r) × (r.revoked_at ≡ some at) × (r.revoked_by ≡ by)

-- A row that is written elsewhere, or in place without a change to the revocation.
put-IsRevoked :
    (id : String) (at : Time) (by : Option String) (db d : Store) (i : String) (s : TokenRow)
    → IsRevoked id at by db
    → d.tokens ≡ put db.tokens i s
    → ((r : TokenRow)
        → (i ≡ id)
        → get db.tokens id ≡ some r
        → r.revoked_at ≡ some at
        → r.revoked_by ≡ by
        → (s.revoked_at ≡ some at) × (s.revoked_by ≡ by))
    → IsRevoked id at by d
put-IsRevoked id at by db d i s (r, g, e, f) t h = elim (Bool-cases (i == id)) [
  | inl b ↦
      let q : i ≡ id = ground (arith, b, eq_iff i id) in
      let (x, y) = h r q g e f in (s, ground (arith, t, b, get-put db.tokens i id s), x, y)
  | inr b ↦ (r, ground (arith, t, b, g, get-put db.tokens i id s), e, f)
]

module _ (id_before : String → String → Bool) (uuid_text : String → Option String) where
  step-IsRevoked :
      (ev : Event) (id : String) (at : Time) (by : Option String) (db : Store)
      → IsRevoked id at by db
      → IsRevoked id at by (step id_before uuid_text ev db)
  unfolding step revoked_row is_present
  step-IsRevoked (creates transaction c e) id at by db h =
      elim (create-either uuid_text transaction c e db) [
        | inl f ↦ rw f h
        | inr (v, absent, w) ↦
            put-IsRevoked id at by db (create_opamp_token uuid_text transaction c e db).0 c.token.id
              (inserted_row c) h w.tokens (λ r q g e f. ground (arith, q, g, absent))
      ]
  step-IsRevoked (revokes transaction i b now e) id at by db h =
      elim (revoke-either uuid_text transaction i b now e db) [
        | inl f ↦ rw f h
        | inr (v, (s, k, free, w)) ↦
            put-IsRevoked id at by db (revoke_opamp_token uuid_text transaction i b now e db).0 i
              (revoked_row b now.at s) h w.tokens (λ r q g e f. ground (arith, q, g, k, free, e))
      ]
  step-IsRevoked (uses transaction i now) id at by db h =
      elim (mark-either uuid_text transaction i now db) [
        | inl f ↦ rw f h
        | inr (s, k, t, o) ↦
            put-IsRevoked id at by db (mark_opamp_token_used uuid_text transaction i now db).0 i
              (record s { last_used_at = some (to_micros now) }) h t
              (λ r q g e f. ground (arith, q, g, k, e, f))
      ]
  step-IsRevoked (delivers s) id at by db h = h

  run-IsRevoked :
      (es : List Event) (id : String) (at : Time) (by : Option String) (db : Store)
      → IsRevoked id at by db
      → IsRevoked id at by (run id_before uuid_text es db)
  unfolding run
  run-IsRevoked [] id at by db h = h
  run-IsRevoked (e ∷ es) id at by db h =
      run-IsRevoked es id at by _ (step-IsRevoked e id at by db h)

  validate-revoked :
      (reads : Bool) (id : String) (presented : List ℕ) (now at : Time) (by : Option String)
      (db : Store) (p : OpampTokenPrincipal)
      → IsRevoked id at by db
      → validate_opamp_token uuid_text reads id presented now db ≢ returns p
  unfolding validate_opamp_token validate_row is_present
  validate-revoked reads id presented now at by db p (r, g, e, f) = λ q. ground (arith, g, e, q)

  mark-revoked :
      (transaction : Transaction) (id : String) (now at : Time) (by : Option String) (db : Store)
      → IsRevoked id at by db
      → ((mark_opamp_token_used uuid_text transaction id now db).0 ≡ db)
        × ((mark_opamp_token_used uuid_text transaction id now db).1 ≢ returns tt)
  unfolding mark_opamp_token_used mark_row mark_found is_live is_present
  mark-revoked transaction id now at by db (r, g, e, f) =
      (ground (arith, g, e), λ q. ground (arith, g, e, q))

  -- A token that is revoked is, after any operations and deliveries, failures of the database
  -- included, still revoked at the same time and by the same actor; no digest is accepted for it,
  -- and no recording of a use succeeds or changes the store.
  pub revoked_is_final :
      (es : List Event) (db : Store) (id : String) (r : TokenRow) (at : Time)
      → get db.tokens id ≡ some r
      → r.revoked_at ≡ some at
      → let d = run id_before uuid_text es db in
        ((s : TokenRow) × (get d.tokens id ≡ some s)
          × (s.revoked_at ≡ some at)
          × (s.revoked_by ≡ r.revoked_by))
        × ((reads : Bool) (presented : List ℕ) (now : Time) (p : OpampTokenPrincipal)
            → validate_opamp_token uuid_text reads id presented now d ≢ returns p)
        × ((transaction : Transaction) (now : Time)
            → ((mark_opamp_token_used uuid_text transaction id now d).0 ≡ d)
              × ((mark_opamp_token_used uuid_text transaction id now d).1 ≢ returns tt))
  revoked_is_final es db id r at g e =
      let d = run id_before uuid_text es db in
      let h = run-IsRevoked es id at r.revoked_by db (r, g, e, refl) in
      (
        h,
        λ reads presented now p. validate-revoked reads id presented now at r.revoked_by d p h,
        λ transaction now. mark-revoked transaction id now at r.revoked_by d h,
      )
