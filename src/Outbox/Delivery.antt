-- ===== src/Outbox/Delivery.antt =====
-- What the dispatchers can rely on: delivered rows are final, a lease is exclusive, and a turn
-- whose lease holds to its end delivers.
use otel_magnify.Prelude.{
  ◌<◌, ◌≡◌, ◌≢◌, ◌⊎◌, inl, inr, false, Bool, Option, some, List, [], ◌∷◌, string_eq, arith, String,
  All,
}
use otel_magnify.Prelude.Dict.{get, IsMap}
use otel_magnify.Prelude.Clock.{Time, to_micros}
use otel_magnify.Outbox.{AuditOutbox, Row, Lease, may_settle}
use otel_magnify.Outbox.Claims.{
  Statement, inserts, claims, marks, reschedules, run, leased-not_due, leased-unsettled,
  delivered-not_due, delivered-unsettled,
}
use otel_magnify.Outbox.Steps.{Spares, run-keeps}

-- A statement that respects a lease: no claim comes after its end, and nobody else settles the
-- row with its token.
abbrev pub Respects : String → Lease → Statement → Type 0
Respects id l (inserts fault e) = Unit
Respects id l (claims locked fault token now until) = to_micros now.at < l.lease_until
Respects id l (marks fault i token at) = (i ≢ id) ⊎ (l.claim_token ≢ token)
Respects id l (reschedules fault i token at next) = (i ≢ id) ⊎ (l.claim_token ≢ token)

apart-unsettled :
    (i id token : String) (now : Time) (r : Row) (l : Lease)
    → r.lease ≡ some l
    → (i ≢ id) ⊎ (l.claim_token ≢ token)
    → (i ≡ id)
    → may_settle token now r ≡ false
apart-unsettled i id token now r l h (inl other) e = ground arith
apart-unsettled i id token now r l h (inr other) e = leased-unsettled token now r l h other

delivered-Spares :
    (id : String) (r : Row) (at : Time)
    → r.delivered_at ≡ some at
    → (ss : List Statement) → All (Spares id r) ss
delivered-Spares id r at h [] = tt
delivered-Spares id r at h (inserts fault e ∷ ss) = (tt, delivered-Spares id r at h ss)
delivered-Spares id r at h (claims locked fault token now until ∷ ss) =
    (delivered-not_due (to_micros now.at) at r h, delivered-Spares id r at h ss)
delivered-Spares id r at h (marks fault i token done ∷ ss) =
    (λ e. delivered-unsettled token (to_micros done.at) at r h, delivered-Spares id r at h ss)
delivered-Spares id r at h (reschedules fault i token done next ∷ ss) =
    (λ e. delivered-unsettled token (to_micros done.at) at r h, delivered-Spares id r at h ss)

leased-Spares :
    (id : String) (r : Row) (l : Lease)
    → r.lease ≡ some l
    → (ss : List Statement) → All (Respects id l) ss
    → All (Spares id r) ss
leased-Spares id r l h [] a = tt
leased-Spares id r l h (inserts fault e ∷ ss) a = (tt, leased-Spares id r l h ss a.1)
leased-Spares id r l h (claims locked fault token now until ∷ ss) a =
    (leased-not_due (to_micros now.at) r l h a.0, leased-Spares id r l h ss a.1)
leased-Spares id r l h (marks fault i token at ∷ ss) a =
    (apart-unsettled i id token (to_micros at.at) r l h a.0, leased-Spares id r l h ss a.1)
leased-Spares id r l h (reschedules fault i token at next ∷ ss) a =
    (apart-unsettled i id token (to_micros at.at) r l h a.0, leased-Spares id r l h ss a.1)

-- Once its event is delivered a row stays as it is, whatever statements run afterwards.
pub delivered_final :
    (id_before : String → String → Bool) (uuid_text : String → Option String) (id : String)
    (r : Row) (at : Time) (ss : List Statement) (t : AuditOutbox)
    → IsMap t
    → get t id ≡ some r
    → r.delivered_at ≡ some at
    → get (run id_before uuid_text ss t) id ≡ some r
delivered_final id_before uuid_text id r at ss t m g h =
    run-keeps id_before uuid_text id r ss t m g (delivered-Spares id r at h ss)

-- While a row is leased it stays as it is, whatever statements run, where every claim comes before
-- the end of the lease and nobody settles the row with the token of the lease.
pub lease_exclusive :
    (id_before : String → String → Bool) (uuid_text : String → Option String) (id : String)
    (r : Row) (l : Lease) (ss : List Statement) (t : AuditOutbox)
    → IsMap t
    → get t id ≡ some r
    → r.lease ≡ some l
    → All (Respects id l) ss
    → get (run id_before uuid_text ss t) id ≡ some r
lease_exclusive id_before uuid_text id r l ss t m g h a =
    run-keeps id_before uuid_text id r ss t m g (leased-Spares id r l h ss a)
