-- ===== src/Grace/Phases.antt =====
-- The steps of the runtime and of the callbacks keep the invariant.
use otel_magnify.Prelude.{
  ℕ, ◌≡◌, ◌≢◌, ◌↔◌, refl, true, false, not, ◌&&◌, Option, none, some, ◌∷◌, ◌==◌, nat_eq, string_eq,
  arith, Option-cases, Bool-cases, inl, inr, nat_beq_iff, eq_iff, String,
}
use otel_magnify.Prelude.Dict.{get, put, delete, get-put, get-delete}
use otel_magnify.Grace.{
  Phase, armed, fired, running, finished, GraceTimer, GraceController, finish, expire_entry, expire,
  enter_entry, enter, return_entry, return_from, is_current,
}
use otel_magnify.Grace.Heap.{HeapInv, expire-HeapInv, enter-HeapInv, return-HeapInv}
use otel_magnify.Grace.Invariant.{Inv, is_pending}

-- Where a timer is not listed, `finish` breaks no link.
module _ {c : GraceController} (v : Inv c) (p : ℕ) (e : GraceTimer) (here : get c.heap p ≡ some e)
    (unlisted : (k : String) → get c.timers k ≢ some p) where
  finish-Inv : HeapInv (finish p e c) → Inv (finish p e c)
  unfolding finish
  finish-Inv hv = record {
    heap = hv;
    listed = λ k q h.
        let (f, g, ek, ep) = v.listed k q h in
        (
          f,
          ground (
            arith,
            get-put c.heap p q (record e { phase = finished }),
            unlisted k,
            nat_beq_iff p q,
          ),
          ek,
          ep,
        );
    armed_listed = λ q f h a.
        ground (arith, get-put c.heap p q (record e { phase = finished }), v.armed_listed q f);
    stopped_empty = v.stopped_empty;
  }

-- A timer that runs or is finished is not listed.
unlisted_of_phase :
    {c : GraceController}
    → Inv c
    → (p : ℕ) (e : GraceTimer) → get c.heap p ≡ some e
    → is_pending e.phase ≡ false
    → (k : String) → get c.timers k ≢ some p
unlisted_of_phase v p e here done k = λ h. ground (arith, v.listed k p h)

-- The test of the callback passes exactly at the timer that the map has for its key.
pub is_current_iff :
    (c : GraceController) (p : ℕ) (e : GraceTimer)
    → get c.heap p ≡ some e
    → (o : Option ℕ) → (is_current o p e c ≡ true) ↔ (o ≡ some p)
unfolding is_current
is_current_iff c p e here none = (λ h. cc, λ h. cc)
is_current_iff c p e here (some q) = (
  λ h. ground (arith, nat_beq_iff q p),
  λ h. ground (arith, nat_beq_iff q p, nat_beq_iff e.id e.id),
)

module _ {c : GraceController} (v : Inv c) (p : ℕ) (e : GraceTimer)
    (here : get c.heap p ≡ some e) where
  -- A timer that is not its key's current one, or whose controller is stopped, is not listed.
  out_of_date :
      (not c.stopped && is_current (get c.timers e.key) p e c) ≡ false
      → (k : String) → get c.timers k ≢ some p
  out_of_date t k = λ h.
      ground
        (arith, v.listed k p h, v.stopped_empty _ k, is_current_iff c p e here (get c.timers e.key))

  abbrev expired : GraceController
  expired = record c { heap = put c.heap p (record e { phase = fired }) }

  expired-Inv : e.phase ≡ armed → HeapInv expired → Inv expired
  expired-Inv a hv = record {
    heap = hv;
    listed = λ k q h. elim (Bool-cases (p == q)) [
      | inl same ↦ (
        record e { phase = fired },
        ground (arith, get-put c.heap p q (record e { phase = fired })),
        ground (arith, v.listed k q h, nat_beq_iff p q),
        refl,
      )
      | inr other ↦
          let (f, g, ek, ep) = v.listed k q h in
          (f, ground (arith, get-put c.heap p q (record e { phase = fired })), ek, ep)
    ];
    armed_listed = λ q f h b.
        ground (arith, get-put c.heap p q (record e { phase = fired }), v.armed_listed q f);
    stopped_empty = v.stopped_empty;
  }

  abbrev entered : GraceController
  entered = record c {
    timers = delete c.timers e.key;
    heap = put c.heap p (record e { phase = running });
    begun = p ∷ c.begun;
  }

  entered-Inv : get c.timers e.key ≡ some p → HeapInv entered → Inv entered
  entered-Inv l hv = record {
    heap = hv;
    listed = λ k q h.
        let (f, g, ek, ep) = v.listed k q (ground (arith, get-delete c.timers e.key k)) in
        (
          f,
          ground (
            arith,
            get-put c.heap p q (record e { phase = running }),
            get-delete c.timers e.key k,
            nat_beq_iff p q,
            eq_iff e.key k,
          ),
          ek,
          ep,
        );
    armed_listed = λ q f h a. ground (
      arith,
      get-put c.heap p q (record e { phase = running }),
      get-delete c.timers e.key f.key,
      v.armed_listed q f,
      nat_beq_iff p q,
      eq_iff e.key f.key,
    );
    stopped_empty = λ h k. ground (arith, get-delete c.timers e.key k, v.stopped_empty h k);
  }

  expire_entry-Inv :
      (ph : Phase) → e.phase ≡ ph → HeapInv (expire_entry p e ph c) → Inv (expire_entry p e ph c)
  unfolding expire_entry
  expire_entry-Inv armed h hv = expired-Inv h hv
  expire_entry-Inv fired h hv = v
  expire_entry-Inv running h hv = v
  expire_entry-Inv finished h hv = v

  enter_entry-Inv :
      (ph : Phase) → e.phase ≡ ph → HeapInv (enter_entry p e ph c) → Inv (enter_entry p e ph c)
  unfolding enter_entry
  enter_entry-Inv fired h hv =
      elim (Bool-cases (not c.stopped && is_current (get c.timers e.key) p e c)) [
        | inl t ↦ rw t (
            entered-Inv ((is_current_iff c p e here (get c.timers e.key)).0 (ground arith))
              (rw t at hv))
        | inr t ↦ rw t (finish-Inv v p e here (out_of_date t) (rw t at hv))
      ]
  enter_entry-Inv armed h hv = v
  enter_entry-Inv running h hv = v
  enter_entry-Inv finished h hv = v

  return_entry-Inv :
      (ph : Phase) → e.phase ≡ ph → HeapInv (return_entry p e ph c) → Inv (return_entry p e ph c)
  unfolding return_entry
  return_entry-Inv running h hv = finish-Inv v p e here (unlisted_of_phase v p e here (rw h)) hv
  return_entry-Inv armed h hv = v
  return_entry-Inv fired h hv = v
  return_entry-Inv finished h hv = v

module _ {c : GraceController} (v : Inv c) (p : ℕ) where
  pub expire-Inv : Inv (expire p c)
  unfolding expire
  expire-Inv = elim (Option-cases (get c.heap p)) [
    | inl e ↦ rw (e, expire) v
    | inr (e, h) ↦
        rw (h, expire)
          (expire_entry-Inv v p e h e.phase refl (rw (h, expire) at (expire-HeapInv v.heap p)))
  ]

  pub enter-Inv : Inv (enter p c)
  unfolding enter
  enter-Inv = elim (Option-cases (get c.heap p)) [
    | inl e ↦ rw (e, enter) v
    | inr (e, h) ↦
        rw (h, enter)
          (enter_entry-Inv v p e h e.phase refl (rw (h, enter) at (enter-HeapInv v.heap p)))
  ]

  pub return-Inv : Inv (return_from p c)
  unfolding return_from
  return-Inv = elim (Option-cases (get c.heap p)) [
    | inl e ↦ rw (e, return_from) v
    | inr (e, h) ↦
        rw (h, return_from)
          (return_entry-Inv v p e h e.phase refl (rw (h, return_from) at (return-HeapInv v.heap p)))
  ]
