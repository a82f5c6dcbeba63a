-- ===== src/TokenConnections/Waiting.antt =====
-- finishRemove and CompleteRemove of internal/opamp/token_connections.go, and the leases that are waited
-- for.
use otel_magnify.Prelude.{
  ℕ, ◌≡◌, ◌⊎◌, refl, true, false, not, ◌&&◌, Option, none, some, List, [], ◌∷◌, String, ◌==◌,
  string_eq, nat_eq, arith, eq_iff, nat_beq_iff, Option-cases, Bool-cases, inl, inr,
}
use otel_magnify.Prelude.Dict.{Dict, get, put, delete, get-put, get-delete}
use otel_magnify.TokenConnections.Sets.{
  elem, values, members, members-drop, has-delete, drop_member,
}
use otel_magnify.TokenConnections.{RemoveState, TokenConnections, is_tracked, is_disabled}
use otel_magnify.TokenConnections.Shutdown.{
  is_held, is_idle, complete_token_remove, complete_all, complete_remove, drain_entry, drain_remove,
  forget_removal, finish_entry, finish_remove,
}
use otel_magnify.TokenConnections.Registering.{drains, removal_drains, Registered}
use otel_magnify.TokenConnections.Invariant.{Inv, covered, disable_waits, stop_waits}

elem-values : (d : Dict ℕ ℕ) (l s : ℕ) → get d l ≡ some s → elem s (values d) ≡ true
unfolding elem values get
elem-values [] l s h = cc
elem-values ((k, v) ∷ d) l s h = ground (arith, elem-values d l s, nat_beq_iff v s)

pub lease-held : (c : TokenConnections) (l s : ℕ) → get c.leases l ≡ some s → is_held c s ≡ true
unfolding is_held
lease-held c l s h = elem-values c.leases l s h

pub idle-unheld :
    (c : TokenConnections) (ss : List ℕ) (s : ℕ)
    → is_idle c ss ≡ true
    → elem s ss ≡ true
    → is_held c s ≡ false
unfolding is_idle elem
idle-unheld c [] s h e = cc
idle-unheld c (x ∷ ss) s h e = ground (arith, idle-unheld c ss s, nat_beq_iff x s)

module _ (token_of : ℕ → String) where
  -- A new state of a removal, which may say that it is drained if its session has no lease.
  put_state-Inv :
      (r : ℕ) (rs new : RemoveState) (c : TokenConnections)
      → Inv token_of c
      → get c.remove_states r ≡ some rs
      → new.session ≡ rs.session
      → (new.done ≡ true → new.drained ≡ true)
      → (new.drained ≡ rs.drained) ⊎ (is_held c rs.session ≡ false)
      → Inv token_of (record c { remove_states = put c.remove_states r new })
  unfolding covered is_tracked is_disabled disable_waits stop_waits removal_drains drains
  put_state-Inv r rs new c h g same done frees = record {
    registered = record {
      listed = h.registered.listed;
      owner = λ s q qs e f. ground (
        arith,
        same,
        g,
        h.registered.owner s q qs,
        h.registered.owner s r rs,
        get-put c.remove_states r q new,
        nat_beq_iff r q,
      );
      bounded = h.registered.bounded;
      done_drained = λ q qs e f.
          ground (arith, done, h.registered.done_drained q qs, get-put c.remove_states r q new);
    };
    covers = λ l u e. elim (Option-cases (get c.removals u)) [
      | inl n ↦ ground (arith, e, n, h.covers l u)
      | inr (q, f) ↦ ground (
        arith,
        e,
        f,
        frees,
        g,
        same,
        h.covers l u,
        lease-held c l u e,
        h.registered.owner u q rs,
        get-put c.remove_states r q new,
        nat_beq_iff r q,
      )
    ];
    enabled = h.enabled;
    halted = h.halted;
    indexed = h.indexed;
    of_token = h.of_token;
    not_stopping = h.not_stopping;
  }

  complete_token_remove-Inv :
      (r : ℕ) (c : TokenConnections) → Inv token_of c → Inv token_of (complete_token_remove r c)
  unfolding complete_token_remove
  complete_token_remove-Inv r c h = elim (Option-cases (get c.remove_states r)) [
    | inl n ↦ rw (n, complete_token_remove) h
    | inr (rs, e) ↦
        rw (e, complete_token_remove)
          (put_state-Inv r rs (record rs { cleanup_done = true }) c h e refl
            (h.registered.done_drained r rs e) (inl refl))
  ]

  pub complete_all-Inv :
      (rs : List ℕ) (c : TokenConnections) → Inv token_of c → Inv token_of (complete_all rs c)
  unfolding complete_all
  complete_all-Inv [] c h = h
  complete_all-Inv (r ∷ rs) c h = complete_all-Inv rs _ (complete_token_remove-Inv r c h)

  pub complete_remove-Inv :
      (s : ℕ) (c : TokenConnections) → Inv token_of c → Inv token_of (complete_remove s c)
  unfolding complete_remove
  complete_remove-Inv s c h = elim (Option-cases (get c.removals s)) [
    | inl n ↦ rw (n, complete_remove) h
    | inr (r, e) ↦ rw (e, complete_remove) (complete_token_remove-Inv r c h)
  ]

  pub drain_remove-Inv :
      (r : ℕ) (c : TokenConnections) → Inv token_of c → Inv token_of (drain_remove r c)
  unfolding drain_remove drain_entry
  drain_remove-Inv r c h = elim (Option-cases (get c.remove_states r)) [
    | inl n ↦ rw (n, drain_remove, drain_entry) h
    | inr (rs, e) ↦ elim (Bool-cases (is_held c rs.session)) [
      | inl b ↦ rw (e, drain_remove, drain_entry, b) h
      | inr b ↦
          rw (e, drain_remove, drain_entry, b)
            (put_state-Inv r rs (record rs { drained = true }) c h e refl (λ _. refl) (inr b))
    ]
  ]

  forget-Registered :
      (s : ℕ) (c : TokenConnections)
      → Registered token_of c
      → Registered token_of (record c {
        removals = delete c.removals s;
        removals_by_id = drop_member c.removals_by_id (token_of s) s;
      })
  forget-Registered s c h = record {
    listed = λ u e. ground (
      arith,
      e,
      h.listed u,
      has-delete c.removals s u,
      members-drop c.removals_by_id (token_of s) (token_of u) s,
      has-delete (members c.removals_by_id (token_of s)) s u,
      eq_iff (token_of s) (token_of u),
    );
    owner = λ u r rs e f. ground (arith, h.owner u r rs, get-delete c.removals s u);
    bounded = λ u r e. ground (arith, h.bounded u r, get-delete c.removals s u);
    done_drained = h.done_drained;
  }

  -- A removal that does not drain may be forgotten.
  forget-Inv :
      (s : ℕ) (c : TokenConnections)
      → Inv token_of c
      → removal_drains c s ≡ false
      → Inv token_of (record c {
        removals = delete c.removals s;
        removals_by_id = drop_member c.removals_by_id (token_of s) s;
      })
  unfolding covered is_tracked is_disabled disable_waits stop_waits removal_drains
  forget-Inv s c h rests = record {
    registered = forget-Registered s c h.registered;
    covers =
        λ l u e. ground (arith, e, rests, h.covers l u, get-delete c.removals s u, nat_beq_iff s u);
    enabled = h.enabled;
    halted = h.halted;
    indexed = h.indexed;
    of_token = h.of_token;
    not_stopping = h.not_stopping;
  }

  forget_removal-Inv :
      (r : ℕ) (rs new : RemoveState) (o : Option ℕ) (c : TokenConnections)
      → Inv token_of c
      → get c.removals rs.session ≡ o
      → get c.remove_states r ≡ some new
      → new.drained ≡ true
      → Inv token_of (forget_removal token_of r rs o c)
  unfolding forget_removal removal_drains drains
  forget_removal-Inv r rs new none c h e f d = h
  forget_removal-Inv r rs new (some q) c h e f d = elim (Bool-cases (q == r)) [
    | inl b ↦
        rw (b, forget_removal)
          (forget-Inv rs.session c h (ground (arith, e, f, d, b, nat_beq_iff q r)))
    | inr b ↦ rw (b, forget_removal) h
  ]

  finish_entry-Inv :
      (r : ℕ) (rs : RemoveState) (c : TokenConnections)
      → Inv token_of c
      → get c.remove_states r ≡ some rs
      → Inv token_of (finish_entry token_of r (some rs) c)
  unfolding finish_entry
  finish_entry-Inv r rs c h e = elim (Bool-cases (rs.drained && rs.cleanup_done && not rs.done)) [
    | inr b ↦ rw (b, finish_entry) h
    | inl b ↦
        rw (b, finish_entry)
          (forget_removal-Inv r rs (record rs { done = true }) (get c.removals rs.session) _
            (put_state-Inv r rs (record rs { done = true }) c h e refl (λ _. ground (arith, b))
              (inl refl))
            refl
            (ground
              (arith, get-put c.remove_states r r (record rs { done = true }), nat_beq_iff r r))
            (ground (arith, b)))
  ]

  pub finish_remove-Inv :
      (r : ℕ) (c : TokenConnections) → Inv token_of c → Inv token_of (finish_remove token_of r c)
  unfolding finish_remove
  finish_remove-Inv r c h = elim (Option-cases (get c.remove_states r)) [
    | inl n ↦ rw (n, finish_remove, finish_entry) h
    | inr (rs, e) ↦ rw (e, finish_remove) (finish_entry-Inv r rs c h e)
  ]
