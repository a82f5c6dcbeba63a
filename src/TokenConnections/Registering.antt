-- ===== src/TokenConnections/Registering.antt =====
-- registerRemoveLocked of internal/opamp/token_connections.go, the loops over it, and the removals that
-- are registered.
use otel_magnify.Prelude.{
  ℕ, ◌<◌, ◌≡◌, inl, inr, refl, Bool, true, false, not, ◌&&◌, ◌||◌, Option, none, some, List, [],
  ◌∷◌, ◌++◌, String, ◌==◌, string_eq, nat_eq, if◌then◌else◌, arith, eq_iff, nat_beq_iff,
  Option-cases,
}
use otel_magnify.Prelude.Dict.{get, get-put, delete}
use otel_magnify.TokenConnections.Sets.{has, elem, members, members-add, has-put, has-delete}
use otel_magnify.TokenConnections.{
  RemoveState, TokenConnections, is_tracked, new_removal, register_remove, register_all,
}

-- The removal of a session waits for its leases.
unfoldable pub drains : Option RemoveState → Bool
drains none = false
drains (some rs) = not rs.drained

unfoldable pub removal_drains : TokenConnections → ℕ → Bool
unfolding drains
removal_drains c s = elim (get c.removals s) [
  | none ↦ false
  | some r ↦ drains (get c.remove_states r)
]

-- The fields that registering removals leaves alone.
pub record Frame (c d : TokenConnections) : Type 0 where
  pub leases : d.leases ≡ c.leases
  pub disable_states : d.disable_states ≡ c.disable_states
  pub stop_state : d.stop_state ≡ c.stop_state
  pub stopped : d.stopped ≡ c.stopped
  pub by_id : d.sessions_by_id ≡ c.sessions_by_id

module _ (token_of : ℕ → String) where
  pub record Registered (c : TokenConnections) : Type 0 where
    pub listed :
        (s : ℕ) → has c.removals s ≡ true → has (members c.removals_by_id (token_of s)) s ≡ true
    pub owner :
        (s r : ℕ) (rs : RemoveState)
        → get c.removals s ≡ some r
        → get c.remove_states r ≡ some rs
        → rs.session ≡ s
    pub bounded : (s r : ℕ) → get c.removals s ≡ some r → r < c.next_remove
    pub done_drained :
        (r : ℕ) (rs : RemoveState)
        → get c.remove_states r ≡ some rs
        → rs.done ≡ true
        → rs.drained ≡ true

  -- The invariant is about the removals alone.
  pub Registered-same :
      (c d : TokenConnections)
      → d.removals ≡ c.removals
      → d.removals_by_id ≡ c.removals_by_id
      → d.remove_states ≡ c.remove_states
      → d.next_remove ≡ c.next_remove
      → Registered c
      → Registered d
  Registered-same c d e f g k h = record {
    listed = λ s p. rw f (h.listed s (rw e at p));
    owner = λ s r rs p q. h.owner s r rs (rw e at p) (rw g at q);
    bounded = λ s r p. rw k (h.bounded s r (rw e at p));
    done_drained = λ r rs p q. h.done_drained r rs (rw g at p) q;
  }

  abbrev fresh_state : ℕ → RemoveState
  fresh_state s = record { session = s; drained = false; cleanup_done = false; done = false }

  pub new_removal-Registered :
      (s : ℕ) (c : TokenConnections) → Registered c → Registered (new_removal token_of s c)
  unfolding new_removal
  new_removal-Registered s c h = record {
    listed = λ t e. ground (
      arith,
      h.listed t,
      has-put c.removals s t c.next_remove,
      members-add c.removals_by_id (token_of s) (token_of t) s c.next_remove,
      has-put (members c.removals_by_id (token_of s)) s t c.next_remove,
      nat_beq_iff s t,
      eq_iff (token_of s) (token_of t),
    );
    owner = λ t r rs e f. ground (
      arith,
      h.owner t r rs,
      h.bounded t r,
      get-put c.removals s t c.next_remove,
      get-put c.remove_states c.next_remove r (fresh_state s),
    );
    bounded = λ t r e. ground (arith, h.bounded t r, get-put c.removals s t c.next_remove);
    done_drained = λ r rs e f.
        ground
          (arith, h.done_drained r rs, get-put c.remove_states c.next_remove r (fresh_state s));
  }

  pub new_removal-drains :
      (s t : ℕ) (c : TokenConnections)
      → Registered c
      → removal_drains (new_removal token_of s c) t ≡ (s == t || removal_drains c t)
  unfolding new_removal removal_drains drains
  new_removal-drains s t c h = elim (Option-cases (get c.removals t)) [
    | inl e ↦ ground (
      arith,
      e,
      get-put c.removals s t c.next_remove,
      get-put c.remove_states c.next_remove c.next_remove (fresh_state s),
    )
    | inr (r, e) ↦ ground (
      arith,
      e,
      h.bounded t r,
      get-put c.removals s t c.next_remove,
      get-put c.remove_states c.next_remove c.next_remove (fresh_state s),
      get-put c.remove_states c.next_remove r (fresh_state s),
    )
  ]

  -- A registration, once for any property that a new removal keeps.
  pub register_remove-keeps :
      (P : TokenConnections → Type 0) (s : ℕ) (c : TokenConnections)
      → P c
      → P (new_removal token_of s c)
      → P (register_remove token_of s c).0
  unfolding register_remove
  register_remove-keeps P s c h k = elim (Option-cases (get c.removals s)) [
    | inl e ↦ rw (e, register_remove) k
    | inr (r, e) ↦ rw (e, register_remove) h
  ]

  -- The loop, for any property that a registration and leaving out a session keep.
  register_all-keeps :
      (P : TokenConnections → Type 0)
      → ((s : ℕ) (d : TokenConnections) → P d → P (new_removal token_of s d))
      → ((s : ℕ) (d : TokenConnections) → P d → P (record d { sessions = delete d.sessions s }))
      → (untrack : Bool) (ss removals owned : List ℕ) (c : TokenConnections) → P c
      → P (register_all token_of untrack ss removals owned c).0
  unfolding register_all
  register_all-keeps P new drop untrack [] removals owned c h = h
  register_all-keeps P new drop true (s ∷ ss) removals owned c h =
      let d = record c { sessions = delete c.sessions s } in
      let k = drop s c h in
      let (e, r, created) = register_remove token_of s d in
      register_all-keeps P new drop true ss (removals ++ r ∷ [])
        (if created then owned ++ r ∷ [] else owned) e (register_remove-keeps P s d k (new s d k))
  register_all-keeps P new drop false (s ∷ ss) removals owned c h =
      let (e, r, created) = register_remove token_of s c in
      register_all-keeps P new drop false ss (removals ++ r ∷ [])
        (if created then owned ++ r ∷ [] else owned) e (register_remove-keeps P s c h (new s c h))

  pub register_all-Registered :
      (untrack : Bool) (ss removals owned : List ℕ) (c : TokenConnections)
      → Registered c
      → Registered (register_all token_of untrack ss removals owned c).0
  register_all-Registered =
      register_all-keeps Registered (λ s d h. new_removal-Registered s d h)
        (λ s d h. record {
          listed = h.listed;
          owner = h.owner;
          bounded = h.bounded;
          done_drained = h.done_drained;
        })

  pub register_remove-Registered :
      (s : ℕ) (c : TokenConnections) → Registered c → Registered (register_remove token_of s c).0
  register_remove-Registered s c h =
      register_remove-keeps Registered s c h (new_removal-Registered s c h)

  -- Draining removals, with what their persistence rests on.
  abbrev Draining : ℕ → TokenConnections → Type 0
  Draining t c = Registered c × (removal_drains c t ≡ true)

  pub register_all-drains :
      (untrack : Bool) (ss removals owned : List ℕ) (c : TokenConnections) (t : ℕ)
      → Registered c
      → removal_drains c t ≡ true
      → removal_drains (register_all token_of untrack ss removals owned c).0 t ≡ true
  unfolding removal_drains
  register_all-drains untrack ss removals owned c t h k =
      (register_all-keeps (Draining t)
        (λ s d g.
          (new_removal-Registered s d g.0, ground (arith, g.1, new_removal-drains s t d g.0)))
        (λ s d g. (
          record {
            listed = g.0.listed;
            owner = g.0.owner;
            bounded = g.0.bounded;
            done_drained = g.0.done_drained;
          },
          g.1,
        ))
        untrack ss removals owned c (h, k)).1

  pub register_all-Frame :
      (untrack : Bool) (ss removals owned : List ℕ) (c : TokenConnections)
      → Frame c (register_all token_of untrack ss removals owned c).0
  unfolding new_removal
  register_all-Frame untrack ss removals owned c =
      register_all-keeps (Frame c)
        (λ s d g. record {
          leases = g.leases;
          disable_states = g.disable_states;
          stop_state = g.stop_state;
          stopped = g.stopped;
          by_id = g.by_id;
        })
        (λ s d g. record {
          leases = g.leases;
          disable_states = g.disable_states;
          stop_state = g.stop_state;
          stopped = g.stopped;
          by_id = g.by_id;
        })
        untrack ss removals owned c
        (record {
          leases = refl;
          disable_states = refl;
          stop_state = refl;
          stopped = refl;
          by_id = refl;
        })

  -- The sessions that the loop leaves out are not tracked any more.
  register_remove-sessions :
      (s : ℕ) (c : TokenConnections) → (register_remove token_of s c).0.sessions ≡ c.sessions
  unfolding new_removal
  register_remove-sessions s c = register_remove-keeps (λ d. d.sessions ≡ c.sessions) s c refl refl

  pub register_all-tracked :
      (ss removals owned : List ℕ) (c : TokenConnections) (t : ℕ)
      → is_tracked (register_all token_of true ss removals owned c).0 t
        ≡ (is_tracked c t && not (elem t ss))
  unfolding register_all is_tracked elem
  register_all-tracked [] removals owned c t = ground arith
  register_all-tracked (s ∷ ss) removals owned c t =
      let d = record c { sessions = delete c.sessions s } in
      let (e, r, created) = register_remove token_of s d in
      ground (
        arith,
        register_remove-sessions s d,
        has-delete c.sessions s t,
        register_all-tracked ss (removals ++ r ∷ []) (if created then owned ++ r ∷ [] else owned) e
            t,
      )

  pub register_remove-new :
      (s : ℕ) (c : TokenConnections)
      → has c.removals s ≡ false
      → (register_remove token_of s c).0 ≡ new_removal token_of s c
  unfolding register_remove has
  register_remove-new s c h = elim (Option-cases (get c.removals s)) [
    | inl e ↦ rw (e, register_remove) refl
    | inr (r, e) ↦ ground (arith, e, h)
  ]
