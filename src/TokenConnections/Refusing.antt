-- ===== src/TokenConnections/Refusing.antt =====
-- What admissions and removals of internal/opamp/token_connections.go may change of the stop and of the
-- disabled tokens.
use otel_magnify.Prelude.{
  ◌∙◌, ℕ, ◌≡◌, refl, true, not, ◌||◌, Option, none, some, [], String, ◌==◌, string_eq, nat_eq,
  arith, Bool-cases, inl, inr,
}
use otel_magnify.Prelude.Dict.{Dict, get, put, get-put}
use otel_magnify.Prelude.Clock.{Time, after}
use otel_magnify.TokenConnections.Sets.{has, keys, values, members}
use otel_magnify.TokenConnections.{
  DisableState, ExpiryTimer, TokenConnections, is_tracked, is_disabled, lend, reschedule,
  arm_expiry, earliest, schedule_expiry, has_expired, register_remove, new_removal, detach_session,
  start_disable, begin_disable, disable, track, acquire, fork, remove, expire_entry, expire_token,
}
use otel_magnify.TokenConnections.Registering.{register_all-Frame, register_remove-keeps}

pub has-put_disable :
    (ds : Dict String DisableState) (id j : String) (d : DisableState)
    → has ds j ≡ true
    → has (put ds id d) j ≡ true
unfolding has
has-put_disable ds id j d e = ground (arith, e, get-put ds id j d)

pub record Kept (c d : TokenConnections) : Type 0 where
  pub stop_state : d.stop_state ≡ c.stop_state
  pub stopped : d.stopped ≡ c.stopped
  pub disabled : (id : String) → is_disabled c id ≡ true → is_disabled d id ≡ true

Kept-refl : (c : TokenConnections) → Kept c c
Kept-refl c = record { stop_state = refl; stopped = refl; disabled = λ id e. e }

Kept-trans : (c d e : TokenConnections) → Kept c d → Kept d e → Kept c e
Kept-trans c d e f g = record {
  stop_state = g.stop_state ∙ f.stop_state;
  stopped = g.stopped ∙ f.stopped;
  disabled = λ id h. g.disabled id (f.disabled id h);
}

reschedule-Kept :
    (id : String) (now : Time) (e : Option Time) (current : Option ExpiryTimer)
    (c : TokenConnections)
    → Kept c (reschedule id now e current c)
unfolding reschedule arm_expiry is_disabled
reschedule-Kept id now none none c = Kept-refl c
reschedule-Kept id now none (some x) c = record {
  stop_state = refl;
  stopped = refl;
  disabled = λ j e. e;
}
reschedule-Kept id now (some t) none c = record {
  stop_state = refl;
  stopped = refl;
  disabled = λ j e. e;
}
reschedule-Kept id now (some t) (some x) c = elim (Bool-cases (x.expires_at == t)) [
  | inl b ↦ rw b (Kept-refl c)
  | inr b ↦ rw b (record { stop_state = refl; stopped = refl; disabled = λ j e. e })
]

schedule-Kept :
    (expires_of : ℕ → Option Time) (id : String) (now : Time) (c : TokenConnections)
    → Kept c (schedule_expiry expires_of id now c)
unfolding schedule_expiry
schedule-Kept expires_of id now c =
    reschedule-Kept id now (earliest expires_of (keys (members c.sessions_by_id id)) none)
      (get c.expiry_timers id) c

module _ (token_of : ℕ → String) where
  start_disable-Kept : (id : String) (c : TokenConnections) → Kept c (start_disable token_of id c)
  unfolding start_disable is_disabled has
  start_disable-Kept id c =
      let removing = members c.removals_by_id id in
      let f =
        register_all-Frame token_of true (keys (members c.sessions_by_id id)) (values removing) []
          c in
      record {
        stop_state = f.stop_state;
        stopped = f.stopped;
        disabled = λ j e. has-put_disable c.disable_states id j _ e;
      }

  begin_disable-Kept : (id : String) (c : TokenConnections) → Kept c (begin_disable token_of id c).0
  unfolding begin_disable
  begin_disable-Kept id c = elim (Bool-cases (is_disabled c id)) [
    | inl b ↦ rw (b, begin_disable) (Kept-refl c)
    | inr b ↦ rw (b, begin_disable) (start_disable-Kept id c)
  ]

  pub disable-Kept : (id : String) (c : TokenConnections) → Kept c (disable token_of id c).0
  unfolding disable
  disable-Kept id c = elim (Bool-cases c.stopped) [
    | inl b ↦ simp (b, disable) (Kept-refl c)
    | inr b ↦ simp (b, disable) (begin_disable-Kept id c)
  ]

module _ (token_of : ℕ → String) (expires_of : ℕ → Option Time) where
  pub track-Kept :
      (s : ℕ) (now : Time) (c : TokenConnections) → Kept c (track token_of expires_of s now c).0
  unfolding track is_disabled
  track-Kept s now c =
      elim (Bool-cases (token_of s == "" || c.stopped || is_disabled c (token_of s))) [
        | inl b ↦ rw (b, track) (Kept-refl c)
        | inr b ↦ elim (Bool-cases (has_expired now (expires_of s))) [
          | inl x ↦ rw (b, track, x) (begin_disable-Kept token_of (token_of s) c)
          | inr x ↦ elim (Bool-cases (is_tracked c s)) [
            | inl t ↦ rw (b, track, x, t) (Kept-refl c)
            | inr t ↦
                rw (b, track, x, t)
                  (Kept-trans c _ _
                    (record { stop_state = refl; stopped = refl; disabled = λ j e. e })
                    (schedule-Kept expires_of (token_of s) now _))
          ]
        ]
      ]

  pub acquire-Kept :
      (s : ℕ) (now : Time) (c : TokenConnections) → Kept c (acquire token_of expires_of s now c).0
  unfolding acquire lend is_disabled
  acquire-Kept s now c =
      elim (Bool-cases (c.stopped || is_disabled c (token_of s) || not (is_tracked c s))) [
        | inl b ↦ rw (b, acquire) (Kept-refl c)
        | inr b ↦ elim (Bool-cases (has_expired now (expires_of s))) [
          | inl x ↦ rw (b, acquire, x) (begin_disable-Kept token_of (token_of s) c)
          | inr x ↦
              rw (b, acquire, x) (record { stop_state = refl; stopped = refl; disabled = λ j e. e })
        ]
      ]

  pub fork-Kept : (s : ℕ) (c : TokenConnections) → Kept c (fork token_of expires_of s c).0
  unfolding fork lend is_disabled
  fork-Kept s c =
      elim (Bool-cases (c.stopped || is_disabled c (token_of s) || not (is_tracked c s))) [
        | inl b ↦ rw (b, fork) (Kept-refl c)
        | inr b ↦ rw (b, fork) (record { stop_state = refl; stopped = refl; disabled = λ j e. e })
      ]

  removing-Kept :
      (s : ℕ) (c : TokenConnections)
      → Kept c (register_remove token_of s (detach_session token_of s c)).0
  unfolding detach_session new_removal is_disabled
  removing-Kept s c =
      register_remove-keeps token_of (Kept c) s (detach_session token_of s c)
        (record { stop_state = refl; stopped = refl; disabled = λ j e. e })
        (record { stop_state = refl; stopped = refl; disabled = λ j e. e })

  pub remove-Kept :
      (s : ℕ) (now : Time) (c : TokenConnections) → Kept c (remove token_of expires_of s now c)
  unfolding remove
  remove-Kept s now c = elim (Bool-cases (has c.removals s || c.stopped || not (is_tracked c s))) [
    | inl b ↦ rw (b, remove) (Kept-refl c)
    | inr b ↦
        rw (b, remove)
          (Kept-trans c _ _ (removing-Kept s c) (schedule-Kept expires_of (token_of s) now _))
  ]

  expire_entry-Kept :
      (id : String) (generation : ℕ) (now : Time) (e : Option ExpiryTimer) (c : TokenConnections)
      → Kept c (expire_entry token_of expires_of id generation now e c).0
  unfolding expire_entry is_disabled
  expire_entry-Kept id generation now none c = Kept-refl c
  expire_entry-Kept id generation now (some x) c = elim (Bool-cases (x.generation == generation)) [
    | inr b ↦ rw (b, expire_entry) (Kept-refl c)
    | inl b ↦ elim (Bool-cases (after x.expires_at now)) [
      | inl a ↦
          rw (b, expire_entry, a)
            (Kept-trans c _ _ (record { stop_state = refl; stopped = refl; disabled = λ j e. e })
              (schedule-Kept expires_of id now _))
      | inr a ↦ rw (b, expire_entry, a) (begin_disable-Kept token_of id c)
    ]
  ]

  pub expire_token-Kept :
      (id : String) (generation : ℕ) (now : Time) (c : TokenConnections)
      → Kept c (expire_token token_of expires_of id generation now c).0
  unfolding expire_token
  expire_token-Kept id generation now c = elim (Bool-cases c.stopped) [
    | inl b ↦ simp (b, expire_token) (Kept-refl c)
    | inr b ↦
        simp (b, expire_token) (expire_entry-Kept id generation now (get c.expiry_timers id) c)
  ]
