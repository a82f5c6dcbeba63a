-- ===== src/TokenConnections.antt =====
-- internal/opamp/token_connections.go: the sessions that were admitted with a token, the leases that
-- operations hold on them, and how a token that is disabled or expires, or a stop of the server,
-- waits for these. A session is the address of a `tokenSession`; its principal, which never changes,
-- is given by the parameters `token_of` and `expires_of`. A critical section under the mutex is one
-- step. A read lock of a session's gate is an entry of `leases` from a lease to its session. The
-- gate is never locked for writing while a session is tracked, so taking a lease does not wait.
pub mod Sets
pub mod Registering
pub mod Shutdown
pub mod Invariant
pub mod Disabling
pub mod Admission
pub mod Waiting
pub mod Advancing
pub mod Refusing
pub mod Stopping
pub mod Stopped
pub mod Unleased
pub mod Barred
mod Examples
use otel_magnify.Prelude.{
  ℕ, ◌+◌, ◌%◌, ◌^◌, Bool, true, false, not, ◌&&◌, ◌||◌, Option, none, some, List, [], ◌∷◌, ◌++◌,
  String, ◌==◌, string_eq, nat_eq, if◌then◌else◌,
}
use otel_magnify.Prelude.Dict.{Dict, get, put, delete}
use otel_magnify.Prelude.Clock.{Time, Duration, before, after, sub_time}
use otel_magnify.TokenConnections.Sets.{
  values, not_removing, has, keys, elem, members, add_member, drop_member,
}

-- The goroutine finishRemove of a removal: its session has been drained, its cleanup has been
-- reported, and it is done.
pub record RemoveState : Type 0 where
  pub session : ℕ
  pub drained : Bool
  pub cleanup_done : Bool
  pub done : Bool

-- How far completeDisable, or completeStop, has come.
pub data Progress : Type 0 where
  draining notified awaiting finished : Progress

-- The removals are addresses of remove states.
pub record DisableState : Type 0 where
  pub sessions : List ℕ
  pub removals : List ℕ
  pub owned_removals : List ℕ
  pub progress : Progress

pub record StopState : Type 0 where
  pub sessions : List ℕ
  pub active : List ℕ
  pub owned_removals : List ℕ
  pub removals : List ℕ
  pub disables : List String
  pub progress : Progress

pub record ExpiryTimer : Type 0 where
  pub delay : Duration
  pub expires_at : Time
  pub generation : ℕ

pub record TokenConnections : Type 0 where
  pub sessions : Dict ℕ (Unit {0})
  pub sessions_by_id : Dict String (Dict ℕ (Unit {0}))
  pub removals : Dict ℕ ℕ
  pub removals_by_id : Dict String (Dict ℕ ℕ)
  pub disable_states : Dict String DisableState
  pub expiry_timers : Dict String ExpiryTimer
  pub next_timer_id : ℕ
  pub stopped : Bool
  pub stop_state : Option StopState
  -- The leases that were not released, and the remove states, by their addresses.
  pub leases : Dict ℕ ℕ
  pub next_lease : ℕ
  pub remove_states : Dict ℕ RemoveState
  pub next_remove : ℕ
  -- The calls of `onDisabled`, the latest first.
  pub disabled : List (List ℕ)

unfoldable pub new_token_connections : TokenConnections
new_token_connections = record {
  sessions = [];
  sessions_by_id = [];
  removals = [];
  removals_by_id = [];
  disable_states = [];
  expiry_timers = [];
  next_timer_id = 0;
  stopped = false;
  stop_state = none;
  leases = [];
  next_lease = 0;
  remove_states = [];
  next_remove = 0;
  disabled = [];
}

unfoldable pub is_disabled : TokenConnections → String → Bool
unfolding has
is_disabled c id = has c.disable_states id

unfoldable pub is_tracked : TokenConnections → ℕ → Bool
unfolding has
is_tracked c s = has c.sessions s

-- A lease on a session, at a new address.
unfoldable pub lend : ℕ → TokenConnections → TokenConnections × Option ℕ
lend s c = (
  record c { leases = put c.leases c.next_lease s; next_lease = c.next_lease + 1 },
  some c.next_lease,
)

-- `Release`, which counts only once for a lease.
unfoldable pub release : ℕ → TokenConnections → TokenConnections
release l c = record c { leases = delete c.leases l }

unfoldable pub earlier : Option Time → Option Time → Option Time
earlier none best = best
earlier (some t) none = some t
earlier (some t) (some b) = if before t b then some t else some b

unfoldable pub arm_expiry : String → Time → Time → TokenConnections → TokenConnections
arm_expiry id t now c =
    let generation = (c.next_timer_id + 1) % 2 ^ 64 in
    record c {
      next_timer_id = generation;
      expiry_timers =
          put c.expiry_timers id
            (record { delay = sub_time t now; expires_at = t; generation = generation });
    }

unfoldable pub reschedule :
    String → Time → Option Time → Option ExpiryTimer → TokenConnections → TokenConnections
unfolding arm_expiry
reschedule id now none none c = c
reschedule id now none (some current) c = record c { expiry_timers = delete c.expiry_timers id }
reschedule id now (some t) none c = arm_expiry id t now c
reschedule id now (some t) (some current) c =
    if current.expires_at == t then c else arm_expiry id t now c

-- The loop over the sessions of a token.
unfoldable pub earliest : (ℕ → Option Time) → List ℕ → Option Time → Option Time
unfolding earlier
earliest expires_of [] best = best
earliest expires_of (s ∷ ss) best = earliest expires_of ss (earlier (expires_of s) best)

unfoldable pub schedule_expiry :
    (ℕ → Option Time) → String → Time → TokenConnections → TokenConnections
unfolding reschedule earliest members keys
schedule_expiry expires_of id now c =
    reschedule id now (earliest expires_of (keys (members c.sessions_by_id id)) none)
      (get c.expiry_timers id) c

-- `session.principal.ExpiresAt != nil && !session.principal.ExpiresAt.After(now)`
unfoldable pub has_expired : Time → Option Time → Bool
has_expired now none = false
has_expired now (some t) = not (after t now)

module _ (token_of : ℕ → String) where
  -- A new remove state of the session, whose goroutine starts.
  unfoldable pub new_removal : ℕ → TokenConnections → TokenConnections
  unfolding add_member
  new_removal s c = record c {
    removals = put c.removals s c.next_remove;
    removals_by_id = add_member c.removals_by_id (token_of s) s c.next_remove;
    remove_states =
        put c.remove_states c.next_remove
          (record { session = s; drained = false; cleanup_done = false; done = false });
    next_remove = c.next_remove + 1;
  }

  -- The state after the registration, the removal of the session, and whether it is a new one.
  unfoldable pub register_remove : ℕ → TokenConnections → TokenConnections × ℕ × Bool
  unfolding new_removal
  register_remove s c = elim (get c.removals s) [
    | some r ↦ (c, r, false)
    | none ↦ (new_removal s c, c.next_remove, true)
  ]

  unfoldable pub detach_session : ℕ → TokenConnections → TokenConnections
  unfolding drop_member
  detach_session s c = record c {
    sessions = delete c.sessions s;
    sessions_by_id = drop_member c.sessions_by_id (token_of s) s;
  }

  -- The loops over sessions that register their removals; `untrack` is the deletion from the
  -- sessions, which the stop leaves out.
  unfoldable pub register_all :
      Bool → List ℕ → List ℕ → List ℕ → TokenConnections → TokenConnections × List ℕ × List ℕ
  unfolding register_remove
  register_all untrack [] removals owned c = (c, removals, owned)
  register_all untrack (s ∷ ss) removals owned c =
      let d = if untrack then record c { sessions = delete c.sessions s } else c in
      let (e, r, created) = register_remove s d in
      register_all untrack ss (removals ++ r ∷ []) (if created then owned ++ r ∷ [] else owned) e

  -- beginDisableLocked on a token that is not disabled yet.
  unfoldable pub start_disable : String → TokenConnections → TokenConnections
  unfolding register_all not_removing values members keys
  start_disable id c =
      let removing = members c.removals_by_id id in
      let by_id = keys (members c.sessions_by_id id) in
      let (d, removals, owned) = register_all true by_id (values removing) [] c in
      record d {
        expiry_timers = delete c.expiry_timers id;
        sessions_by_id = delete c.sessions_by_id id;
        disable_states = put c.disable_states id (record {
          sessions = keys removing ++ not_removing removing by_id;
          removals = removals;
          owned_removals = owned;
          progress = draining;
        });
      }

  -- The state, and whether the caller is the one to complete the disabling.
  unfoldable pub begin_disable : String → TokenConnections → TokenConnections × Bool
  unfolding start_disable is_disabled
  begin_disable id c = if is_disabled c id then (c, false) else (start_disable id c, true)

  -- `Disable`, up to the wait for its completion.
  unfoldable pub disable : String → TokenConnections → TokenConnections × Bool
  unfolding begin_disable
  disable id c = if c.stopped then (c, false) else begin_disable id c

module _ (token_of : ℕ → String) (expires_of : ℕ → Option Time) where
  unfoldable pub track : ℕ → Time → TokenConnections → TokenConnections × Bool
  unfolding begin_disable has_expired is_tracked is_disabled schedule_expiry add_member
  track s now c =
      if token_of s == "" || c.stopped || is_disabled c (token_of s)
      then (c, false)
      else if has_expired now (expires_of s)
      then ((begin_disable token_of (token_of s) c).0, false)
      else if is_tracked c s
      then (c, false)
      else (
        schedule_expiry expires_of (token_of s) now (record c {
          sessions = put c.sessions s tt;
          sessions_by_id = add_member c.sessions_by_id (token_of s) s tt;
        }),
        true,
      )

  unfoldable pub acquire : ℕ → Time → TokenConnections → TokenConnections × Option ℕ
  unfolding begin_disable has_expired is_tracked is_disabled lend
  acquire s now c =
      if c.stopped || is_disabled c (token_of s) || not (is_tracked c s)
      then (c, none)
      else if has_expired now (expires_of s)
      then ((begin_disable token_of (token_of s) c).0, none)
      else lend s c

  -- `Fork` of a lease on the session.
  unfoldable pub fork : ℕ → TokenConnections → TokenConnections × Option ℕ
  unfolding is_tracked is_disabled lend
  fork s c =
      if c.stopped || is_disabled c (token_of s) || not (is_tracked c s)
      then (c, none)
      else lend s c

  unfoldable pub remove : ℕ → Time → TokenConnections → TokenConnections
  unfolding register_remove detach_session schedule_expiry is_tracked has
  remove s now c =
      if has c.removals s || c.stopped || not (is_tracked c s)
      then c
      else schedule_expiry expires_of (token_of s) now
          (register_remove token_of s (detach_session token_of s c)).0

  -- The callback of a timer, on what the map holds for its token.
  unfoldable pub expire_entry :
      String → ℕ → Time → Option ExpiryTimer → TokenConnections → TokenConnections × Bool
  unfolding begin_disable schedule_expiry
  expire_entry id generation now none c = (c, false)
  expire_entry id generation now (some expiry) c =
      if not (expiry.generation == generation)
      then (c, false)
      else if after expiry.expires_at now
      then (
        schedule_expiry expires_of id now (record c { expiry_timers = delete c.expiry_timers id }),
        false,
      )
      else begin_disable token_of id c

  unfoldable pub expire_token : String → ℕ → Time → TokenConnections → TokenConnections × Bool
  unfolding expire_entry
  expire_token id generation now c =
      if c.stopped then (c, false) else expire_entry id generation now (get c.expiry_timers id) c
