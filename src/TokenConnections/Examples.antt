-- ===== src/TokenConnections/Examples.antt =====
-- Tests of the token connections, and their theorems at short runs.
use otel_magnify.Prelude.{
  ℕ, nat_eq, string_eq, ◌≡◌, ◌≢◌, refl, true, false, Option, some, none, List, [], ◌∷◌, String,
  if◌then◌else◌, ◌==◌, ◌||◌,
}
use otel_magnify.Prelude.Dict.{get, put, delete}
use otel_magnify.Prelude.Clock.{Time}
use otel_magnify.TokenConnections.Sets.{
  has, keys, values, not_removing, elem, members, add_member, keep_filled, drop_member,
}
use otel_magnify.TokenConnections.{
  notified, finished, StopState, DisableState, TokenConnections, new_token_connections, is_disabled,
  is_tracked, lend, release, earlier, arm_expiry, reschedule, earliest, schedule_expiry,
  has_expired, new_removal, register_remove, detach_session, register_all, start_disable,
  begin_disable, disable, track, acquire, fork, remove, expire_entry, expire_token,
}
use otel_magnify.TokenConnections.Shutdown.{
  is_held, is_idle, complete_token_remove, complete_all, complete_remove, is_done, drain_entry,
  drain_remove, forget_removal, finish_entry, finish_remove, notify, advance_entry, advance_disable,
  is_finished, unfinished, start_stop, begin_stop, is_disable_finished, all_done, stop_entry,
  advance_stop, Event, tracks, acquires, removes, releases, completes, drains, finishes, disables,
  advances, expires, stops, advances_stop, step, run,
}
use otel_magnify.TokenConnections.Invariant.{is_draining}
use otel_magnify.TokenConnections.Unleased.{disabled_unleased, stopped_unleased}
use otel_magnify.TokenConnections.Barred.{barred_refused}

-- Opens the steps for a test.
opened : TokenConnections
unfolding get put delete has keys values not_removing elem members add_member keep_filled
    drop_member new_token_connections is_disabled is_tracked lend release earlier arm_expiry
    reschedule earliest schedule_expiry has_expired new_removal register_remove detach_session
    register_all start_disable begin_disable disable track acquire fork remove expire_entry
    expire_token is_held is_idle complete_token_remove complete_all complete_remove is_done
    drain_entry drain_remove forget_removal finish_entry finish_remove notify advance_entry
    advance_disable is_finished unfinished start_stop begin_stop is_disable_finished all_done
    stop_entry advance_stop step run is_draining
opened = new_token_connections

-- The sessions 1 and 2 have the token "a", all others "b".
abbrev token_of : ℕ → String
token_of s = if s == 1 || s == 2 then "a" else "b"

-- The token of the session 2 expires at the time 50.
abbrev expires_of : ℕ → Option Time
expires_of s = if s == 2 then some 50 else none

abbrev new : TokenConnections
new = new_token_connections

-- Three sessions are tracked and two hold a lease when the token "a" expires, and the lease of the
-- session 1 is released afterwards.
abbrev expiring : List Event
expiring =
    tracks 1 0
    ∷ tracks 2 1
    ∷ tracks 3 2
    ∷ acquires 1 3
    ∷ acquires 3 4
    ∷ expires "a" 1 50
    ∷ advances "a"
    ∷ []

abbrev expired : List Event
expired =
    tracks 1 0
    ∷ tracks 2 1
    ∷ tracks 3 2
    ∷ acquires 1 3
    ∷ acquires 3 4
    ∷ expires "a" 1 50
    ∷ advances "a"
    ∷ releases 0
    ∷ advances "a"
    ∷ []

waits_for_lease : (run token_of expires_of expiring new).disabled ≡ []
unfolding opened
waits_for_lease = refl

notified_once : (run token_of expires_of expired new).disabled ≡ (2 ∷ 1 ∷ []) ∷ []
unfolding opened
notified_once = refl

abbrev expired_state : DisableState
expired_state = record {
  sessions = 2 ∷ 1 ∷ [];
  removals = 0 ∷ 1 ∷ [];
  owned_removals = 0 ∷ 1 ∷ [];
  progress = notified;
}

expired_disabled : get (run token_of expires_of expired new).disable_states "a" ≡ some expired_state
unfolding opened
expired_disabled = refl

lease_of_other : get (run token_of expires_of expired new).leases 1 ≡ some 3
unfolding opened
lease_of_other = refl

notified_not_draining : is_draining notified ≡ false
unfolding opened
notified_not_draining = refl

disabled_unleased_example : token_of 3 ≢ "a"
disabled_unleased_example =
    disabled_unleased token_of expires_of expired "a" expired_state 1 3 expired_disabled
      notified_not_draining lease_of_other

-- The server stops while the session 4 has a lease, 3 is being removed and "a" being disabled.
abbrev shutdown : List Event
shutdown =
    tracks 1 0
    ∷ tracks 3 0
    ∷ tracks 4 0
    ∷ acquires 1 3
    ∷ acquires 4 3
    ∷ removes 3 4
    ∷ disables "a"
    ∷ stops
    ∷ releases 0
    ∷ releases 1
    ∷ advances_stop
    ∷ advances_stop
    ∷ completes 3
    ∷ drains 0
    ∷ finishes 0
    ∷ advances "a"
    ∷ advances "a"
    ∷ drains 1
    ∷ finishes 1
    ∷ drains 2
    ∷ finishes 2
    ∷ advances "a"
    ∷ advances_stop
    ∷ []

abbrev shutdown_state : StopState
shutdown_state = record {
  sessions = 4 ∷ 1 ∷ 3 ∷ [];
  active = 4 ∷ [];
  owned_removals = 2 ∷ [];
  removals = 2 ∷ 1 ∷ 0 ∷ [];
  disables = "a" ∷ [];
  progress = finished;
}

shutdown_stopped : (run token_of expires_of shutdown new).stop_state ≡ some shutdown_state
unfolding opened
shutdown_stopped = refl

stopped_unleased_example : get (run token_of expires_of shutdown new).leases 0 ≡ none
stopped_unleased_example =
    stopped_unleased token_of expires_of shutdown shutdown_state 0 shutdown_stopped refl

abbrev disabled_connections : TokenConnections
disabled_connections = run token_of expires_of (tracks 1 0 ∷ tracks 3 1 ∷ disables "a" ∷ []) new

token_barred :
    (disabled_connections.stopped || is_disabled disabled_connections (token_of 2)) ≡ true
unfolding opened
token_barred = refl

barred_refused_example :
    let d = run token_of expires_of (advances "a" ∷ acquires 3 5 ∷ []) disabled_connections in
    (track token_of expires_of 2 7 d ≡ (d, false))
    × (acquire token_of expires_of 2 7 d ≡ (d, none))
    × (fork token_of expires_of 2 d ≡ (d, none))
barred_refused_example =
    barred_refused token_of expires_of (advances "a" ∷ acquires 3 5 ∷ []) disabled_connections 2 7
      token_barred
