-- ===== src/TokenConnections/Shutdown.antt =====
-- The waiting parts of token_connections.go: finishRemove, completeDisable, Stop and completeStop. A
-- wait is a step that does nothing until what it waits for holds. The sessions that completeDisable
-- and completeStop wait for are not tracked any more, so a session that has no lease gets none, and
-- waiting for one after the other is waiting for all. In an `Event` list every goroutine may take the next
-- step, callbacks of timers that were stopped too late included.
use otel_magnify.Prelude.{
  ℕ, Bool, true, false, not, ◌&&◌, Option, none, some, List, [], ◌∷◌, all, String, ◌==◌, string_eq,
  nat_eq, if◌then◌else◌,
}
use otel_magnify.Prelude.Dict.{Dict, get, put, delete}
use otel_magnify.Prelude.Clock.{Time}
use otel_magnify.TokenConnections.Sets.{values, keys, elem, drop_member}
use otel_magnify.TokenConnections.{
  RemoveState, Progress, draining, notified, awaiting, finished, DisableState, StopState,
  TokenConnections, register_all, track, acquire, fork, release, remove, disable, expire_token,
}

unfoldable pub is_held : TokenConnections → ℕ → Bool
unfolding values elem
is_held c s = elem s (values c.leases)

-- waitForTokenSessions returns.
unfoldable pub is_idle : TokenConnections → List ℕ → Bool
unfolding is_held
is_idle c [] = true
is_idle c (s ∷ ss) = not (is_held c s) && is_idle c ss

-- completeTokenRemove, whose channel is closed once.
unfoldable pub complete_token_remove : ℕ → TokenConnections → TokenConnections
complete_token_remove r c = elim (get c.remove_states r) [
  | none ↦ c
  | some rs ↦ record c { remove_states = put c.remove_states r (record rs { cleanup_done = true }) }
]

unfoldable pub complete_all : List ℕ → TokenConnections → TokenConnections
unfolding complete_token_remove
complete_all [] c = c
complete_all (r ∷ rs) c = complete_all rs (complete_token_remove r c)

unfoldable pub complete_remove : ℕ → TokenConnections → TokenConnections
unfolding complete_token_remove
complete_remove s c = elim (get c.removals s) [ none ↦ c | some r ↦ complete_token_remove r c ]

-- `<-removal.done`
unfoldable pub is_done : TokenConnections → ℕ → Bool
is_done c r = elim (get c.remove_states r) [ none ↦ false | some rs ↦ rs.done ]

-- The first wait of finishRemove is over.
unfoldable pub drain_entry : ℕ → Option RemoveState → TokenConnections → TokenConnections
unfolding is_held
drain_entry r none c = c
drain_entry r (some rs) c =
    if is_held c rs.session
    then c
    else record c { remove_states = put c.remove_states r (record rs { drained = true }) }

unfoldable pub drain_remove : ℕ → TokenConnections → TokenConnections
unfolding drain_entry
drain_remove r c = drain_entry r (get c.remove_states r) c

-- `if m.removals[state.session] == state {...}`
unfoldable pub forget_removal :
    (ℕ → String) → ℕ → RemoveState → Option ℕ → TokenConnections → TokenConnections
forget_removal token_of r rs none c = c
forget_removal token_of r rs (some q) c =
    if q == r
    then record c {
      removals = delete c.removals rs.session;
      removals_by_id = drop_member c.removals_by_id (token_of rs.session) rs.session;
    }
    else c

unfoldable pub finish_entry :
    (ℕ → String) → ℕ → Option RemoveState → TokenConnections → TokenConnections
unfolding forget_removal
finish_entry token_of r none c = c
finish_entry token_of r (some rs) c =
    if rs.drained && rs.cleanup_done && not rs.done
    then forget_removal token_of r rs (get c.removals rs.session)
        (record c { remove_states = put c.remove_states r (record rs { done = true }) })
    else c

unfoldable pub finish_remove : (ℕ → String) → ℕ → TokenConnections → TokenConnections
unfolding finish_entry
finish_remove token_of r c = finish_entry token_of r (get c.remove_states r) c

-- `if len(sessions) > 0 && m.onDisabled != nil { m.onDisabled(sessions) }`
unfoldable pub notify : List ℕ → List (List ℕ) → List (List ℕ)
notify [] calls = calls
notify (s ∷ ss) calls = (s ∷ ss) ∷ calls

-- The next part of completeDisable.
unfoldable pub advance_entry :
    String → DisableState → Progress → TokenConnections → TokenConnections
unfolding is_idle notify complete_all is_done
advance_entry id d draining c =
    if is_idle c d.sessions
    then record c {
      disable_states = put c.disable_states id (record d { progress = notified });
      disabled = notify d.sessions c.disabled;
    }
    else c
advance_entry id d notified c =
    complete_all d.owned_removals
      (record c { disable_states = put c.disable_states id (record d { progress = awaiting }) })
advance_entry id d awaiting c =
    if all (is_done c) d.removals
    then record c {
      disable_states =
          put c.disable_states id
            (record { sessions = []; removals = []; owned_removals = []; progress = finished });
    }
    else c
advance_entry id d finished c = c

unfoldable pub advance_disable : String → TokenConnections → TokenConnections
unfolding advance_entry
advance_disable id c = elim (get c.disable_states id) [
  | none ↦ c
  | some d ↦ advance_entry id d d.progress c
]

unfoldable pub is_finished : Progress → Bool
is_finished draining = false
is_finished notified = false
is_finished awaiting = false
is_finished finished = true

-- The disablings that are not finished.
unfoldable pub unfinished : Dict String DisableState → List String
unfolding is_finished
unfinished [] = []
unfinished ((id, d) ∷ ds) =
    let rest = unfinished ds in if is_finished d.progress then rest else id ∷ rest

unfoldable pub start_stop : (ℕ → String) → TokenConnections → TokenConnections
unfolding register_all values keys unfinished
start_stop token_of c =
    let active = keys c.sessions in
    let (d, removals, owned) = register_all token_of false active [] [] c in
    record d {
      stopped = true;
      stop_state = some (record {
        sessions = keys d.removals;
        active = active;
        owned_removals = owned;
        removals = values d.removals;
        disables = unfinished c.disable_states;
        progress = draining;
      });
      sessions = [];
      sessions_by_id = [];
      expiry_timers = [];
    }

unfoldable pub begin_stop : (ℕ → String) → TokenConnections → TokenConnections
unfolding start_stop
begin_stop token_of c = elim c.stop_state [ none ↦ start_stop token_of c | some st ↦ c ]

-- `<-done` of a disabling
unfoldable pub is_disable_finished : TokenConnections → String → Bool
unfolding is_finished
is_disable_finished c id = elim (get c.disable_states id) [
  | none ↦ false
  | some d ↦ is_finished d.progress
]

-- `m.removeWG.Wait()` returns.
unfoldable pub all_done : Dict ℕ RemoveState → Bool
all_done [] = true
all_done ((r, rs) ∷ states) = rs.done && all_done states

-- The next part of completeStop. The workers of expiryWG complete disablings that are among
-- `disables`, or change nothing any more.
unfoldable pub stop_entry : StopState → Progress → TokenConnections → TokenConnections
unfolding is_idle notify complete_all is_done is_disable_finished all_done
stop_entry st draining c =
    if is_idle c st.active
    then record c {
      stop_state = some (record st { progress = notified });
      disabled = notify st.active c.disabled;
    }
    else c
stop_entry st notified c =
    complete_all st.owned_removals
      (record c { stop_state = some (record st { progress = awaiting }) })
stop_entry st awaiting c =
    if all (is_done c) st.removals
      && all (is_disable_finished c) st.disables
      && all_done c.remove_states
    then record c { stop_state = some (record st { progress = finished }) }
    else c
stop_entry st finished c = c

unfoldable pub advance_stop : TokenConnections → TokenConnections
unfolding stop_entry
advance_stop c = elim c.stop_state [ none ↦ c | some st ↦ stop_entry st st.progress c ]

pub data Event : Type 0 where
  tracks acquires removes : ℕ → Time → Event
  forks releases completes drains finishes : ℕ → Event
  disables advances : String → Event
  expires : String → ℕ → Time → Event
  stops advances_stop : Event

module _ (token_of : ℕ → String) (expires_of : ℕ → Option Time) where
  unfoldable pub step : Event → TokenConnections → TokenConnections
  step (tracks s now) c = (track token_of expires_of s now c).0
  step (acquires s now) c = (acquire token_of expires_of s now c).0
  step (removes s now) c = remove token_of expires_of s now c
  step (forks s) c = (fork token_of expires_of s c).0
  step (releases l) c = release l c
  step (completes s) c = complete_remove s c
  step (drains r) c = drain_remove r c
  step (finishes r) c = finish_remove token_of r c
  step (disables id) c = (disable token_of id c).0
  step (advances id) c = advance_disable id c
  step (expires id generation now) c = (expire_token token_of expires_of id generation now c).0
  step stops c = begin_stop token_of c
  step advances_stop c = advance_stop c

  unfoldable pub run : List Event → TokenConnections → TokenConnections
  unfolding step
  run [] c = c
  run (e ∷ es) c = run es (step e c)
