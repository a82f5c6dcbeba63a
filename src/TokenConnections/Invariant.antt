-- ===== src/TokenConnections/Invariant.antt =====
-- Who waits for a lease in internal/opamp/token_connections.go: the tracking of its session, a removal,
-- a disabling or the stop.
use otel_magnify.Prelude.{
  ℕ, ◌≡◌, Bool, true, false, not, ◌&&◌, ◌||◌, Option, none, some, List, [], ◌∷◌, String, ◌==◌,
  string_eq, nat_eq, if◌then◌else◌,
}
use otel_magnify.Prelude.Dict.{get}
use otel_magnify.TokenConnections.Sets.{has, elem, members}
use otel_magnify.TokenConnections.{
  RemoveState, Progress, draining, notified, awaiting, finished, DisableState, StopState,
  TokenConnections, is_tracked, is_disabled,
}
use otel_magnify.TokenConnections.Shutdown.{is_finished}
use otel_magnify.TokenConnections.Registering.{removal_drains, Registered}

unfoldable pub is_draining : Progress → Bool
is_draining draining = true
is_draining notified = false
is_draining awaiting = false
is_draining finished = false

unfoldable pub entry_waits : ℕ → Option DisableState → Bool
unfolding is_draining elem
entry_waits s none = false
entry_waits s (some d) = is_draining d.progress && elem s d.sessions

-- The disabling of the token waits for the session.
unfoldable pub disable_waits : TokenConnections → String → ℕ → Bool
unfolding entry_waits
disable_waits c id s = entry_waits s (get c.disable_states id)

unfoldable pub state_waits : ℕ → Option StopState → Bool
unfolding is_draining elem
state_waits s none = false
state_waits s (some st) = is_draining st.progress && elem s st.active

-- The stop waits for the session.
unfoldable pub stop_waits : TokenConnections → ℕ → Bool
unfolding state_waits
stop_waits c s = state_waits s c.stop_state

unfoldable pub elem_id : String → List String → Bool
elem_id a [] = false
elem_id a (x ∷ xs) = x == a || elem_id a xs

unfoldable pub entry_unfinished : Option DisableState → Bool
unfolding is_finished
entry_unfinished none = false
entry_unfinished (some d) = not (is_finished d.progress)

unfoldable pub is_unfinished : TokenConnections → String → Bool
unfolding entry_unfinished
is_unfinished c id = entry_unfinished (get c.disable_states id)

unfoldable pub covered : (ℕ → String) → TokenConnections → ℕ → Bool
unfolding disable_waits stop_waits removal_drains is_tracked is_disabled
covered token_of c s =
    if is_disabled c (token_of s)
    then disable_waits c (token_of s) s
    else is_tracked c s || removal_drains c s || stop_waits c s

pub record Inv (token_of : ℕ → String) (c : TokenConnections) : Type 0 where
  pub registered : Registered token_of c
  pub covers : (l s : ℕ) → get c.leases l ≡ some s → covered token_of c s ≡ true
  pub enabled : (s : ℕ) → is_tracked c s ≡ true → is_disabled c (token_of s) ≡ false
  pub halted : (s : ℕ) → c.stopped ≡ true → is_tracked c s ≡ false
  pub indexed :
      (s : ℕ) → is_tracked c s ≡ true → has (members c.sessions_by_id (token_of s)) s ≡ true
  pub of_token :
      (id : String) (s : ℕ) → has (members c.sessions_by_id id) s ≡ true → token_of s ≡ id
  pub not_stopping : c.stopped ≡ false → c.stop_state ≡ none

unfoldable pub state_undone : Option RemoveState → Bool
state_undone none = false
state_undone (some rs) = not rs.done

unfoldable pub is_undone : TokenConnections → ℕ → Bool
unfolding state_undone
is_undone c r = state_undone (get c.remove_states r)

-- What completeStop has waited for once it is through: no disabling and no removal is left, and
-- the stop knows all disablings that are not finished.
pub record Stopping (c : TokenConnections) : Type 0 where
  pub knows :
      (st : StopState) (id : String)
      → c.stop_state ≡ some st
      → is_unfinished c id ≡ true
      → elem_id id st.disables ≡ true
  pub rests :
      (st : StopState) (id : String)
      → c.stop_state ≡ some st
      → st.progress ≡ finished
      → is_unfinished c id ≡ false
  pub removed :
      (st : StopState) (r : ℕ)
      → c.stop_state ≡ some st
      → st.progress ≡ finished
      → is_undone c r ≡ false
