-- ===== src/Grace.antt =====
-- internal/opamp/grace.go: one delayed callback per key. Each method and each critical section of
-- a callback is one step; the runtime's timer, which may expire at any moment while it is armed,
-- is a step of its own. A `*graceTimer` is its number in the order of allocation.
pub mod Heap
pub mod Invariant
pub mod Phases
pub mod Stop
pub mod Effects
pub mod Callbacks
pub mod Starts
mod Examples
use otel_magnify.Prelude.{
  ℕ, suc, ◌+◌, ◌-◌, ◌%◌, ◌^◌, Bool, true, false, not, ◌&&◌, Option, none, some, List, [], ◌∷◌,
  String, ◌==◌, string_eq, nat_eq, if◌then◌else◌,
}
use otel_magnify.Prelude.Dict.{Dict, get, delete, put}

-- What has become of a timer: not expired yet; expired, its callback waiting for the mutex; the
-- callback's function running; `finish` called.
pub data Phase : Type 0 where
  armed fired running finished : Phase

pub record GraceTimer : Type 0 where
  pub key : String
  pub id : ℕ  -- uint64
  pub phase : Phase

pub record GraceController : Type 0 where
  pub timers : Dict String ℕ
  pub stopped : Bool
  pub next_id : ℕ  -- uint64
  pub wg : ℕ
  pub heap : Dict ℕ GraceTimer
  pub allocated : ℕ
  pub begun : List ℕ  -- the timers whose function was started, latest first

unfoldable pub new_grace_controller : GraceController
new_grace_controller = record {
  timers = [];
  stopped = false;
  next_id = 0;
  wg = 0;
  heap = [];
  allocated = 0;
  begun = [];
}

-- `entry.finish(&g.wg)`, at an entry that is not finished
unfoldable pub finish : ℕ → GraceTimer → GraceController → GraceController
finish p e c = record c { heap = put c.heap p (record e { phase = finished }); wg = c.wg - 1 }

-- `if entry.timer.Stop() { entry.finish(&g.wg) }`
unfoldable pub stop_entry : ℕ → GraceTimer → Phase → GraceController → GraceController
unfolding finish
stop_entry p e armed c = finish p e c
stop_entry p e _ c = c

unfoldable pub stop_timer : ℕ → GraceController → GraceController
unfolding stop_entry
stop_timer p c = elim (get c.heap p) [ none ↦ c | some e ↦ stop_entry p e e.phase c ]

-- The body of `Cancel`, which `Schedule` also runs on a timer that it replaces.
unfoldable pub cancel : String → GraceController → GraceController
cancel key c = elim (get c.timers key) [
  | none ↦ c
  | some p ↦ stop_timer p (record c { timers = delete c.timers key })
]

-- A new timer is armed for the key.
unfoldable pub arm : String → GraceController → GraceController
arm key c =
    let id = (c.next_id + 1) % 2 ^ 64 in
    record c {
      next_id = id;
      wg = c.wg + 1;
      heap = put c.heap c.allocated (record { key = key; id = id; phase = armed });
      timers = put c.timers key c.allocated;
      allocated = suc c.allocated;
    }

unfoldable pub schedule : String → GraceController → GraceController
schedule key c = if c.stopped then c else arm key (cancel key c)

-- The runtime: an armed timer expires, and its callback is started.
unfoldable pub expire_entry : ℕ → GraceTimer → Phase → GraceController → GraceController
expire_entry p e armed c = record c { heap = put c.heap p (record e { phase = fired }) }
expire_entry p e _ c = c

unfoldable pub expire : ℕ → GraceController → GraceController
unfolding expire_entry
expire p c = elim (get c.heap p) [ none ↦ c | some e ↦ expire_entry p e e.phase c ]

unfoldable pub id_of : Option GraceTimer → Option ℕ
id_of none = none
id_of (some e) = some e.id

unfoldable pub same_id : Option ℕ → ℕ → Bool
same_id none i = false
same_id (some j) i = j == i

-- `currentExists && current == entry && current.id == entry.id`
unfoldable pub is_current : Option ℕ → ℕ → GraceTimer → GraceController → Bool
unfolding id_of same_id
is_current none p e c = false
is_current (some q) p e c = q == p && same_id (id_of (get c.heap q)) e.id

-- The critical section of the callback: the function is started, or the timer is out of date.
unfoldable pub enter_entry : ℕ → GraceTimer → Phase → GraceController → GraceController
unfolding finish
enter_entry p e fired c =
    if not c.stopped && is_current (get c.timers e.key) p e c
    then record c {
      timers = delete c.timers e.key;
      heap = put c.heap p (record e { phase = running });
      begun = p ∷ c.begun;
    }
    else finish p e c
enter_entry p e _ c = c

unfoldable pub enter : ℕ → GraceController → GraceController
unfolding enter_entry
enter p c = elim (get c.heap p) [ none ↦ c | some e ↦ enter_entry p e e.phase c ]

-- The function returns, and the deferred `finish` runs.
unfoldable pub return_entry : ℕ → GraceTimer → Phase → GraceController → GraceController
unfolding finish
return_entry p e running c = finish p e c
return_entry p e _ c = c

unfoldable pub return_from : ℕ → GraceController → GraceController
unfolding return_entry
return_from p c = elim (get c.heap p) [ none ↦ c | some e ↦ return_entry p e e.phase c ]

-- The loop of `beginStop` over the timers.
unfoldable pub stop_all : Dict String ℕ → GraceController → GraceController
stop_all [] c = c
stop_all ((k, p) ∷ ts) c = stop_all ts (stop_timer p c)

-- The critical section of `beginStop`; a second call finds `stopState` set.
unfoldable pub begin_stop : GraceController → GraceController
begin_stop c = if c.stopped then c else stop_all c.timers (record c { stopped = true; timers = [] })

-- What can happen next, in any order.
pub data Event : Type 0 where
  schedules cancels : String → Event
  expires enters returns : ℕ → Event
  stops : Event

unfoldable pub step : Event → GraceController → GraceController
step (schedules key) c = schedule key c
step (cancels key) c = cancel key c
step (expires p) c = expire p c
step (enters p) c = enter p c
step (returns p) c = return_from p c
step stops c = begin_stop c

unfoldable pub run : List Event → GraceController → GraceController
run [] c = c
run (e ∷ es) c = run es (step e c)

-- `close(state.done)` runs once `wg.Wait()` returns.
unfoldable pub stop_returns : GraceController → Bool
stop_returns c = c.stopped && c.wg == 0
