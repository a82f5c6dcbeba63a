-- ===== src/Grace/Examples.antt =====
-- Tests of the grace controller, and its theorems at short runs.
use otel_magnify.Prelude.{
  nat_eq, string_eq, ◌≡◌, refl, true, false, some, none, List, [], ◌∷◌, arith, All, eq_iff,
}
use otel_magnify.Prelude.Dict.{get, put, delete}
use otel_magnify.Grace.{
  GraceController, GraceTimer, Event, schedules, expires, enters, returns, stops, finished,
  new_grace_controller, stop_timer, cancel, arm, schedule, expire, is_current, enter, return_from,
  stop_all, begin_stop, step, run, stop_returns,
}
use otel_magnify.Grace.Invariant.{Inv, new-Inv}
use otel_magnify.Grace.Stop.{run-Inv, stop_returns-finished}
use otel_magnify.Grace.Starts.{Leaves, scheduled_starts}
use otel_magnify.Grace.Callbacks.{starts, IsDetached, detached_never_starts, none_start_after_stop}

-- Opens the steps for a test.
opened : GraceController
unfolding get put delete new_grace_controller stop_timer cancel arm schedule expire is_current enter
    return_from stop_all begin_stop step run stop_returns
opened = new_grace_controller

-- A timer expires, is replaced before its callback takes the mutex, and the second one runs.
abbrev replaced : List Event
replaced = schedules "w" ∷ expires 0 ∷ schedules "w" ∷ enters 0 ∷ expires 1 ∷ enters 1 ∷ []

replaced_runs : (run replaced new_grace_controller).begun ≡ 1 ∷ []
unfolding opened
replaced_runs = refl

-- `Stop` during a callback waits until it returns.
abbrev stops_running : List Event
stops_running = schedules "w" ∷ expires 0 ∷ enters 0 ∷ schedules "v" ∷ stops ∷ []

stop_waits : stop_returns (run stops_running new_grace_controller) ≡ false
unfolding opened
stop_waits = refl

abbrev stopped_run : List Event
stopped_run = schedules "w" ∷ expires 0 ∷ enters 0 ∷ schedules "v" ∷ stops ∷ returns 0 ∷ []

stop_done : stop_returns (run stopped_run new_grace_controller) ≡ true
unfolding opened
stop_done = refl

run-Inv_example : Inv (run replaced new_grace_controller)
run-Inv_example = run-Inv replaced new-Inv

abbrev last_timer : GraceTimer
last_timer = record { key = "v"; id = 2; phase = finished }

last_timer-get : get (run stopped_run new_grace_controller).heap 1 ≡ some last_timer
unfolding opened
last_timer-get = refl

stop_returns-finished_example : last_timer.phase ≡ finished
stop_returns-finished_example =
    stop_returns-finished stopped_run new-Inv stop_done 1 last_timer last_timer-get

abbrev first_scheduled : GraceController
first_scheduled = run (schedules "w" ∷ schedules "w" ∷ []) new_grace_controller

first-IsDetached : IsDetached first_scheduled 0
unfolding opened
first-IsDetached = record { below = omega arith; unlisted = λ k h. ground arith }

detached_never_starts_example :
    starts 0 (run (expires 0 ∷ enters 0 ∷ []) first_scheduled) ≡ starts 0 first_scheduled
detached_never_starts_example = detached_never_starts (expires 0 ∷ enters 0 ∷ []) first-IsDetached

abbrev earlier : List Event
earlier = schedules "v" ∷ expires 0 ∷ schedules "w" ∷ []

earlier_open : (run earlier new_grace_controller).stopped ≡ false
unfolding opened
earlier_open = refl

-- Another key's timer is replaced meanwhile.
abbrev meanwhile : List Event
meanwhile = enters 0 ∷ schedules "v" ∷ expires 2 ∷ returns 0 ∷ []

meanwhile_Leaves : All (Leaves "w" (run earlier new_grace_controller).allocated) meanwhile
unfolding opened
meanwhile_Leaves = ((λ q. ground arith), ((λ q. ground (arith, eq_iff "v" "w")), (tt, (tt, tt))))

scheduled_starts_example :
    (starts 2 (
        run
          (expires 2 ∷ enters 2 ∷ [])
          (run meanwhile (schedule "w" (run earlier new_grace_controller))))
      ≡ 1)
    × (get
          (run
            (expires 2 ∷ enters 2 ∷ [])
            (run meanwhile (schedule "w" (run earlier new_grace_controller)))).timers
          "w"
        ≡ none)
unfolding opened
scheduled_starts_example = scheduled_starts earlier meanwhile "w" earlier_open meanwhile_Leaves

abbrev stopped_controller : GraceController
stopped_controller = run (schedules "w" ∷ expires 0 ∷ stops ∷ []) new_grace_controller

stopped_controller-stopped : stopped_controller.stopped ≡ true
unfolding opened
stopped_controller-stopped = refl

none_start_after_stop_example :
    (run (enters 0 ∷ schedules "w" ∷ []) stopped_controller).begun ≡ stopped_controller.begun
none_start_after_stop_example =
    none_start_after_stop (enters 0 ∷ schedules "w" ∷ []) stopped_controller
      stopped_controller-stopped
