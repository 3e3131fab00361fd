-- ===== src/Loopstate/Tests.antt =====
-- Sequences of calls, and the theorems at them.
use gluetun.Prelude.{◌≡◌, refl, true, none, some, List, [], ◌∷◌}
use gluetun.Loopstate.{
  is_running, is_stopped, starting, crashed, start, stop, Event, call, set_status, apply_status,
  run_events,
}
use gluetun.Loopstate.Signals.{TakeTurns, run_events-TakeTurns, cancelled_start-stuck}

-- A start, a crash that the loop recovers from, a start that is refused, a stop, and a start.
abbrev events : List Event
events =
    call is_running (some is_running)
    ∷ set_status crashed
    ∷ call is_running none
    ∷ set_status is_running
    ∷ call is_stopped (some is_stopped)
    ∷ call is_running (some is_running)
    ∷ []

signals_run : run_events is_stopped events ≡ (start ∷ stop ∷ start ∷ [], is_running)
unfolding run_events
signals_run = refl

run_events-TakeTurns_example : TakeTurns true (run_events is_stopped events).0
unfolding apply_status
run_events-TakeTurns_example =
    run_events-TakeTurns is_stopped events (refl, (refl, (tt, (refl, (tt, (refl, tt))))))

cancelled_start-stuck_example :
    run_events is_stopped
      (call is_running none ∷ call is_stopped (some is_stopped) ∷ call is_running none ∷ [])
    ≡ (start ∷ [], starting)
cancelled_start-stuck_example =
    cancelled_start-stuck is_stopped (call is_stopped (some is_stopped) ∷ call is_running none ∷ [])
      refl tt
