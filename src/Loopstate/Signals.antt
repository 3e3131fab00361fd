-- ===== src/Loopstate/Signals.antt =====
-- internal/loopstate: the signals that the loop gets.
use gluetun.Prelude.{◌≡◌, refl, Bool, true, false, Option, none, some, List, [], ◌∷◌, ◌++◌, arith}
use gluetun.Loopstate.{
  Status, starting, is_running, stopping, is_stopped, crashed, completed, Signal, start, stop,
  apply_running, apply_stopped, apply_status, Event, call, set_status, run_events,
}

-- No work is being done, so that a start is possible.
abbrev pub is_idle : Status → Bool
is_idle is_stopped = true
is_idle completed = true
is_idle _ = false

-- Starts and stops take turns; the Boolean says whether the next is a start.
abbrev pub TakeTurns : Bool → List Signal → Type 0
TakeTurns idle [] = Unit
TakeTurns true (start ∷ signals) = TakeTurns false signals
TakeTurns false (stop ∷ signals) = TakeTurns true signals
TakeTurns _ _ = ⊥

-- The loop does not answer a start by an end, and it confirms every stop.
abbrev pub IsAnswer : Status → Option Status → Type 0
IsAnswer is_stopped none = ⊥
IsAnswer is_stopped (some reply) = Unit
IsAnswer requested none = Unit
IsAnswer requested (some reply) = is_idle reply ≡ false

-- The answers are such ones, and by itself the loop sets no status that starts or ends the work.
abbrev pub AreOrderly : Status → List Event → Type 0
AreOrderly status [] = Unit
AreOrderly status (set_status set ∷ events) = (is_idle set ≡ is_idle status) × AreOrderly set events
AreOrderly status (call requested reply ∷ events) =
    IsAnswer requested reply × AreOrderly (apply_status status requested reply).status events

apply_running-TakeTurns :
    (status : Status) (reply : Option Status) (signals : List Signal)
    → IsAnswer is_running reply
    → TakeTurns (is_idle (apply_running status reply).status) signals
    → TakeTurns (is_idle status) ((apply_running status reply).signals ++ signals)
unfolding apply_running
apply_running-TakeTurns is_stopped none signals h k = k
apply_running-TakeTurns is_stopped (some reply) signals h k = rw h at k
apply_running-TakeTurns completed none signals h k = k
apply_running-TakeTurns completed (some reply) signals h k = rw h at k
apply_running-TakeTurns starting reply signals h k = k
apply_running-TakeTurns is_running reply signals h k = k
apply_running-TakeTurns stopping reply signals h k = k
apply_running-TakeTurns crashed reply signals h k = k

apply_stopped-TakeTurns :
    (status : Status) (reply : Option Status) (signals : List Signal)
    → IsAnswer is_stopped reply
    → TakeTurns (is_idle (apply_stopped status reply).status) signals
    → TakeTurns (is_idle status) ((apply_stopped status reply).signals ++ signals)
unfolding apply_stopped
apply_stopped-TakeTurns is_running none signals h k = absurd h
apply_stopped-TakeTurns is_running (some reply) signals h k = k
apply_stopped-TakeTurns is_stopped reply signals h k = k
apply_stopped-TakeTurns completed reply signals h k = k
apply_stopped-TakeTurns starting reply signals h k = k
apply_stopped-TakeTurns stopping reply signals h k = k
apply_stopped-TakeTurns crashed reply signals h k = k

apply_status-TakeTurns :
    (status requested : Status) (reply : Option Status) (signals : List Signal)
    → IsAnswer requested reply
    → TakeTurns (is_idle (apply_status status requested reply).status) signals
    → TakeTurns (is_idle status) ((apply_status status requested reply).signals ++ signals)
unfolding apply_status
apply_status-TakeTurns status is_running reply signals h k =
    apply_running-TakeTurns status reply signals h k
apply_status-TakeTurns status is_stopped reply signals h k =
    apply_stopped-TakeTurns status reply signals h k
apply_status-TakeTurns status starting reply signals h k = k
apply_status-TakeTurns status stopping reply signals h k = k
apply_status-TakeTurns status crashed reply signals h k = k
apply_status-TakeTurns status completed reply signals h k = k

set_status-TakeTurns :
    (status set : Status) (signals : List Signal)
    → is_idle set ≡ is_idle status
    → TakeTurns (is_idle set) signals
    → TakeTurns (is_idle status) signals
set_status-TakeTurns status set signals e k = rw e at k

-- Where the loop answers no start by a status of an end, confirms every stop, and by itself sets
-- no status that starts or ends the work, the signals that it gets from any sequence of calls and
-- from any first status are starts and stops in turns, beginning with a start exactly where no
-- work is being done.
pub run_events-TakeTurns :
    (status : Status) (events : List Event)
    → AreOrderly status events
    → TakeTurns (is_idle status) (run_events status events).0
unfolding run_events
run_events-TakeTurns status [] h = tt
run_events-TakeTurns status (set_status set ∷ events) (e, h) =
    set_status-TakeTurns status set (run_events set events).0 e (run_events-TakeTurns set events h)
run_events-TakeTurns status (call requested reply ∷ events) (a, h) =
    let after = (apply_status status requested reply).status in
    apply_status-TakeTurns status requested reply (run_events after events).0 a
      (run_events-TakeTurns after events h)

abbrev pub AreCalls : List Event → Type 0
AreCalls [] = Unit
AreCalls (set_status set ∷ events) = ⊥
AreCalls (call requested reply ∷ events) = AreCalls events

calls_when_starting :
    (events : List Event) → AreCalls events → run_events starting events ≡ ([], starting)
unfolding run_events apply_status apply_running apply_stopped
calls_when_starting [] h = refl
calls_when_starting (set_status set ∷ events) h = absurd h
calls_when_starting (call starting reply ∷ events) h = calls_when_starting events h
calls_when_starting (call is_running reply ∷ events) h = calls_when_starting events h
calls_when_starting (call stopping reply ∷ events) h = calls_when_starting events h
calls_when_starting (call is_stopped reply ∷ events) h = calls_when_starting events h
calls_when_starting (call crashed reply ∷ events) h = calls_when_starting events h
calls_when_starting (call completed reply ∷ events) h = calls_when_starting events h

-- Where the context of a start, of a loop without work, is done before the loop answers, no later
-- calls of ApplyStatus, whatever they request, send a signal or change the status from starting,
-- as long as the loop sets no status by itself.
pub cancelled_start-stuck :
    (status : Status) (events : List Event)
    → is_idle status ≡ true
    → AreCalls events
    → run_events status (call is_running none ∷ events) ≡ (start ∷ [], starting)
unfolding run_events apply_status apply_running
cancelled_start-stuck is_stopped events h calls = rw (calls_when_starting events calls) refl
cancelled_start-stuck completed events h calls = rw (calls_when_starting events calls) refl
cancelled_start-stuck starting events h calls = absurd (ground (arith, h))
cancelled_start-stuck is_running events h calls = absurd (ground (arith, h))
cancelled_start-stuck stopping events h calls = absurd (ground (arith, h))
cancelled_start-stuck crashed events h calls = absurd (ground (arith, h))
