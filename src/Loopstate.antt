-- ===== src/Loopstate.antt =====
-- internal/loopstate and internal/constants/status.go: the status of a service's loop. loopMu is
-- held for the whole of ApplyStatus, so the calls are taken one at a time.
pub mod Signals
mod Tests
use gluetun.Prelude.{Bool, true, false, Option, none, some, List, [], ◌∷◌, ◌++◌}

pub data Status : Type 0 where
  starting is_running stopping is_stopped crashed completed : Status

-- What is sent on the channels `start` and `stop`.
pub data Signal : Type 0 where
  start stop : Signal

pub data Outcome : Type 0 where
  already became : Status → Outcome
  invalid_status : Outcome

pub record Applied : Type 0 where
  pub signals : List Signal
  pub status : Status
  pub outcome : Outcome

-- The waits of ApplyStatus. The reply is the status that the loop sends on `running`; for a stop,
-- any status says that it sent on `stopped`. It is `none` for a context that is done first.
abbrev pub started : Option Status → Status
started none = starting
started (some status) = status

abbrev pub stopped_by : Option Status → Status
stopped_by none = stopping
stopped_by (some status) = is_stopped

pub apply_running : Status → Option Status → Applied
apply_running is_stopped reply = record {
  signals = start ∷ [];
  status = started reply;
  outcome = became (started reply);
}
apply_running completed reply = record {
  signals = start ∷ [];
  status = started reply;
  outcome = became (started reply);
}
apply_running existing reply = record {
  signals = [];
  status = existing;
  outcome = already existing;
}

pub apply_stopped : Status → Option Status → Applied
apply_stopped is_running reply = record {
  signals = stop ∷ [];
  status = stopped_by reply;
  outcome = became (stopped_by reply);
}
apply_stopped existing reply = record {
  signals = [];
  status = existing;
  outcome = already existing;
}

-- ApplyStatus, from the existing and the requested status and the reply
unfoldable pub apply_status : Status → Status → Option Status → Applied
unfolding apply_running apply_stopped
apply_status existing is_running reply = apply_running existing reply
apply_status existing is_stopped reply = apply_stopped existing reply
apply_status existing requested reply = record {
  signals = [];
  status = existing;
  outcome = invalid_status;
}

-- A call of ApplyStatus with its reply, or SetStatus by the loop.
pub data Event : Type 0 where
  call : Status → Option Status → Event
  set_status : Status → Event

unfoldable pub run_events : Status → List Event → List Signal × Status
unfolding apply_status
run_events status [] = ([], status)
run_events status (set_status set ∷ events) = run_events set events
run_events status (call requested reply ∷ events) =
    let applied = apply_status status requested reply in
    let (signals, after) = run_events applied.status events in (applied.signals ++ signals, after)
