-- ===== src/Engine/Lifecycle.antt =====
-- weather-core/engine/src/lifecycle.rs: the request to exit that clients, signals and handlers send,
-- and the wait for it. The requests between two reads of the waiting task are a list of their own.
pub mod Exit
use weather_app.Common.{List, [], ◌∷◌, Option, none, some}

pub data EngineExit : Type 0 where
  shutdown : EngineExit
  restart : EngineExit

-- The value in the channel.
pub record EngineControl : Type 0 where
  pub requested : Option EngineExit

abbrev pub new_control : EngineControl
new_control = record { requested = none }

unfoldable pub request_exit : EngineExit → EngineControl → EngineControl
request_exit exit control = elim control.requested [
  | some _ ↦ control
  | none ↦ record control { requested = some exit }
]

-- The requests of any tasks, in the order in which the channel takes them.
unfoldable pub request_exits : List EngineExit → EngineControl → EngineControl
request_exits [] control = control
request_exits (exit ∷ exits) control = request_exits exits (request_exit exit control)

-- The receiver reads, and waits for a change if there is nothing; when no list is left, the senders
-- are gone.
unfoldable pub wait_for_exit : List (List EngineExit) → EngineControl → EngineExit
wait_for_exit [] control = elim control.requested [ some exit ↦ exit | none ↦ shutdown ]
wait_for_exit (exits ∷ later) control =
    let rest = wait_for_exit later (request_exits exits control) in
    elim control.requested [ some exit ↦ exit | none ↦ rest ]
