-- ===== src/Client/Session.antt =====
-- weather-renderer/common/src/client/session.rs and failure.rs: the tasks of a client session and
-- its supervisor. `R` is the response; the registry of pending requests is that of Client/Pending.
pub mod Supervision
pub mod Ending
use weather_app.Common.{
  Bool, true, false, not, ◌&&◌, List, [], ◌∷◌, ◌++◌, Option, none, some, ℕ, zero, suc, ◌-◌,
  if◌then◌else◌, Result, ok, err,
}
use weather_app.Common.Text.{Text, text}
use weather_app.Client.Pending.{Registry, fail_all, World, Action, act, fails}
use weather_app.Client.Pending.Waiters.{new_world}

pub data ClientFailure : Type 0 where
  closed : ClientFailure
  rpc_send : Text → ClientFailure
  rpc_receive : Text → ClientFailure
  event_receive : Text → ClientFailure
  background_task : Text → ClientFailure

pub data SessionTaskKind : Type 0 where
  send_task receive_task event_task : SessionTaskKind

-- Its `Display`.
abbrev pub task_name : SessionTaskKind → Text
task_name send_task = text "RPC send task"
task_name receive_task = text "RPC receive task"
task_name event_task = text "event receive task"

-- How a task of the `JoinSet` ends: by its result, or by a `JoinError`.
pub data Joined : Type 0 where
  returned : SessionTaskKind → Result (Unit {0}) ClientFailure → Joined
  broken : Text → Joined

unfoldable pub joined_failure : Option Joined → ClientFailure
joined_failure (some (returned kind (err failure))) = failure
joined_failure (some (returned kind (ok u))) =
    background_task (task_name kind ++ text " exited unexpectedly")
joined_failure (some (broken error)) = background_task error
joined_failure none = background_task (text "all client tasks exited unexpectedly")

-- Where the supervisor stands: in its `select!`, joining the aborted tasks, or at its end.
pub data Phase : Type 0 where
  supervising : Phase
  draining : Phase
  ended : Phase

pub record Session (R : Type 0) : Type 0 where
  pub pending : World R ClientFailure
  pub shutdown : Bool
  pub done : Bool
  pub phase : Phase
  pub tasks : ℕ

-- The steps of a session: a request of the client, `request_close`, the two branches of the
-- `select!`, the end of an aborted task, the end of the supervisor, and its own abort.
pub data Step (R : Type 0) : Type 0 where
  uses : Action R ClientFailure → Step R
  closes : Step R
  sees_shutdown : Step R
  joins_task : Joined → Step R
  drains_task : Step R
  finishes : Step R
  aborts : Step R

module _ {R : Type 0} where
  abbrev pub new_session : Session R
  new_session = record {
    pending = new_world;
    shutdown = false;
    done = false;
    phase = supervising;
    tasks = 3;
  }

  -- `pending.fail_all`.
  abbrev pub fail : ClientFailure → World R ClientFailure → World R ClientFailure
  fail failure w = act (fails failure) w

  unfoldable pub request_close : Session R → Session R
  request_close s = record s { pending = fail closed s.pending; shutdown = true }

  -- After the `select!`.
  unfoldable pub stop : ClientFailure → ℕ → Session R → Session R
  stop failure tasks s = record s {
    pending = fail failure s.pending;
    phase = draining;
    tasks = tasks;
  }

  -- `SessionCompletion::drop`.
  unfoldable pub complete_session : Session R → Session R
  complete_session s = record s {
    pending = fail (background_task (text "session supervisor exited unexpectedly")) s.pending;
    done = true;
    phase = ended;
  }

  unfoldable pub see_shutdown : Phase → Session R → Session R
  see_shutdown supervising s = if s.shutdown then stop closed s.tasks s else s
  see_shutdown draining s = s
  see_shutdown ended s = s

  -- `join_next`, which gives `None` for an empty set.
  unfoldable pub join_task : Phase → Joined → Session R → Session R
  join_task supervising joined s = stop (joined_failure (some joined)) (s.tasks - 1) s
  join_task draining joined s = s
  join_task ended joined s = s

  unfoldable pub drain_task : Phase → Session R → Session R
  drain_task supervising s = s
  drain_task draining s = record s { tasks = s.tasks - 1 }
  drain_task ended s = s

  -- The loop over the aborted tasks ends with the last.
  unfoldable pub finish : Phase → ℕ → Session R → Session R
  finish supervising tasks s = s
  finish draining zero s = complete_session s
  finish draining (suc tasks) s = s
  finish ended tasks s = s

  -- The runtime drops the supervisor, wherever it stands.
  unfoldable pub abort : Phase → Session R → Session R
  abort supervising s = complete_session s
  abort draining s = complete_session s
  abort ended s = s

  unfoldable pub step : Step R → Session R → Session R
  step (uses action) s = record s { pending = act action s.pending }
  step closes s = request_close s
  step sees_shutdown s = see_shutdown s.phase s
  step (joins_task joined) s = join_task s.phase joined s
  step drains_task s = drain_task s.phase s
  step finishes s = finish s.phase s.tasks s
  step aborts s = abort s.phase s

  unfoldable pub steps : List (Step R) → Session R → Session R
  steps [] s = s
  steps (a ∷ rest) s = steps rest (step a s)
