-- ===== src/Engine/Lock.antt =====
-- weather-core/engine/src/lock.rs: the acquisition of the engine's lock file. What the file system
-- answers in each attempt is an argument.
pub mod Acquire
use weather_app.Common.{
  Bool, true, false, Option, none, some, ℕ, zero, suc, ◌+◌, if◌then◌else◌, Result, ok, err,
}
use weather_app.Common.Text.{Text}

abbrev pub engine_lock_retries : ℕ
engine_lock_retries = 8

pub data TryLock : Type 0 where
  locked : TryLock
  would_block : TryLock
  lock_failed : Text → TryLock

-- The answers of one attempt, in the order in which they are asked for.
pub record Attempt : Type 0 where
  pub opened : Result (Unit {0}) Text
  pub try_lock : TryLock
  pub matches_path : Result Bool Text
  pub written : Result (Unit {0}) Text
  pub still_matches : Result Bool Text

pub data LockError : Type 0 where
  no_directory : Text → LockError
  io_error : Text → LockError
  held_elsewhere : LockError
  path_changed : LockError

-- How the body of the loop ends: with the lock, with an error, or with a `continue` that the last
-- attempt turns into an error.
pub data Outcome : Type 0 where
  acquired : Outcome
  failed : LockError → Outcome
  contended : LockError → Outcome

abbrev pub check_path : Result Bool Text → Outcome → Outcome
check_path (err e) next = failed (io_error e)
check_path (ok false) next = contended path_changed
check_path (ok true) next = next

abbrev pub write_first : Result (Unit {0}) Text → Outcome → Outcome
write_first (err e) next = failed (io_error e)
write_first (ok u) next = next

abbrev pub lock_then : TryLock → Outcome → Outcome
lock_then locked next = next
lock_then would_block next = contended held_elsewhere
lock_then (lock_failed e) next = failed (io_error e)

-- One attempt; the metadata is written and the path checked again only where there is some.
unfoldable pub attempt_outcome : Bool → Attempt → Outcome
attempt_outcome has_metadata a = write_first a.opened (
    lock_then a.try_lock (
      check_path a.matches_path (
        if has_metadata
        then write_first a.written (check_path a.still_matches acquired)
        else acquired)))

abbrev pub conclude : Outcome → ℕ → (LockError → Result ℕ LockError) → Result ℕ LockError
conclude acquired attempt again = ok attempt
conclude (failed e) attempt again = err e
conclude (contended e) attempt again = again e

-- From an attempt on, with a number of retries left; the answer is the attempt that succeeded.
unfoldable pub acquire_from : Bool → (ℕ → Attempt) → ℕ → ℕ → Result ℕ LockError
acquire_from has_metadata attempts zero attempt =
    conclude (attempt_outcome has_metadata (attempts attempt)) attempt (λ e. err e)
acquire_from has_metadata attempts (suc left) attempt =
    let rest = acquire_from has_metadata attempts left (attempt + 1) in
    conclude (attempt_outcome has_metadata (attempts attempt)) attempt (λ e. rest)

unfoldable pub acquire : Result (Unit {0}) Text → Bool → (ℕ → Attempt) → ℕ → Result ℕ LockError
acquire (err e) has_metadata attempts retries = err (no_directory e)
acquire (ok u) has_metadata attempts retries = acquire_from has_metadata attempts retries 0
