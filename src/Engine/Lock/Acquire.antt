-- ===== src/Engine/Lock/Acquire.antt =====
-- weather-core/engine/src/lock.rs: what an acquired lock stands for.
use weather_app.Common.{Bool, true, ℕ, ◌≤◌, ◌<◌, ◌≡◌, ok}
use weather_app.Common.Text.{Text}
use weather_app.Engine.Lock.{locked, Attempt, LockError, contended, attempt_outcome}

-- The lock is held on a file that the path names, with the metadata in it where there is some.
pub record IsHeld (has_metadata : Bool) (a : Attempt) : Type 0 where
  pub opens : a.opened ≡ ok tt
  pub locks : a.try_lock ≡ locked
  pub same_file : a.matches_path ≡ ok true
  pub wrote : has_metadata ≡ true → a.written ≡ ok tt
  pub same_file_after : has_metadata ≡ true → a.still_matches ≡ ok true

-- Someone else has the lock, or the path names another file.
abbrev pub IsContended : Bool → Attempt → Type 0
IsContended has_metadata a = (e : LockError) × (attempt_outcome has_metadata a ≡ contended e)

-- What an acquisition that succeeds in attempt `k` says of the attempts from a first one on.
record Acquired (has_metadata : Bool) (attempts : ℕ → Attempt) (first last k : ℕ) : Type 0 where
  from_first : first ≤ k
  to_last : k ≤ last
  held : IsHeld has_metadata (attempts k)
  earlier : (j : ℕ) → first ≤ j → j < k → IsContended has_metadata (attempts j)
