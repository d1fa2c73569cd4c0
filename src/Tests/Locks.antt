-- ===== src/Tests/Locks.antt =====
-- weather-core/engine/src/lock.rs at concrete inputs.
use weather_app.Common.{true, ℕ, zero, suc, ok}
use weather_app.Common.Text.{Text}
use weather_app.Engine.Lock.{Attempt, locked, would_block}

-- Another process holds the lock in the first attempt.
abbrev attempts : ℕ → Attempt
attempts zero = record {
  opened = ok tt;
  try_lock = would_block;
  matches_path = ok true;
  written = ok tt;
  still_matches = ok true;
}
attempts (suc n) = record {
  opened = ok tt;
  try_lock = locked;
  matches_path = ok true;
  written = ok tt;
  still_matches = ok true;
}
