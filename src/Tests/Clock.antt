-- ===== src/Tests/Clock.antt =====
-- weather-core/engine/src/time.rs at concrete inputs.
use weather_app.Common.{
  false, [], ◌∷◌, some, ℕ, ◌+◌, ◌-◌, ◌/◌, ◌≡◌, ◌≤◌, refl, arith, ok, ◌==◌, list_eq, nat_eq,
}
use weather_app.Common.Text.{Text}
use weather_app.Engine.Time.{local_date_and_next_change, search_window_ms}
use weather_app.Engine.Time.Change.{total, local_date_and_next_change_lem}

-- The number of a day of 24 hours.
abbrev day : ℕ → Text
day time = time / 86400000 ∷ []

local_date_and_next_change_lem_example :
    (wait : ℕ) × (local_date_and_next_change (total day) 1000 ≡ some (ok (day 1000, wait)))
    × (1 ≤ wait)
    × (wait ≤ search_window_ms)
    × (day (1000 + wait - 1) ≡ day 1000)
    × ((day (1000 + wait) == day 1000) ≡ false)
local_date_and_next_change_lem_example = local_date_and_next_change_lem day 1000 (omega arith) refl
