-- ===== src/Tests/Refresh.antt =====
-- weather-core/engine/src/refresh.rs at concrete inputs.
use weather_app.Tests.Settings.{base_config}
use weather_app.Config.{AppConfig}
use weather_app.Common.{
  true, false, List, [], ◌∷◌, none, some, ℕ, ◌-◌, ◌≤◌, ◌≡◌, ◌⊎◌, refl, arith, contains, distinct,
  list_eq, nat_eq,
}
use weather_app.Common.Map.{get, insert}
use weather_app.Common.Text.{Text, text, split, join, trim, trim_start, trim_end, is_whitespace}
use weather_app.Schema.Station.{parent_station_name, normalize_station_name, station_parts}
use weather_app.Engine.Refresh.{
  StationSchedule, Schedules, claim_due_stations, next_scheduler_wait, enabled_stations,
  collect_stations, collect, collect_parent, fallback_wake, claim_from, claim_one, claimable,
  claim_schedule,
}
use weather_app.Engine.Refresh.Claim.{claim_due_stations_complete}
use weather_app.Engine.Refresh.Dates.{next_scheduler_wait_bounds, AwaitsAt}
use weather_app.Engine.Refresh.Stations.{enabled_stations_lem, is_tracked}
use weather_app.Engine.Refresh.Loop.{
  Reading, Wake, again, start, run_turns, slept, joined, config_changed,
}
use weather_app.Engine.Refresh.Invariant.{Holds, run_turns-Inv}

abbrev beijing : Text
beijing = text "北京-北京市"

abbrev chaoyang : Text
chaoyang = text "北京-北京市-朝阳"

abbrev tracked : AppConfig
tracked = record base_config {
  stations =
      record { name = chaoyang; enabled = true }
      ∷ record { name = beijing; enabled = true }
      ∷ record { name = text "C"; enabled = false }
      ∷ [];
}

-- A district schedules its parent first, and each station once.
enabled_stations_test : enabled_stations tracked ≡ beijing ∷ chaoyang ∷ []
unfolding enabled_stations collect_stations collect collect_parent parent_station_name
    normalize_station_name station_parts split join trim trim_start trim_end is_whitespace
enabled_stations_test = refl

abbrev order : List Text
order = beijing ∷ chaoyang ∷ []

-- Due since instant 5, and in flight.
abbrev due_schedule : StationSchedule
due_schedule = record {
  last_completed = none;
  next_due = some 5;
  in_flight = false;
  date_refresh_pending = true;
}

abbrev busy_schedule : StationSchedule
busy_schedule = record {
  last_completed = some 1;
  next_due = some 5;
  in_flight = true;
  date_refresh_pending = false;
}

abbrev table : Schedules
table = (beijing, busy_schedule) ∷ (chaoyang, due_schedule) ∷ []

claim_test : (claim_due_stations order table 7 60 4).1 ≡ chaoyang ∷ []
unfolding claim_due_stations claim_from claim_one claimable claim_schedule get insert
claim_test = refl

claim_due_stations_complete_example :
    contains (claim_due_stations order table 7 60 4).1 chaoyang ≡ true
unfolding claim_due_stations claim_from claim_one claimable claim_schedule get insert
claim_due_stations_complete_example =
    claim_due_stations_complete order table 7 60 4 chaoyang due_schedule refl refl
      (refl, 5, refl, omega arith) (omega arith)

next_scheduler_wait_bounds_example :
    ((i due : ℕ) (s : StationSchedule)
      → AwaitsAt table i s due
      → next_scheduler_wait table 3 1 ≤ due - 3)
    × ((next_scheduler_wait table 3 1 ≡ fallback_wake)
        ⊎ ((i due : ℕ) × (s : StationSchedule) × AwaitsAt table i s due
            × (next_scheduler_wait table 3 1 ≡ due - 3)))
next_scheduler_wait_bounds_example = next_scheduler_wait_bounds table 3 1 (omega arith)

enabled_stations_lem_example :
    (distinct (enabled_stations tracked) ≡ true)
    × (contains (enabled_stations tracked) beijing ≡ is_tracked beijing tracked.stations)
enabled_stations_lem_example = enabled_stations_lem tracked beijing

abbrev history : List (Reading × Wake)
history =
    (record { now = 0; date = none }, slept)
    ∷ (record { now = 5000000000; date = some (text "2026-07-17", 7) }, joined 0 6000000000)
    ∷ (record { now = 7000000000; date = some (text "2026-07-18", 7) }, config_changed tracked 8)
    ∷ []

run_turns-Inv_example : Holds (run_turns history (again (start tracked 0 none)))
run_turns-Inv_example = run_turns-Inv tracked 0 none history
