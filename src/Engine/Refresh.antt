-- ===== src/Engine/Refresh.antt =====
-- weather-core/engine/src/refresh.rs: the scheduler of background refreshes. An `Instant` is a
-- number of nanoseconds on the monotonic clock and a `Duration` a number of nanoseconds.
pub mod Tracking
pub mod Claim
pub mod Reconcile
pub mod Dates
pub mod Stations
pub mod Loop
pub mod Jobs
pub mod Invariant
use weather_app.Config.{StationConfig, AppConfig, UpdaterConfig}
use weather_app.Common.{
  Bool, true, false, not, ◌&&◌, ◌||◌, List, [], ◌∷◌, ◌++◌, Option, none, some, ℕ, suc, ◌+◌, ◌-◌,
  ◌*◌, ◌^◌, min, max, length, contains, if◌then◌else◌, leb, ltb, eqb, ◌==◌, list_eq, nat_eq,
  u32_max,
}
use weather_app.Common.Map.{Map, get, insert, remove, retain_keys, values}
use weather_app.Common.Text.{Text}
use weather_app.Schema.Station.{parent_station_name}

abbrev pub second : ℕ
second = 1000000000

abbrev pub stagger_step : ℕ
stagger_step = 5 * second

abbrev pub fallback_wake : ℕ
fallback_wake = 60 * second

abbrev pub max_concurrent_refreshes : ℕ
max_concurrent_refreshes = 4

-- The last representable instant: signed 64-bit seconds and nanoseconds below one second.
abbrev pub instant_max : ℕ
instant_max = 2 ^ 63 * second - 1

-- `Duration::MAX`: unsigned 64-bit seconds and nanoseconds below one second.
abbrev pub duration_max : ℕ
duration_max = 2 ^ 64 * second - 1

pub record StationSchedule : Type 0 where
  pub last_completed : Option ℕ
  pub next_due : Option ℕ
  pub in_flight : Bool
  pub date_refresh_pending : Bool

abbrev pub Schedules : Type 0
Schedules = Map Text StationSchedule

-- `Instant::checked_add`.
unfoldable pub deadline : ℕ → ℕ → Option ℕ
deadline start delay = if leb (start + delay) instant_max then some (start + delay) else none

-- `u32::try_from(index).unwrap_or(u32::MAX)`, then `saturating_mul`.
unfoldable pub stagger : ℕ → ℕ
stagger index = min (stagger_step * min index u32_max) duration_max

unfoldable pub weather_ttl : AppConfig → ℕ
weather_ttl config = max config.updater.weather_ttl_seconds 1 * second

-- The set `seen` and the vector `stations` of `enabled_stations`.
pub record Collected : Type 0 where
  pub seen : List Text
  pub stations : List Text

unfoldable pub collect : Text → Collected → Collected
collect name c =
    if contains c.seen name
    then c
    else record c { seen = name ∷ c.seen; stations = c.stations ++ name ∷ [] }

unfoldable pub collect_parent : Option Text → Collected → Collected
collect_parent none c = c
collect_parent (some parent) c = collect parent c

unfoldable pub collect_stations : List StationConfig → Collected → Collected
collect_stations [] c = c
collect_stations (s ∷ rest) c =
    collect_stations rest
      (if s.enabled then collect s.name (collect_parent (parent_station_name s.name) c) else c)

unfoldable pub enabled_stations : AppConfig → List Text
enabled_stations config =
    (collect_stations config.stations (record { seen = []; stations = [] })).stations

-- The deadline of a schedule that `reconcile_schedules` keeps.
unfoldable pub rescheduled : ℕ → StationSchedule → StationSchedule
rescheduled ttl s = elim s.last_completed [
  | none ↦ s
  | some last ↦ if s.date_refresh_pending then s else record s { next_due = deadline last ttl }
]

unfoldable pub new_schedule : ℕ → ℕ → StationSchedule
new_schedule now index = record {
  last_completed = none;
  next_due = deadline now (stagger index);
  in_flight = false;
  date_refresh_pending = false;
}

-- The schedule that `reconcile_schedules` leaves for a listed station.
unfoldable pub reconciled : ℕ → ℕ → ℕ → Option StationSchedule → StationSchedule
reconciled now ttl index (some s) = rescheduled ttl s
reconciled now ttl index none = new_schedule now index

unfoldable pub reconcile_one : ℕ → ℕ → ℕ → Text → Schedules → Schedules
reconcile_one now ttl index name schedules =
    insert name (reconciled now ttl index (get name schedules)) schedules

unfoldable pub reconcile_from : ℕ → ℕ → ℕ → List Text → Schedules → Schedules
reconcile_from now ttl index [] schedules = schedules
reconcile_from now ttl index (name ∷ rest) schedules =
    reconcile_from now ttl (suc index) rest (reconcile_one now ttl index name schedules)

unfoldable pub reconcile_schedules : Schedules → List Text → ℕ → ℕ → Schedules
reconcile_schedules schedules order now ttl =
    reconcile_from now ttl 0 order (retain_keys (λ name. contains order name) schedules)

unfoldable pub date_scheduled : ℕ → ℕ → StationSchedule → StationSchedule
date_scheduled now index s =
    let pending = record s { date_refresh_pending = true } in
    if s.in_flight then pending else record pending { next_due = deadline now (stagger index) }

unfoldable pub date_refresh_one : ℕ → ℕ → Text → Schedules → Schedules
date_refresh_one now index name schedules = elim (get name schedules) [
  | some s ↦ insert name (date_scheduled now index s) schedules
  | none ↦ schedules
]

unfoldable pub date_refresh_from : ℕ → ℕ → List Text → Schedules → Schedules
date_refresh_from now index [] schedules = schedules
date_refresh_from now index (name ∷ rest) schedules =
    date_refresh_from now (suc index) rest (date_refresh_one now index name schedules)

unfoldable pub schedule_date_refresh : Schedules → List Text → ℕ → Schedules
schedule_date_refresh schedules order now = date_refresh_from now 0 order schedules

-- `next_due.is_none_or(|next_due| next_due > now)`.
abbrev pub not_due : Option ℕ → ℕ → Bool
not_due none now = true
not_due (some due) now = ltb now due

-- The test of `claim_due_stations`: neither in flight nor before its deadline.
unfoldable pub claimable : ℕ → StationSchedule → Bool
claimable now s = not (s.in_flight || not_due s.next_due now)

unfoldable pub claim_schedule : ℕ → ℕ → StationSchedule → StationSchedule
claim_schedule now ttl s = record s {
  in_flight = true;
  date_refresh_pending = false;
  next_due = deadline now ttl;
}

-- One round of the loop for a station with a schedule.
unfoldable pub claim_one : ℕ → ℕ → Text → Schedules × List Text → Schedules × List Text
claim_one now ttl name (schedules, claimed) = elim (get name schedules) [
  | none ↦ (schedules, claimed)
  | some s ↦
      if claimable now s
      then (insert name (claim_schedule now ttl s) schedules, claimed ++ name ∷ [])
      else (schedules, claimed)
]

unfoldable pub claim_from : ℕ → ℕ → ℕ → List Text → Schedules × List Text → Schedules × List Text
claim_from now ttl available [] state = state
claim_from now ttl available (name ∷ rest) state =
    let further = claim_from now ttl available rest (claim_one now ttl name state) in
    if leb available (length state.1) then state else further

unfoldable pub claim_due_stations : List Text → Schedules → ℕ → ℕ → ℕ → Schedules × List Text
claim_due_stations order schedules now ttl available =
    claim_from now ttl available order (schedules, [])

unfoldable pub finished : ℕ → ℕ → StationSchedule → StationSchedule
finished completed_at ttl s = record s {
  in_flight = false;
  last_completed = some completed_at;
  next_due = if s.date_refresh_pending then some completed_at else deadline completed_at ttl;
}

unfoldable pub finish_job : Schedules → Text → ℕ → ℕ → Schedules
finish_job schedules name completed_at ttl = elim (get name schedules) [
  | none ↦ schedules
  | some s ↦ insert name (finished completed_at ttl s) schedules
]

-- The wait that one schedule asks for, if it waits.
unfoldable pub schedule_wait : ℕ → StationSchedule → Option ℕ
schedule_wait now s =
    if s.in_flight then none else elim s.next_due [ none ↦ none | some due ↦ some (due - now) ]

abbrev pub min_option : Option ℕ → Option ℕ → Option ℕ
min_option none b = b
min_option (some a) none = some a
min_option (some a) (some b) = some (min a b)

unfoldable pub min_wait : ℕ → List StationSchedule → Option ℕ
min_wait now [] = none
min_wait now (s ∷ rest) = min_option (schedule_wait now s) (min_wait now rest)

unfoldable pub next_scheduler_wait : Schedules → ℕ → ℕ → ℕ
next_scheduler_wait schedules now active_jobs =
    if leb max_concurrent_refreshes active_jobs
    then fallback_wake
    else elim (min_wait now (values schedules)) [ none ↦ fallback_wake | some wait ↦ wait ]
