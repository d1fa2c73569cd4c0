-- ===== src/Engine/Time.antt =====
-- weather-core/engine/src/time.rs: the time until the local date changes. A time of 64 bits with a
-- sign, in milliseconds, is the number of milliseconds since the least one; `local_date` is what
-- chrono and its time zones give for it, if anything.
pub mod Change
use weather_app.Common.{
  Bool, true, false, Option, none, some, ℕ, zero, suc, ◌+◌, ◌-◌, ◌*◌, ◌/◌, max, if◌then◌else◌, ltb,
  leb, ◌==◌, list_eq, nat_eq, Result, ok, err, u64_max,
}
use weather_app.Common.Text.{Text}

pub data TimeError : Type 0 where
  invalid_time : TimeError
  overflow : TimeError
  no_change : TimeError

abbrev pub search_window_ms : ℕ
search_window_ms = 48 * 60 * 60 * 1000

-- `checked_add` of the window.
unfoldable pub checked_add : ℕ → ℕ → Option ℕ
checked_add time delta = if leb (time + delta) u64_max then some (time + delta) else none

-- The least power of two above the window has 28 bits.
abbrev pub search_fuel : ℕ
search_fuel = 29

module _ (local_date : ℕ → Option Text) where
  abbrev pub halve : Option Text → Text → ℕ → ℕ → ℕ → Option (ℕ × ℕ)
  halve none current low middle high = none
  halve (some date) current low middle high =
      if date == current then some (middle, high) else some (low, middle)

  -- The loop; `none` says that the fuel was not enough.
  unfoldable pub search_change : ℕ → Text → ℕ → ℕ → Option (Result ℕ TimeError)
  search_change zero current low high = none
  search_change (suc fuel) current low high = elim (ltb 1 (high - low)) [
    | false ↦ some (ok high)
    | true ↦
        let middle = low + (high - low) / 2 in
        elim (halve (local_date middle) current low middle high) [
          | none ↦ some (err invalid_time)
          | some (low', high') ↦ search_change fuel current low' high'
        ]
  ]

  -- `wait_ms` at the end, from the boundary that was found.
  abbrev pub waiting : ℕ → Text → Option (Result ℕ TimeError) → Option (Result (Text × ℕ) TimeError)
  waiting unix_ms current none = none
  waiting unix_ms current (some (err e)) = some (err e)
  waiting unix_ms current (some (ok high)) = some (ok (current, max (high - unix_ms) 1))

  abbrev pub from_ends : ℕ → ℕ → Option Text → Option Text → Option (Result (Text × ℕ) TimeError)
  from_ends unix_ms high none last = some (err invalid_time)
  from_ends unix_ms high (some current) none = some (err invalid_time)
  from_ends unix_ms high (some current) (some last) =
      if last == current
      then some (err no_change)
      else waiting unix_ms current (search_change search_fuel current unix_ms high)

  -- The time zone's own failure is that of `local_date`.
  unfoldable pub local_date_and_next_change : ℕ → Option (Result (Text × ℕ) TimeError)
  local_date_and_next_change unix_ms = elim (local_date unix_ms) [
    | none ↦ some (err invalid_time)
    | some current ↦ elim (checked_add unix_ms search_window_ms) [
      | none ↦ some (err overflow)
      | some high ↦ from_ends unix_ms high (some current) (local_date high)
    ]
  ]
