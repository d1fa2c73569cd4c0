-- ===== src/Engine/Refresh/Dates.antt =====
-- weather-core/engine/src/refresh.rs: a change of the local date, and how long the scheduler may
-- sleep.
use weather_app.Common.{
  false, List, [], ◌∷◌, Option, none, some, ℕ, zero, suc, ◌≤◌, ◌<◌, ◌-◌, ◌≡◌, refl, ◌⊎◌, inl, inr,
  arith, get_elem?, if◌then◌else◌, leb, ◌==◌, list_eq, nat_eq, list_beq_iff, Bool-cases,
  Option-cases, min,
}
use weather_app.Common.Map.{get, get-insert, values}
use weather_app.Common.Text.{Text}
use weather_app.Engine.Refresh.{
  StationSchedule, Schedules, date_scheduled, date_refresh_one, schedule_wait, min_wait,
  next_scheduler_wait, max_concurrent_refreshes, fallback_wake,
}

abbrev pub map_schedule :
    (StationSchedule → StationSchedule) → Option StationSchedule → Option StationSchedule
map_schedule f none = none
map_schedule f (some s) = some (f s)

module _ (now : ℕ) (n : Text) where
  pub get-date_refresh_one :
      (i : ℕ) (name : Text) (schedules : Schedules)
      → get n (date_refresh_one now i name schedules) ≡ (
          if name == n
          then map_schedule (date_scheduled now i) (get n schedules)
          else get n schedules)
  unfolding date_refresh_one
  get-date_refresh_one i name schedules = elim (Option-cases (get name schedules)) [
    | inl e ↦ rw (e, date_refresh_one) (ground (arith, list_beq_iff name n))
    | inr (s, e) ↦ rw (e, date_refresh_one) (rw get-insert (ground (arith, list_beq_iff name n)))
  ]

schedule_wait-min_wait :
    (now i : ℕ) (l : List StationSchedule) (s : StationSchedule) (wait : ℕ)
    → get_elem? l i ≡ some s
    → schedule_wait now s ≡ some wait
    → (w : ℕ) × (min_wait now l ≡ some w) × (w ≤ wait)
unfolding min_wait
schedule_wait-min_wait now i [] s wait e w = cc
schedule_wait-min_wait now zero (x ∷ l) s wait e w = elim (Option-cases (min_wait now l)) [
  | inl m ↦ (wait, ground arith, omega arith)
  | inr (v, m) ↦ (min wait v, ground arith, omega arith)
]
schedule_wait-min_wait now (suc i) (x ∷ l) s wait e w =
    let (v, m, h) = schedule_wait-min_wait now i l s wait e w in
    elim (Option-cases (schedule_wait now x)) [
      | inl x_none ↦ (v, ground arith, h)
      | inr (u, x_some) ↦ (min u v, ground arith, omega arith)
    ]

min_wait-attained :
    (now : ℕ) (l : List StationSchedule) (w : ℕ)
    → min_wait now l ≡ some w
    → (i : ℕ) × (s : StationSchedule) × (get_elem? l i ≡ some s) × (schedule_wait now s ≡ some w)
unfolding min_wait
min_wait-attained now [] w e = cc
min_wait-attained now (x ∷ l) w e = elim (Option-cases (schedule_wait now x)) [
  | inl none_here ↦ later (min_wait-attained now l w (ground arith))
  | inr (u, here) ↦ elim (Option-cases (min_wait now l)) [
    | inl none_later ↦ (0, x, refl, ground arith)
    | inr (v, rest) ↦ elim (Bool-cases (leb u v)) [
      | inl le ↦ (0, x, refl, ground arith)
      | inr gt ↦ later (min_wait-attained now l w (ground arith))
    ]
  ]
]
  where
    later :
        ((i : ℕ) × (s : StationSchedule) × (get_elem? l i ≡ some s)
          × (schedule_wait now s ≡ some w))
        → (i : ℕ) × (s : StationSchedule) × (get_elem? (x ∷ l) i ≡ some s)
          × (schedule_wait now s ≡ some w)
    later (i, s, at, is) = (suc i, s, at, is)

schedule_wait_inv :
    (now w : ℕ) (s : StationSchedule)
    → schedule_wait now s ≡ some w
    → (due : ℕ) × (s.in_flight ≡ false) × (s.next_due ≡ some due) × (w ≡ due - now)
unfolding schedule_wait
schedule_wait_inv now w s e = elim (Option-cases s.next_due) [
  | inl unset ↦ ground arith
  | inr (due, is) ↦ (due, ground arith, is, ground arith)
]

-- The schedule at index `i` of the map's values is not in flight and has the deadline `due`.
abbrev pub AwaitsAt : Schedules → ℕ → StationSchedule → ℕ → Type 0
AwaitsAt schedules i s due =
    (get_elem? (values schedules) i ≡ some s) × (s.in_flight ≡ false) × (s.next_due ≡ some due)

module _ (schedules : Schedules) (now active : ℕ) (free : active < max_concurrent_refreshes) where
  next_scheduler_wait-le :
      (i due : ℕ) (s : StationSchedule)
      → AwaitsAt schedules i s due
      → next_scheduler_wait schedules now active ≤ due - now
  unfolding next_scheduler_wait schedule_wait
  next_scheduler_wait-le i due s (at, idle, d) =
      let (w, e, h) =
        schedule_wait-min_wait now i (values schedules) s (due - now) at (ground arith) in
      ground arith

  next_scheduler_wait-attained :
      (next_scheduler_wait schedules now active ≡ fallback_wake)
      ⊎ ((i due : ℕ) × (s : StationSchedule) × AwaitsAt schedules i s due
          × (next_scheduler_wait schedules now active ≡ due - now))
  unfolding next_scheduler_wait
  next_scheduler_wait-attained = elim (Option-cases (min_wait now (values schedules))) [
    | inl e ↦ inl (ground arith)
    | inr (w, e) ↦
        let (i, s, at, is) = min_wait-attained now (values schedules) w e in
        let (due, idle, d, eq) = schedule_wait_inv now w s is in
        inr (i, due, s, (at, idle, d), ground arith)
  ]

-- With a free slot the scheduler sleeps no longer than any schedule that is not in flight has left
-- to its deadline, and it sleeps for the fallback time or for just what one such schedule has left.
pub next_scheduler_wait_bounds :
    (schedules : Schedules) (now active : ℕ)
    → active < max_concurrent_refreshes
    → ((i due : ℕ) (s : StationSchedule)
        → AwaitsAt schedules i s due
        → next_scheduler_wait schedules now active ≤ due - now)
      × ((next_scheduler_wait schedules now active ≡ fallback_wake)
          ⊎ ((i due : ℕ) × (s : StationSchedule) × AwaitsAt schedules i s due
              × (next_scheduler_wait schedules now active ≡ due - now)))
next_scheduler_wait_bounds schedules now active free = (
  next_scheduler_wait-le schedules now active free,
  next_scheduler_wait-attained schedules now active free,
)
