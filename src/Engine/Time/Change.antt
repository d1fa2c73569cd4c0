-- ===== src/Engine/Time/Change.antt =====
-- weather-core/engine/src/time.rs: the search finds a change of the date.
use weather_app.Common.{
  true, false, Option, some, ℕ, zero, suc, ◌+◌, ◌-◌, ◌/◌, ◌^◌, ◌≤◌, ◌<◌, ◌≡◌, refl, ap, ◌∙◌, subst,
  arith, Bool-cases, inl, inr, ltb, leb, ltb→lt, ◌==◌, ==_iff, list_eq, nat_eq, Result, ok, u64_max,
  if_true, if_false,
}
use weather_app.Common.Text.{Text}
use weather_app.Engine.Time.{
  TimeError, checked_add, search_window_ms, search_fuel, search_change, waiting,
  local_date_and_next_change,
}

leb_of_le : {a b : ℕ} → a ≤ b → leb a b ≡ true
leb_of_le h = ground (arith, h)

before : (low high : ℕ) → low < high → high - low ≤ 1 → high - 1 ≡ low
before low high lt near = omega arith

module _ (date : ℕ → Text) where
  abbrev pub total : ℕ → Option Text
  total t = some (date t)

  -- A place where the date changes, above a time that has the current date.
  abbrev Boundary : Text → ℕ → ℕ → Type 0
  Boundary current low high =
      (low < high) × (date (high - 1) ≡ current) × ((date high == current) ≡ false)

  search_end :
      (fuel : ℕ) (current : Text) (low high : ℕ)
      → ltb 1 (high - low) ≡ false
      → search_change total (suc fuel) current low high ≡ some (ok high)
  unfolding search_change
  search_end fuel current low high h = rw (h, search_change) refl

  search_up :
      (fuel : ℕ) (current : Text) (low high : ℕ)
      → ltb 1 (high - low) ≡ true
      → (date (low + (high - low) / 2) == current) ≡ true
      → search_change total (suc fuel) current low high
        ≡ search_change total fuel current (low + (high - low) / 2) high
  unfolding search_change
  search_up fuel current low high h m = rw (h, search_change) (rw m refl)

  search_down :
      (fuel : ℕ) (current : Text) (low high : ℕ)
      → ltb 1 (high - low) ≡ true
      → (date (low + (high - low) / 2) == current) ≡ false
      → search_change total (suc fuel) current low high
        ≡ search_change total fuel current low (low + (high - low) / 2)
  unfolding search_change
  search_down fuel current low high h m = rw (h, search_change) (rw m refl)

  abbrev Found : Text → ℕ → ℕ → Option (Result ℕ TimeError) → Type 0
  Found current low high answer =
      (b : ℕ) × (answer ≡ some (ok b)) × Boundary current low b × (b ≤ high)

  search_change-Found :
      (fuel : ℕ) (current : Text) (low high : ℕ)
      → low < high
      → high - low ≤ 2 ^ fuel
      → date low ≡ current
      → (date high == current) ≡ false
      → Found current low high (search_change total (suc fuel) current low high)
  search_change-Found zero current low high lt near here there = (
    high,
    search_end zero current low high (ground (arith, near)),
    (lt, ap date (before low high lt (omega arith)) ∙ here, there),
    omega arith,
  )
  search_change-Found (suc fuel) current low high lt near here there =
      let middle = low + (high - low) / 2 in
      elim (Bool-cases (ltb 1 (high - low))) [
        | inr close ↦ (
          high,
          search_end (suc fuel) current low high close,
          (lt, ap date (before low high lt (ground arith)) ∙ here, there),
          omega arith,
        )
        | inl wide ↦
            let apart : 1 < high - low = ltb→lt 1 (high - low) wide in
            elim (Bool-cases (date middle == current)) [
              | inl same ↦
                  let (b, e, (l, d, n), h) =
                    search_change-Found fuel current middle high (omega arith) (omega arith)
                      ((==_iff (date middle) current).0 same) there in
                  (b, search_up (suc fuel) current low high wide same ∙ e, (omega arith, d, n), h)
              | inr other ↦
                  let (b, e, (l, d, n), h) =
                    search_change-Found fuel current low middle (omega arith) (omega arith) here
                      other in
                  (
                    b,
                    search_down (suc fuel) current low high wide other ∙ e,
                    (l, d, n),
                    omega arith,
                  )
            ]
      ]

  waited :
      (unix_ms : ℕ) (current : Text) (answer : Option (Result ℕ TimeError))
      → current ≡ date unix_ms
      → Found current unix_ms (unix_ms + search_window_ms) answer
      → (wait : ℕ) × (waiting total unix_ms current answer ≡ some (ok (current, wait)))
        × (1 ≤ wait)
        × (wait ≤ search_window_ms)
        × (date (unix_ms + wait - 1) ≡ current)
        × ((date (unix_ms + wait) == current) ≡ false)
  waited unix_ms current answer here (b, e, (l, d, n), h) =
      let back : b ≡ unix_ms + (b - unix_ms) = omega arith in
      (
        b - unix_ms,
        ap (waiting total unix_ms current) e ∙ ap (λ w. some (ok (current, w))) (omega arith),
        omega arith,
        omega arith,
        subst (λ x. date (x - 1) ≡ current) back d,
        subst (λ x. (date x == current) ≡ false) back n,
      )

  added :
      (unix_ms : ℕ)
      → unix_ms + search_window_ms ≤ u64_max
      → checked_add unix_ms search_window_ms ≡ some (unix_ms + search_window_ms)
  unfolding checked_add
  added unix_ms fits = if_true _ _ (leb_of_le fits)

  next_change-search :
      (unix_ms : ℕ)
      → unix_ms + search_window_ms ≤ u64_max
      → (date (unix_ms + search_window_ms) == date unix_ms) ≡ false
      → local_date_and_next_change total unix_ms
        ≡ waiting total unix_ms
            (date unix_ms)
            (search_change total search_fuel (date unix_ms) unix_ms (unix_ms + search_window_ms))
  unfolding local_date_and_next_change
  next_change-search unix_ms fits there =
      rw (added unix_ms fits, local_date_and_next_change) (if_false _ _ there)

  -- For a time zone that gives a date at every time, and a date that is another 48 hours later: the
  -- search gives the current date and a wait of one millisecond to 48 hours at whose end the date is
  -- another, while one millisecond before it is the current one.
  pub local_date_and_next_change_lem :
      (unix_ms : ℕ)
      → unix_ms + search_window_ms ≤ u64_max
      → (date (unix_ms + search_window_ms) == date unix_ms) ≡ false
      → (wait : ℕ) × (local_date_and_next_change total unix_ms ≡ some (ok (date unix_ms, wait)))
        × (1 ≤ wait)
        × (wait ≤ search_window_ms)
        × (date (unix_ms + wait - 1) ≡ date unix_ms)
        × ((date (unix_ms + wait) == date unix_ms) ≡ false)
  local_date_and_next_change_lem unix_ms fits there =
      let high = unix_ms + search_window_ms in
      let found =
        search_change-Found 28 (date unix_ms) unix_ms high (omega arith) (omega arith) refl there in
      let (wait, e, long, short, last, other) = waited unix_ms (date unix_ms) _ refl found in
      (wait, next_change-search unix_ms fits there ∙ e, long, short, last, other)
