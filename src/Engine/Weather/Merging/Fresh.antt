-- ===== src/Engine/Weather/Merging/Fresh.antt =====
-- weather-core/engine/src/handlers/weather.rs: which stored snapshots are fresh.
use weather_app.Common.{
  Bool, true, false, ℕ, ◌-◌, ◌*◌, ◌<◌, ◌≡◌, ◌↔◌, inl, inr, refl, sym, ap, ◌∙◌, arith, min, leb,
  Bool-cases, ==_iff, list_eq, nat_eq, Result, ok, err, ok-injective, if_true, if_false, err≢ok,
  leb→le, u64_max,
}
use weather_app.Common.Text.{Text}
use weather_app.Engine.Task.{AnyError}
use weather_app.Engine.Weather.Merging.{i64_max, same_date, cached_snapshot_is_fresh}

same_date_iff :
    (a b : Result Text AnyError)
    → (same_date a b ≡ ok true) ↔ ((date : Text) × (a ≡ ok date) × (b ≡ ok date))
same_date_iff (err e) b = (λ h. absurd (err≢ok h), λ (date, h, k). absurd (err≢ok h))
same_date_iff (ok x) (err e) = (λ h. absurd (err≢ok h), λ (date, h, k). absurd (err≢ok k))
same_date_iff (ok x) (ok y) = (
  λ h. (x, refl, ap (λ z. ok z) (sym ((==_iff x y).0 (ok-injective h)))),
  λ (date, h, k). ap (λ z. ok z) ((==_iff x y).1 (ok-injective h ∙ sym (ok-injective k))),
)

false-ne-true : Path Bool false true → ⊥
false-ne-true h = cc

young-old :
    (ttl age : ℕ)
    → age < min (ttl * 1000) i64_max
    → leb (min (min (ttl * 1000) u64_max) i64_max) (min age i64_max) ≡ true
    → ⊥
young-old ttl age h k = omega (arith, h, leb→le _ _ k)

old-young :
    (ttl age : ℕ)
    → leb (min (min (ttl * 1000) u64_max) i64_max) (min age i64_max) ≡ false
    → age < min (ttl * 1000) i64_max
old-young ttl age k = ground (arith, k)

-- A stored snapshot is fresh exactly if its age is below the time to live, or the largest number of
-- milliseconds if that is less, and it was fetched on the local date of the present; a snapshot from
-- the future has no age.
pub cached_snapshot_is_fresh_iff :
    (date_for_tz : ℕ → Text → Result Text AnyError) (fetched now ttl : ℕ) (timezone : Text)
    → (cached_snapshot_is_fresh date_for_tz fetched now ttl timezone ≡ ok true)
      ↔ (now - fetched < min (ttl * 1000) i64_max)
        × ((date : Text) × (date_for_tz fetched timezone ≡ ok date)
            × (date_for_tz now timezone ≡ ok date))
unfolding cached_snapshot_is_fresh
cached_snapshot_is_fresh_iff date_for_tz fetched now ttl timezone =
    let ttl_ms = min (min (ttl * 1000) u64_max) i64_max in
    let age_ms = min (now - fetched) i64_max in
    elim (Bool-cases (leb ttl_ms age_ms)) [
      | inl old ↦ (
        λ h. absurd (false-ne-true (ok-injective (sym (if_true _ _ old) ∙ h))),
        λ (young, dates). absurd (young-old ttl (now - fetched) young old),
      )
      | inr young ↦ (
        λ h. (
          old-young ttl (now - fetched) young,
          (same_date_iff _ _).0 (sym (if_false _ _ young) ∙ h),
        ),
        λ (_, dates). if_false _ _ young ∙ (same_date_iff _ _).1 dates,
      )
    ]
