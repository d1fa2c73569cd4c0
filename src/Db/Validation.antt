-- ===== src/Db/Validation.antt =====
-- weather-core/db/src/validation.rs: what a catalog must satisfy before it is stored.
use weather_app.Common.{
  Bool, true, not, ◌&&◌, List, [], ◌∷◌, map, ◌≡◌, ◌↔◌, refl, arith, if◌then◌else◌, ◌==◌, list_eq,
  nat_eq, contains, distinct, all, Result, ok, err, err≢ok, ==_iff,
}
use weather_app.Common.Text.{Text, text, trim, is_empty}
use weather_app.Db.Catalog.{ProviderProvince, ProviderCity}

pub data CatalogError : Type 0 where
  empty_province_code : CatalogError
  empty_code : Text → CatalogError
  duplicate_code : Text → Text → CatalogError
  foreign_city : Text → Text → CatalogError

-- The loop of `validate_unique_codes` with the codes seen.
unfoldable pub unique_from : Text → List Text → List Text → Result (Unit {0}) CatalogError
unique_from kind seen [] = ok tt
unique_from kind seen (code ∷ codes) =
    let rest = unique_from kind (code ∷ seen) codes in
    if is_empty (trim code)
    then err (empty_code kind)
    else if contains seen code
    then err (duplicate_code kind code)
    else rest

unfoldable pub validate_unique_codes : List Text → Text → Result (Unit {0}) CatalogError
validate_unique_codes codes kind = unique_from kind [] codes

unfoldable pub validate_provider_province_catalog :
    List ProviderProvince → Result (Unit {0}) CatalogError
validate_provider_province_catalog provinces =
    validate_unique_codes (map (λ (p : ProviderProvince). p.provider_code) provinces)
      (text "province")

unfoldable pub check_scope : Text → List ProviderCity → Result (Unit {0}) CatalogError
check_scope code [] = ok tt
check_scope code (city ∷ cities) =
    let rest = check_scope code cities in
    if not (city.provider_province_code == code)
    then err (foreign_city city.provider_code city.provider_province_code)
    else rest

abbrev pub and_then :
    Result (Unit {0}) CatalogError → Result (Unit {0}) CatalogError → Result (Unit {0}) CatalogError
and_then (ok u) later = later
and_then (err e) later = err e

unfoldable pub validate_provider_city_catalog :
    Text → List ProviderCity → Result (Unit {0}) CatalogError
validate_provider_city_catalog code cities =
    if is_empty (trim code)
    then err empty_province_code
    else and_then
        (validate_unique_codes (map (λ (c : ProviderCity). c.provider_code) cities) (text "city"))
        (check_scope code cities)

abbrev pub not_blank : Text → Bool
not_blank code = not (is_empty (trim code))

-- Codes that are not blank, each once, and none seen before.
abbrev unseen : List Text → List Text → Bool
unseen seen codes = all (λ code. not (contains seen code)) codes

unseen-cons :
    (code : Text) (seen codes : List Text)
    → unseen (code ∷ seen) codes ≡ (not (contains codes code) && unseen seen codes)
unseen-cons code seen [] = refl
unseen-cons code seen (x ∷ codes) =
    ground (arith, unseen-cons code seen codes, ==_iff x code, ==_iff code x)

unique_from_iff :
    (kind : Text) (seen codes : List Text)
    → (unique_from kind seen codes ≡ ok tt)
      ↔ ((all not_blank codes ≡ true) × (distinct codes ≡ true) × (unseen seen codes ≡ true))
unfolding unique_from
unique_from_iff kind seen [] = (λ h. (refl, refl, refl), λ h. refl)
unique_from_iff kind seen (code ∷ codes) =
    ground (arith, unseen-cons code seen codes, unique_from_iff kind (code ∷ seen) codes)

check_scope_iff :
    (code : Text) (cities : List ProviderCity)
    → (check_scope code cities ≡ ok tt)
      ↔ (all (λ (c : ProviderCity). c.provider_province_code == code) cities ≡ true)
unfolding check_scope
check_scope_iff code [] = (λ h. refl, λ h. refl)
check_scope_iff code (c ∷ cities) = ground (arith, check_scope_iff code cities)

unseen_none : (codes : List Text) → unseen [] codes ≡ true
unseen_none [] = refl
unseen_none (code ∷ codes) = unseen_none codes

and_then_iff :
    (r later : Result (Unit {0}) CatalogError)
    → (and_then r later ≡ ok tt) ↔ ((r ≡ ok tt) × (later ≡ ok tt))
and_then_iff (ok u) later = (λ h. (refl, h), λ h. h.1)
and_then_iff (err e) later = (λ h. absurd (err≢ok h), λ h. absurd (err≢ok h.0))

-- A catalog of cities is accepted exactly if the code of the province is not blank, no city's code
-- is blank or stands twice, and every city is in the scope of the province.
pub validate_provider_city_catalog_iff :
    (code : Text) (cities : List ProviderCity)
    → (validate_provider_city_catalog code cities ≡ ok tt) ↔ (
        (not_blank code ≡ true)
        × (all not_blank (map (λ (c : ProviderCity). c.provider_code) cities) ≡ true)
        × (distinct (map (λ (c : ProviderCity). c.provider_code) cities) ≡ true)
        × (all (λ (c : ProviderCity). c.provider_province_code == code) cities ≡ true))
unfolding validate_provider_city_catalog validate_unique_codes
validate_provider_city_catalog_iff code cities =
    let codes = map (λ (c : ProviderCity). c.provider_code) cities in
    ground (
      arith,
      and_then_iff (unique_from (text "city") [] codes) (check_scope code cities),
      unique_from_iff (text "city") [] codes,
      unseen_none codes,
      check_scope_iff code cities,
    )
