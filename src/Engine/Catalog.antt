-- ===== src/Engine/Catalog.antt =====
-- weather-core/engine/src/catalog.rs and handlers/catalog.rs: when a stored catalog is fresh, and the
-- helpers of the handlers. A time of 64 bits with a sign is the number of milliseconds since the least
-- one.
pub mod Loading
pub mod Scopes
pub mod Source
use weather_app.Common.{
  Bool, true, false, not, List, [], ◌∷◌, ◌++◌, map, Option, none, some, ℕ, ◌-◌, ◌*◌, ◌^◌, min,
  if◌then◌else◌, eqb, ltb, retain, ◌==◌, list_eq, nat_eq, contains, Result, ok, err,
}
use weather_app.Common.Map.{Map, get, remove, insert}
use weather_app.Common.Order.{Ordering, compare_text, then_with, sort_by}
use weather_app.Common.Text.{Text, text, join}
use weather_app.Db.Catalog.{ProviderProvince, ProviderCity}
use weather_app.Engine.Task.{AnyError}

abbrev pub max_concurrent_catalog_fetches : ℕ
max_concurrent_catalog_fetches = 8

pub record CatalogCache (A : Type 0) : Type 0 where
  pub items : List A
  pub fetched_at_unix_ms : ℕ

unfoldable pub catalog_cache_is_fresh : ℕ → ℕ → ℕ → Bool
catalog_cache_is_fresh fetched_at_unix_ms now_unix_ms ttl_seconds =
    if eqb ttl_seconds 0
    then false
    else ltb (min (now_unix_ms - fetched_at_unix_ms) (2 ^ 63 - 1)) (ttl_seconds * 1000)

abbrev pub compare_provinces : ProviderProvince → ProviderProvince → Ordering
compare_provinces left right = compare_text left.provider_code right.provider_code

unfoldable pub sort_provider_provinces : List ProviderProvince → List ProviderProvince
sort_provider_provinces provinces = sort_by compare_provinces provinces

abbrev pub compare_cities : ProviderCity → ProviderCity → Ordering
compare_cities left right =
    then_with (compare_text left.city right.city)
      (compare_text left.provider_code right.provider_code)

unfoldable pub sort_provider_cities : List ProviderCity → List ProviderCity
sort_provider_cities cities = sort_by compare_cities cities

abbrev pub quoted : Text → Text
quoted t = text "`" ++ (t ++ text "`")

abbrev pub only_province : List ProviderProvince → Text → Text → Result ProviderProvince AnyError
only_province [] provider province = err (
    (text "provider province " ++ (quoted province ++ (text " not found for " ++ quoted provider)))
    ∷ [])
only_province (found ∷ []) provider province = ok found
only_province (found ∷ (other ∷ more)) provider province = err (
    (text "provider province "
      ++ (quoted province
          ++ (text " is ambiguous for "
              ++ (quoted provider
                  ++ (text ": "
                      ++ join (text ", ") (
                          map (λ (p : ProviderProvince). p.provider_code)
                            (found ∷ (other ∷ more))))))))
    ∷ [])

unfoldable pub resolve_provider_province :
    List ProviderProvince → Text → Text → Result ProviderProvince AnyError
resolve_provider_province provinces provider province =
    only_province (retain (λ candidate. candidate.name == province) provinces) provider province

abbrev pub extended :
    List ProviderCity → Result (List ProviderCity) AnyError → Result (List ProviderCity) AnyError
extended scope (ok cities) = ok (scope ++ cities)
extended scope (err e) = err e

unfoldable pub flatten_city_scopes :
    List Text → Map Text (List ProviderCity) → Result (List ProviderCity) AnyError
flatten_city_scopes [] scopes = ok []
flatten_city_scopes (code ∷ codes) scopes = elim (get code scopes) [
  | none ↦ err ((text "provider city scope " ++ (quoted code ++ text " was not populated")) ∷ [])
  | some scope ↦ extended scope (flatten_city_scopes codes (remove code scopes))
]

-- The loop over the cities with the owners of the codes seen.
unfoldable pub check_owners : Map Text Text → List ProviderCity → Result (Unit {0}) AnyError
check_owners owners [] = ok tt
check_owners owners (city ∷ cities) =
    let rest = check_owners (insert city.provider_code city.provider_province_code owners) cities in
    elim (get city.provider_code owners) [
      | none ↦ rest
      | some previous ↦ err (
          (text "duplicate provider city code "
            ++ (quoted city.provider_code
                ++ (text " across province scopes "
                    ++ (quoted previous ++ (text " and " ++ quoted city.provider_province_code)))))
          ∷ [])
    ]

unfoldable pub validate_population_city_codes : List ProviderCity → Result (Unit {0}) AnyError
validate_population_city_codes cities = check_owners [] cities

unfoldable pub append_warning : Option Text → Text → Option Text
append_warning none warning = some warning
append_warning (some message) warning = some (message ++ (text "; " ++ warning))
