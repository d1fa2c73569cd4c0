-- ===== src/Engine/Catalog/Scopes.antt =====
-- weather-core/engine/src/handlers/catalog.rs: the cities of several provinces, from stored scopes that are
-- fresh and from those loaded.
pub mod Fresh
pub mod Whole
use weather_app.Common.{
  Bool, true, false, List, [], ◌∷◌, ◌++◌, map, Option, none, some, ℕ, list_eq, nat_eq, Result, ok,
  err, if◌then◌else◌,
}
use weather_app.Common.Map.{Map, get, insert, remove}
use weather_app.Common.Text.{Text}
use weather_app.Db.Catalog.{ProviderProvince, ProviderCity}
use weather_app.Engine.Fuzzy.{ProviderCatalog}
use weather_app.Engine.Task.{AnyError}
use weather_app.Engine.Catalog.{
  catalog_cache_is_fresh, flatten_city_scopes, validate_population_city_codes,
  resolve_provider_province,
}
use weather_app.Engine.Catalog.Loading.{TaskWake, load_provider_city_scopes}

pub record ProviderCityScopeCache : Type 0 where
  pub provider_province_code : Text
  pub items : List ProviderCity
  pub fetched_at_unix_ms : ℕ

abbrev pub province_codes : List ProviderProvince → List Text
province_codes provinces = map (λ (p : ProviderProvince). p.provider_code) provinces

-- A `collect` into a map.
unfoldable pub collect_scopes :
    Map Text ProviderCityScopeCache → List ProviderCityScopeCache → Map Text ProviderCityScopeCache
collect_scopes scopes [] = scopes
collect_scopes scopes (scope ∷ rest) =
    collect_scopes (insert scope.provider_province_code scope scopes) rest

unfoldable pub fresh_items : ℕ → ℕ → Option ProviderCityScopeCache → Option (List ProviderCity)
fresh_items now ttl_seconds none = none
fresh_items now ttl_seconds (some scope) =
    if catalog_cache_is_fresh scope.fetched_at_unix_ms now ttl_seconds
    then some scope.items
    else none

-- `city_scopes` and `pending`.
abbrev pub Split : Type 0
Split = Map Text (List ProviderCity) × List Text

abbrev pub put_scope : Text → Option (List ProviderCity) → Split → Split
put_scope code (some items) (city_scopes, pending) = (insert code items city_scopes, pending)
put_scope code none (city_scopes, pending) = (city_scopes, pending ++ code ∷ [])

unfoldable pub split_scopes : ℕ → ℕ → Map Text ProviderCityScopeCache → List Text → Split → Split
split_scopes now ttl_seconds cached [] split = split
split_scopes now ttl_seconds cached (code ∷ codes) split =
    split_scopes now ttl_seconds (remove code cached) codes
      (put_scope code (fresh_items now ttl_seconds (get code cached)) split)

-- `extend`, by a map with each key once.
unfoldable pub extend_scopes :
    Map Text (List ProviderCity) → Map Text (List ProviderCity) → Map Text (List ProviderCity)
extend_scopes city_scopes [] = city_scopes
extend_scopes city_scopes ((code, items) ∷ loaded) =
    insert code items (extend_scopes city_scopes loaded)

abbrev pub checked :
    List ProviderProvince
    → List ProviderCity
    → Result (Unit {0}) AnyError
    → Result ProviderCatalog AnyError
checked provinces cities (ok u) = ok (record { provinces = provinces; cities = cities })
checked provinces cities (err e) = err e

abbrev pub catalog_of :
    List ProviderProvince → Result (List ProviderCity) AnyError → Result ProviderCatalog AnyError
catalog_of provinces (ok cities) = checked provinces cities (validate_population_city_codes cities)
catalog_of provinces (err e) = err e

-- `none` where the loading still waits.
abbrev pub loaded_catalog :
    List ProviderProvince
    → Map Text (List ProviderCity)
    → Option (Result (Map Text (List ProviderCity)) AnyError)
    → Option (Result ProviderCatalog AnyError)
loaded_catalog provinces city_scopes none = none
loaded_catalog provinces city_scopes (some (err e)) = some (err e)
loaded_catalog provinces city_scopes (some (ok loaded)) = some (
    catalog_of provinces
      (flatten_city_scopes (province_codes provinces) (extend_scopes city_scopes loaded)))

-- The time, the time to live and the stored scopes are those that are read first.
unfoldable pub populate_provider_catalog :
    List ProviderProvince
    → ℕ
    → ℕ
    → Result (List ProviderCityScopeCache) AnyError
    → List TaskWake
    → Option (Result ProviderCatalog AnyError)
populate_provider_catalog provinces ttl_seconds now (err e) wakes = some (err e)
populate_provider_catalog provinces ttl_seconds now (ok stored) wakes =
    let (city_scopes, pending) =
      split_scopes now ttl_seconds (collect_scopes [] stored) (province_codes provinces) ([], []) in
    loaded_catalog provinces city_scopes (load_provider_city_scopes pending wakes)

unfoldable pub provider_catalog_for_provinces :
    List ProviderProvince → List TaskWake → Option (Result ProviderCatalog AnyError)
provider_catalog_for_provinces provinces wakes =
    loaded_catalog provinces [] (load_provider_city_scopes (province_codes provinces) wakes)

abbrev pub with_province :
    Result ProviderProvince AnyError → List TaskWake → Option (Result ProviderCatalog AnyError)
with_province (ok province) wakes = provider_catalog_for_provinces (province ∷ []) wakes
with_province (err e) wakes = some (err e)

unfoldable pub provider_catalog_for_province :
    Result (List ProviderProvince) AnyError
    → Text
    → Text
    → List TaskWake
    → Option (Result ProviderCatalog AnyError)
provider_catalog_for_province (err e) provider province wakes = some (err e)
provider_catalog_for_province (ok provinces) provider province wakes =
    with_province (resolve_provider_province provinces provider province) wakes
