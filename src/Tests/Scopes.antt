-- ===== src/Tests/Scopes.antt =====
-- weather-core/engine/src/handlers/catalog.rs at concrete inputs.
use weather_app.Common.{
  subst, true, false, ap, List, [], ◌∷◌, map, Option, none, some, ℕ, distinct, ◌≡◌, refl, Result,
  ok, err, list_eq, nat_eq,
}
use weather_app.Common.Map.{Map, get, insert, remove}
use weather_app.Common.Text.{Text, text, trim, trim_start, trim_end, is_whitespace, join}
use weather_app.Db.Catalog.{ProviderProvince, ProviderCity}
use weather_app.Db.Validation.{
  validate_provider_city_catalog, check_scope, unique_from, validate_unique_codes,
}
use weather_app.Engine.Task.{
  AnyError, ◌>>=◌, ◌>>◌, ◌>>?◌, reads, await, on_ok, return, publish, full_text,
}
use weather_app.Engine.Catalog.{
  CatalogCache, catalog_cache_is_fresh, sort_provider_cities, append_warning, flatten_city_scopes,
  validate_population_city_codes, check_owners,
}
use weather_app.Engine.Events.{fetch_log_event, fetch_outcome}
use weather_app.Common.Order.{compare_text, insert_sorted, sort_by}
use weather_app.Engine.Catalog.Loading.{
  answered, TaskWake, join_from, take_task, spawn_first, load_provider_city_scopes,
}
use weather_app.Engine.Catalog.Loading.Complete.{Loads, load_provider_city_scopes-Loads}
use weather_app.Engine.Catalog.Scopes.{
  ProviderCityScopeCache, populate_provider_catalog, province_codes, collect_scopes, split_scopes,
  fresh_items, extend_scopes,
}
use weather_app.Engine.Catalog.Scopes.Fresh.{cities_of}
use weather_app.Engine.Catalog.Scopes.Whole.{
  populate_provider_catalog-whole, city_codes, scopes_cities,
}
use weather_app.Engine.Catalog.Source.{
  CatalogServices, FetchedCity, refresh_provider_cities, refresh_catalog, unless_fresh, refetch,
  permitted, drop_permit, settle_refresh, after_write, persist, record_catalog_fetch,
}
use weather_app.Engine.Catalog.Source.Valid.{refresh_provider_cities-valid}

abbrev city : Text → Text → ProviderCity
city province code = record {
  provider_code = code;
  provider_province_code = province;
  province = province;
  city = code;
  url = [];
}

abbrev province : Text → ProviderProvince
province code = record { provider_code = code; name = code; url = [] }

abbrev provinces : List ProviderProvince
provinces = map (λ n. province (n ∷ [])) (65 ∷ 66 ∷ 67 ∷ [])

-- Ten codes, of which two wait for a place; the third task ends first.
abbrev ten : List Text
ten = map (λ n. n ∷ []) (0 ∷ 1 ∷ 2 ∷ 3 ∷ 4 ∷ 5 ∷ 6 ∷ 7 ∷ 8 ∷ 9 ∷ [])

abbrev end_of : ℕ → TaskWake
end_of place = (place, answered (ok []))

abbrev ten_ends : List TaskWake
ten_ends = map end_of (2 ∷ 0 ∷ 6 ∷ 1 ∷ 1 ∷ 0 ∷ 9 ∷ 0 ∷ 0 ∷ 0 ∷ [])

load_provider_city_scopes-Loads_example : Loads ten ten_ends
load_provider_city_scopes-Loads_example = load_provider_city_scopes-Loads ten ten_ends

-- The scope of the second province is stored, and was fetched 500 milliseconds ago.
abbrev stored : List ProviderCityScopeCache
stored =
    record {
      provider_province_code = 66 ∷ [];
      items = city (66 ∷ []) (2 ∷ []) ∷ [];
      fetched_at_unix_ms = 1000;
    }
    ∷ []

abbrev wakes : List TaskWake
wakes =
    (1, answered (ok (city (67 ∷ []) (4 ∷ []) ∷ (city (67 ∷ []) (3 ∷ []) ∷ []))))
    ∷ ((0, answered (ok (city (65 ∷ []) (1 ∷ []) ∷ []))) ∷ [])

abbrev loaded : Map Text (List ProviderCity)
loaded =
    (67 ∷ [], city (67 ∷ []) (3 ∷ []) ∷ (city (67 ∷ []) (4 ∷ []) ∷ []))
    ∷ ((65 ∷ [], city (65 ∷ []) (1 ∷ []) ∷ []) ∷ [])

populate_provider_catalog-whole_example :
    let cities =
      scopes_cities
        (cities_of 1500 1 (collect_scopes [] stored) loaded)
        (province_codes provinces) in
    let answer = populate_provider_catalog provinces 1 1500 (ok stored) wakes in
    (distinct (city_codes cities) ≡ true
      → answer ≡ some (ok (record { provinces = provinces; cities = cities })))
    × (distinct (city_codes cities) ≡ false → (e : AnyError) × (answer ≡ some (err e)))
unfolding populate_provider_catalog collect_scopes split_scopes fresh_items extend_scopes
    load_provider_city_scopes join_from take_task spawn_first sort_provider_cities compare_text
    insert_sorted sort_by flatten_city_scopes get insert remove validate_population_city_codes
    check_owners catalog_cache_is_fresh
populate_provider_catalog-whole_example =
    populate_provider_catalog-whole provinces 1 1500 stored wakes loaded refl refl

abbrev scope_a : Text
scope_a = 65 ∷ []

abbrev fetched_city : Text → FetchedCity
fetched_city code = record {
  provider_code = code;
  provider_province_code = scope_a;
  province = scope_a;
  city = code;
  url = [];
}

-- The stored scope is stale, the provider answers, and the write fails.
abbrev services : CatalogServices ℕ
services = record {
  province_ttl_seconds = λ s. 0;
  now_unix_ms = λ s. s;
  acquire_upstream_permit = λ s. (s, some (ok tt));
  release_permit = λ s. s;
  log_fetch = λ uuid endpoint persisted message s. (s, some (ok tt));
  get_provider_provinces = λ provider s. (s, some (ok none));
  replace_provider_provinces = λ provider rows s. (s, some (ok tt));
  provinces = λ s. (s, some (ok []));
  get_provider_cities = λ provider code s. (
    s,
    some (ok (some (record { items = city scope_a (69 ∷ []) ∷ []; fetched_at_unix_ms = 0 }))),
  );
  replace_provider_cities = λ provider code rows s. (s, some (err (text "disk full" ∷ [])));
  cities = λ code s. (s, some (ok (fetched_city (8 ∷ []) ∷ (fetched_city (7 ∷ []) ∷ []))));
}

items_of : Option (Result (Option (CatalogCache ProviderCity)) AnyError) → List ProviderCity
items_of (some (ok (some cache))) = cache.items
items_of (some (ok none)) = []
items_of (some (err e)) = []
items_of none = []

stored-valid :
    (s : ℕ) (cache : CatalogCache ProviderCity)
    → (services.get_provider_cities [] scope_a s).1 ≡ some (ok (some cache))
    → validate_provider_city_catalog scope_a cache.items ≡ ok tt
unfolding items_of validate_provider_city_catalog trim trim_end trim_start is_whitespace check_scope
    unique_from validate_unique_codes
stored-valid s cache h =
    subst (λ items. validate_provider_city_catalog scope_a items ≡ ok tt) (ap items_of h) refl

refresh_provider_cities-valid_example :
    validate_provider_city_catalog scope_a (city scope_a (7 ∷ []) ∷ (city scope_a (8 ∷ []) ∷ []))
    ≡ ok tt
unfolding refresh_provider_cities refresh_catalog ◌>>=◌ reads ◌>>?◌ await unless_fresh
    catalog_cache_is_fresh refetch permitted drop_permit settle_refresh
    validate_provider_city_catalog trim trim_end trim_start is_whitespace compare_text insert_sorted
    sort_by join check_scope unique_from validate_unique_codes after_write persist
    record_catalog_fetch append_warning sort_provider_cities fetch_log_event fetch_outcome full_text
    on_ok publish return ◌>>◌
refresh_provider_cities-valid_example =
    refresh_provider_cities-valid {F = ℕ} services [] scope_a stored-valid
      (record { services = 0; published = [] })
      (city scope_a (7 ∷ []) ∷ (city scope_a (8 ∷ []) ∷ [])) refl
