-- ===== src/Engine/Catalog/Source.antt =====
-- weather-core/engine/src/handlers/catalog.rs: the refresh of a stored catalog from the provider. The two
-- methods for provinces and for cities differ in what `Source` holds.
pub mod Valid
use weather_app.Common.{
  Bool, true, false, List, [], ◌∷◌, Option, none, some, map, ℕ, if◌then◌else◌, ◌++◌, Result, ok,
  err, list_eq, nat_eq,
}
use weather_app.Common.Text.{Text, text}
use weather_app.Db.Catalog.{ProviderProvince, ProviderCity}
use weather_app.Db.Validation.{
  CatalogError, empty_province_code, empty_code, duplicate_code, foreign_city,
  validate_provider_province_catalog, validate_provider_city_catalog,
}
use weather_app.Engine.Events.{fetch_log, fetch_log_event}
use weather_app.Engine.Task.{
  AnyError, Await, World, Task, return, await, reads, publish, full_text, ◌>>=◌, ◌>>◌, ◌>>?◌,
}
use weather_app.Engine.Catalog.{
  CatalogCache, catalog_cache_is_fresh, sort_provider_provinces, sort_provider_cities,
  append_warning, quoted,
}

-- The rows as the provider gives them.
pub record FetchedProvince : Type 0 where
  pub provider_code : Text
  pub name : Text
  pub url : Text

pub record FetchedCity : Type 0 where
  pub provider_code : Text
  pub provider_province_code : Text
  pub province : Text
  pub city : Text
  pub url : Text

abbrev pub db_provider_province : FetchedProvince → ProviderProvince
db_provider_province province = record {
  provider_code = province.provider_code;
  name = province.name;
  url = province.url;
}

abbrev pub db_provider_city : FetchedCity → ProviderCity
db_provider_city city = record {
  provider_code = city.provider_code;
  provider_province_code = city.provider_province_code;
  province = city.province;
  city = city.city;
  url = city.url;
}

abbrev pub catalog_error_text : Text → CatalogError → Text
catalog_error_text expected empty_province_code = text "provider province code must not be empty"
catalog_error_text expected (empty_code kind) =
    text "provider " ++ (kind ++ text " code must not be empty")
catalog_error_text expected (duplicate_code kind code) =
    text "duplicate provider " ++ (kind ++ (text " code " ++ quoted code))
catalog_error_text expected (foreign_city code province) =
    text "city "
    ++ (quoted code
        ++ ((text " belongs to provider province "
            ++ (quoted province ++ (text ", expected " ++ quoted expected)))))

-- What is refused is refused with a message.
abbrev pub refused : Text → Result (Unit {0}) CatalogError → Result (Unit {0}) AnyError
refused expected (ok u) = ok u
refused expected (err e) = err (catalog_error_text expected e ∷ [])

-- The database, the provider, the limiter of fetches, the clock and the configuration, as the
-- state `S` has them.
pub record CatalogServices (S : Type 0) : Type 0 where
  pub province_ttl_seconds : S → ℕ
  pub now_unix_ms : S → ℕ
  pub acquire_upstream_permit : Await S (Result (Unit {0}) AnyError)
  pub release_permit : S → S
  pub log_fetch : Option Text → Text → Bool → Option Text → Await S (Result (Unit {0}) AnyError)
  pub get_provider_provinces :
      Text → Await S (Result (Option (CatalogCache ProviderProvince)) AnyError)
  pub replace_provider_provinces :
      Text → List ProviderProvince → Await S (Result (Unit {0}) AnyError)
  pub provinces : Await S (Result (List FetchedProvince) AnyError)
  pub get_provider_cities :
      Text → Text → Await S (Result (Option (CatalogCache ProviderCity)) AnyError)
  pub replace_provider_cities :
      Text → Text → List ProviderCity → Await S (Result (Unit {0}) AnyError)
  pub cities : Text → Await S (Result (List FetchedCity) AnyError)

pub record Source (S B A : Type 0) : Type 0 where
  pub endpoint : Text
  pub get_cached : Await S (Result (Option (CatalogCache A)) AnyError)
  pub replace : List A → Await S (Result (Unit {0}) AnyError)
  pub fetch : Await S (Result (List B) AnyError)
  pub row : B → A
  pub validate : List A → Result (Unit {0}) AnyError
  pub sort : List A → List A

abbrev pub valid_only :
    {A : Type 0} → List A → Result (Unit {0}) AnyError → Result (List A) AnyError
valid_only rows (ok u) = ok rows
valid_only rows (err e) = err e

abbrev pub stale_items : {A : Type 0} → Option (CatalogCache A) → Option (List A)
stale_items none = none
stale_items (some cache) = some cache.items

abbrev pub log_failure : Option Text → Result (Unit {0}) AnyError → Option Text
log_failure message (ok u) = message
log_failure message (err e) =
    append_warning message (text "fetch log write failed: " ++ full_text e)

module _ {F S : Type 0} (v : CatalogServices S) where
  unfoldable pub record_catalog_fetch :
      Text → Bool → Option Text → Bool → Option Text → Task F S (Unit {0})
  record_catalog_fetch endpoint persisted_ok persisted_message event_ok event_message = do
    logged ← await (v.log_fetch none endpoint persisted_ok persisted_message)
    publish (fetch_log (fetch_log_event none endpoint event_ok (log_failure event_message logged)))

  -- A permit is dropped after a call, and where the call is dropped.
  unfoldable pub drop_permit : {A : Type 0} → Task F S A → Task F S A
  drop_permit call w =
      let (w', answer) = call w in (record w' { services = v.release_permit w'.services }, answer)

abbrev pub cache_is_fresh : {S A : Type 0} → CatalogServices S → CatalogCache A → ℕ → S → Bool
cache_is_fresh v cache ttl_seconds s =
    catalog_cache_is_fresh cache.fetched_at_unix_ms (v.now_unix_ms s) ttl_seconds

abbrev pub reread :
    {A : Type 0} → List A → Result (Option (CatalogCache A)) AnyError → List A × Option Text
reread upstream (ok (some cache)) = (cache.items, none)
reread upstream (ok none) =
    (upstream, some (text "catalog cache re-read returned no value after replacement"))
reread upstream (err e) = (upstream, some (text "catalog cache re-read failed: " ++ full_text e))

abbrev pub validated :
    {S B A : Type 0} → Source S B A → Result (List B) AnyError → Result (List A) AnyError
validated source (ok fetched) =
    let rows = map source.row fetched in valid_only rows (source.validate rows)
validated source (err e) = err e

module _ {F S B A : Type 0} (source : Source S B A) where
  unfoldable pub after_write : List A → Result (Unit {0}) AnyError → Task F S (List A × Option Text)
  after_write upstream (err e) =
      return (upstream, some (text "catalog cache write failed: " ++ full_text e))
  after_write upstream (ok u) = do cached ← await source.get_cached; return (reread upstream cached)

  unfoldable pub persist : List A → Task F S (List A × Option Text)
  persist upstream = do written ← await (source.replace upstream); after_write upstream written

module _ {F S B A : Type 0} (v : CatalogServices S) (source : Source S B A) where
  unfoldable pub permitted : Result (Unit {0}) AnyError → Task F S (Result (List A) AnyError)
  permitted (ok permit) = do
    result ← drop_permit v (await source.fetch)
    return (validated source result)
  permitted (err e) = return (err e)

  unfoldable pub settle_refresh :
      Option (List A) → Result (List A) AnyError → Task F S (Result (List A) AnyError)
  settle_refresh stale (ok upstream) = do
    persisted ← persist source (source.sort upstream)
    record_catalog_fetch v source.endpoint true persisted.1 true persisted.1
    return (ok persisted.0)
  settle_refresh (some items) (err e) = do
    record_catalog_fetch v source.endpoint false (some (full_text e)) false
        (some (text "using stale catalog after " ++ full_text e))
    return (ok items)
  settle_refresh none (err e) = do
    record_catalog_fetch v source.endpoint false (some (full_text e)) false (some (full_text e))
    return (err e)

  unfoldable pub refetch : Option (List A) → Task F S (Result (List A) AnyError)
  refetch stale = do
    permit ← await v.acquire_upstream_permit
    fetched ← permitted permit
    settle_refresh stale fetched

  unfoldable pub unless_fresh : ℕ → Option (CatalogCache A) → Task F S (Result (List A) AnyError)
  unless_fresh ttl_seconds none = refetch none
  unless_fresh ttl_seconds (some cache) = do
    fresh ← reads (cache_is_fresh v cache ttl_seconds)
    if fresh then return (ok cache.items) else refetch (some cache.items)

  unfoldable pub refresh_catalog : Task F S (Result (List A) AnyError)
  refresh_catalog = do
    ttl_seconds ← reads v.province_ttl_seconds
    await source.get_cached >>? unless_fresh ttl_seconds

module _ {S : Type 0} (v : CatalogServices S) (provider : Text) where
  abbrev pub province_source : Source S FetchedProvince ProviderProvince
  province_source = record {
    endpoint = text "rest/province/all";
    get_cached = v.get_provider_provinces provider;
    replace = v.replace_provider_provinces provider;
    fetch = v.provinces;
    row = db_provider_province;
    validate = λ provinces. refused [] (validate_provider_province_catalog provinces);
    sort = sort_provider_provinces;
  }

  abbrev pub city_source : Text → Source S FetchedCity ProviderCity
  city_source code = record {
    endpoint = text "rest/province/" ++ code;
    get_cached = v.get_provider_cities provider code;
    replace = v.replace_provider_cities provider code;
    fetch = v.cities code;
    row = db_provider_city;
    validate = λ cities. refused code (validate_provider_city_catalog code cities);
    sort = sort_provider_cities;
  }

  unfoldable pub refresh_provider_provinces :
      {F : Type 0} → Task F S (Result (List ProviderProvince) AnyError)
  refresh_provider_provinces = refresh_catalog v province_source

  unfoldable pub refresh_provider_cities :
      {F : Type 0} → Text → Task F S (Result (List ProviderCity) AnyError)
  refresh_provider_cities code = refresh_catalog v (city_source code)
