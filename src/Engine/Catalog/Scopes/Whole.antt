-- ===== src/Engine/Catalog/Scopes/Whole.antt =====
-- weather-core/engine/src/handlers/catalog.rs: the catalog of several provinces is whole, in their order.
use weather_app.Common.{
  true, false, not, false≢true, ◌&&◌, List, [], ◌∷◌, ◌++◌, map, some, ℕ, ◌≡◌, ◌↔◌, inl, inr, refl,
  sym, ap, ◌∙◌, arith, contains, distinct, all, ==_iff, ==_refl, list_eq, nat_eq, Result, ok, err,
  err≢ok, Option-cases,
}
use weather_app.Common.Map.{Map, get, insert, remove, contains_key, get-insert, get-remove}
use weather_app.Common.Text.{Text}
use weather_app.Db.Catalog.{ProviderProvince, ProviderCity}
use weather_app.Engine.Fuzzy.{ProviderCatalog}
use weather_app.Engine.Task.{AnyError}
use weather_app.Engine.Catalog.{flatten_city_scopes, check_owners, validate_population_city_codes}
use weather_app.Engine.Catalog.Loading.{TaskWake, load_provider_city_scopes}
use weather_app.Engine.Catalog.Loading.Complete.{load_provider_city_scopes-Loads}
use weather_app.Engine.Catalog.Scopes.{
  ProviderCityScopeCache, province_codes, collect_scopes, split_scopes, extend_scopes, checked,
  catalog_of, loaded_catalog, populate_provider_catalog,
}
use weather_app.Engine.Catalog.Scopes.Fresh.{
  other-contains, stale_codes, cities_of, split_scopes-Splits, taken_lem,
}

-- The cities of scopes, one after another.
abbrev pub scopes_cities : (Text → List ProviderCity) → List Text → List ProviderCity
scopes_cities cities [] = []
scopes_cities cities (code ∷ codes) = cities code ++ scopes_cities cities codes

flatten_city_scopes_lem :
    (cities : Text → List ProviderCity) (codes : List Text) (scopes : Map Text (List ProviderCity))
    → distinct codes ≡ true
    → ((c : Text) → contains codes c ≡ true → get c scopes ≡ some (cities c))
    → flatten_city_scopes codes scopes ≡ ok (scopes_cities cities codes)
unfolding flatten_city_scopes
flatten_city_scopes_lem cities [] scopes h there = refl
flatten_city_scopes_lem cities (code ∷ codes) scopes h there =
    let later =
      flatten_city_scopes_lem cities codes (remove code scopes) (ground (arith, h)) (λ c k. ground (
        arith,
        get-remove c code scopes,
        other-contains codes code c (ground (arith, h)) k,
        there c (ground (arith, k)),
      )) in
    rw (there code (ground (arith, ==_refl code)), later, flatten_city_scopes) refl

unowned-insert :
    (code owner : Text) (owners : Map Text Text) (codes : List Text)
    → all (λ k. not (contains_key k (insert code owner owners))) codes
      ≡ (not (contains codes code) && all (λ k. not (contains_key k owners)) codes)
unowned-insert code owner owners [] = refl
unowned-insert code owner owners (k ∷ codes) = ground (
  arith,
  get-insert k code owner owners,
  unowned-insert code owner owners codes,
  ==_iff k code,
  ==_iff code k,
)

check_owners_iff :
    (owners : Map Text Text) (cities : List ProviderCity)
    → let codes = map (λ (c : ProviderCity). c.provider_code) cities in
      (check_owners owners cities ≡ ok tt)
      ↔ ((distinct codes ≡ true) × (all (λ k. not (contains_key k owners)) codes ≡ true))
unfolding check_owners get
check_owners_iff owners [] = (λ h. (refl, refl), λ h. refl)
check_owners_iff owners (city ∷ cities) = elim (Option-cases (get city.provider_code owners)) [
  | inl new ↦
      rw (new, check_owners)
        (let codes = map (λ (c : ProviderCity). c.provider_code) cities in
          let next = insert city.provider_code city.provider_province_code owners in
          ground (
            arith,
            unowned-insert city.provider_code city.provider_province_code owners codes,
            check_owners_iff next cities,
          ))
  | inr (owner, old) ↦ rw (old, check_owners) (λ h. absurd (err≢ok h), λ h. absurd (false≢true h.1))
]

abbrev pub city_codes : List ProviderCity → List Text
city_codes cities = map (λ (c : ProviderCity). c.provider_code) cities

abbrev Checked :
    List ProviderProvince → List ProviderCity → Result ProviderCatalog AnyError → Type 0
Checked provinces cities r =
    (distinct (city_codes cities) ≡ true
      → r ≡ ok (record { provinces = provinces; cities = cities }))
    × (distinct (city_codes cities) ≡ false → (e : AnyError) × (r ≡ err e))

checked-Checked :
    (provinces : List ProviderProvince) (cities : List ProviderCity)
    (r : Result (Unit {0}) AnyError)
    → (r ≡ ok tt) ↔ (distinct (city_codes cities) ≡ true)
    → Checked provinces cities (checked provinces cities r)
checked-Checked provinces cities (ok tt) h =
    (λ d. refl, λ d. absurd (false≢true (sym d ∙ h.0 refl)))
checked-Checked provinces cities (err e) h = (λ d. absurd (err≢ok (h.1 d)), λ d. (e, refl))

unowned : (codes : List Text) → all (λ k. not (contains_key {V = Text} k [])) codes ≡ true
unfolding get
unowned [] = refl
unowned (code ∷ codes) = unowned codes

validate_population_city_codes_iff :
    (cities : List ProviderCity)
    → (validate_population_city_codes cities ≡ ok tt) ↔ (distinct (city_codes cities) ≡ true)
unfolding validate_population_city_codes
validate_population_city_codes_iff cities =
    ground (arith, check_owners_iff [] cities, unowned (city_codes cities))

-- Where the provinces have distinct codes and the scopes that are not stored or not fresh are loaded: the
-- catalog has the cities of every province, in the order of the provinces, as they are stored or were
-- loaded. It is an error exactly if a city code stands twice.
pub populate_provider_catalog-whole :
    (provinces : List ProviderProvince) (ttl_seconds now : ℕ) (stored : List ProviderCityScopeCache)
    (wakes : List TaskWake) (loaded : Map Text (List ProviderCity))
    → let codes = province_codes provinces in
      let cached = collect_scopes [] stored in
      let cities = scopes_cities (cities_of now ttl_seconds cached loaded) codes in
      let answer = populate_provider_catalog provinces ttl_seconds now (ok stored) wakes in
      distinct codes ≡ true
      → load_provider_city_scopes (stale_codes now ttl_seconds cached codes) wakes
        ≡ some (ok loaded)
      → (distinct (city_codes cities) ≡ true
          → answer ≡ some (ok (record { provinces = provinces; cities = cities })))
        × (distinct (city_codes cities) ≡ false → (e : AnyError) × (answer ≡ some (err e)))
unfolding populate_provider_catalog
populate_provider_catalog-whole provinces ttl_seconds now stored wakes loaded distinct_codes load =
    let codes = province_codes provinces in
    let cached = collect_scopes [] stored in
    let cities = scopes_cities (cities_of now ttl_seconds cached loaded) codes in
    let out = split_scopes now ttl_seconds cached codes ([], []) in
    let splits =
      split_scopes-Splits now ttl_seconds cached cached codes ([], []) distinct_codes
        (λ c k. refl) in
    let taken : (c : Text)
        → contains codes c ≡ true
        → get c (extend_scopes out.0 loaded) ≡ some (cities_of now ttl_seconds cached loaded c) =
      λ c k.
        taken_lem now ttl_seconds cached codes out loaded splits
          (λ c.
            (load_provider_city_scopes-Loads (stale_codes now ttl_seconds cached codes)
                wakes).complete
              loaded load c)
          c k in
    let flat =
      flatten_city_scopes_lem (cities_of now ttl_seconds cached loaded) codes
        (extend_scopes out.0 loaded) distinct_codes taken in
    let answers =
      ap (λ pending. loaded_catalog provinces out.0 (load_provider_city_scopes pending wakes))
        splits.pending
      ∙ ap (loaded_catalog provinces out.0) load
      ∙ ap (λ r. some (catalog_of provinces r)) flat in
    let (good, bad) =
      checked-Checked provinces cities (validate_population_city_codes cities)
        (validate_population_city_codes_iff cities) in
    (λ d. answers ∙ ap some (good d), λ d. let (e, same) = bad d in (e, answers ∙ ap some same))
