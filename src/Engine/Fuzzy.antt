-- ===== src/Engine/Fuzzy.antt =====
-- weather-core/engine/src/handlers/fuzzy.rs: the search over the provider's catalog. The parameters
-- are the Unicode properties of characters, `char::is_alphanumeric` and `char::to_lowercase`, and
-- SHA-256.
pub mod Results
pub mod Resolve
use weather_app.Common.{
  Bool, true, false, not, ◌&&◌, ◌||◌, List, [], ◌∷◌, ◌++◌, map, Option, none, some, ℕ, zero, suc,
  min, if◌then◌else◌, ◌==◌, list_eq, nat_eq, pair_eq, any, all, retain, first_of_each, is_some,
}
use weather_app.Common.Text.{Text, trim, is_empty, split}
use weather_app.Common.Order.{Ordering, eq, then_with, compare_text, compare, sort_by}
use weather_app.Schema.Messages.{FuzzyMatchStationsResponse, no_results}
use weather_app.Schema.Station.{dash, short_region_name, canonical_station_name}
use weather_app.Db.Catalog.{
  ProviderProvince, ProviderCity, ProviderStation, public_province, public_city, public_station,
}
use weather_app.Engine.Limits.{Page, paginate}
use weather_app.Engine.Station.{station_names, city_to_provider_station}

-- The library's tables of characters, and the hash.
pub record Platform : Type 0 where
  pub is_alphanumeric : ℕ → Bool
  pub to_lowercase : ℕ → List ℕ
  pub digest : List ℕ → List ℕ

pub record ProviderCatalog : Type 0 where
  pub provinces : List ProviderProvince
  pub cities : List ProviderCity

pub data SearchCandidate : Type 0 where
  station : ProviderStation → SearchCandidate
  city : ProviderCity → SearchCandidate
  province : ProviderProvince → SearchCandidate

-- `SearchCandidateKey`: the number of the constructor and its texts.
abbrev pub SearchCandidateKey : Type 0
SearchCandidateKey = ℕ × List Text

-- `str::contains`, from each place of the text.
unfoldable pub starts_with : Text → Text → Bool
starts_with value [] = true
starts_with [] (d ∷ query) = false
starts_with (c ∷ value) (d ∷ query) = c == d && starts_with value query

unfoldable pub contains_text : Text → Text → Bool
contains_text [] part = is_empty part
contains_text (c ∷ value) part = starts_with (c ∷ value) part || contains_text value part

abbrev pub candidate_kind_rank : SearchCandidate → ℕ
candidate_kind_rank (station s) = 0
candidate_kind_rank (city c) = 1
candidate_kind_rank (province p) = 2

unfoldable pub location_search_values : Text → Text → Text → List Text
location_search_values name in_province in_city =
    let short_province = short_region_name in_province in
    name
    ∷ in_province
    ∷ short_province
    ∷ in_city
    ∷ (in_province ++ in_city)
    ∷ (short_province ++ in_city)
    ∷ []

unfoldable pub city_search_values : ProviderCity → List Text
city_search_values c =
    location_search_values (canonical_station_name c.province c.city) c.province c.city

abbrev pub province_search_values : ProviderProvince → List Text
province_search_values p = p.name ∷ short_region_name p.name ∷ []

unfoldable pub station_stable_cmp : ProviderStation → ProviderStation → Ordering
station_stable_cmp left right = then_with (compare_text left.name right.name) (
    then_with (compare_text left.province right.province) (
      then_with (compare_text left.city right.city)
        (compare_text left.provider_station_id right.provider_station_id)))

unfoldable pub candidate_stable_cmp : SearchCandidate → SearchCandidate → Ordering
candidate_stable_cmp (station left) (station right) = station_stable_cmp left right
candidate_stable_cmp (city left) (city right) =
    then_with (compare_text left.province right.province) (
      then_with (compare_text left.city right.city) (
        then_with (compare_text left.provider_province_code right.provider_province_code)
          (compare_text left.provider_code right.provider_code)))
candidate_stable_cmp (province left) (province right) =
    then_with (compare_text left.name right.name)
      (compare_text left.provider_code right.provider_code)
candidate_stable_cmp left right = eq

abbrev pub candidate_key : SearchCandidate → SearchCandidateKey
candidate_key (station s) = (0, s.unified_uuid ∷ [])
candidate_key (city c) = (1, c.province ∷ c.city ∷ [])
candidate_key (province p) = (2, p.name ∷ [])

module _ (platform : Platform) where
  -- The alphanumeric characters, in lower case.
  unfoldable pub compact_search_text : Text → Text
  compact_search_text [] = []
  compact_search_text (c ∷ value) =
      let rest = compact_search_text value in
      if platform.is_alphanumeric c then platform.to_lowercase c ++ rest else rest

  -- `split` at the characters that are not alphanumeric.
  unfoldable pub split_words : Text → List Text
  split_words [] = [] ∷ []
  split_words (c ∷ s) = elim (split_words s) [
    | [] ↦ []
    | word ∷ words ↦ if platform.is_alphanumeric c then (c ∷ word) ∷ words else [] ∷ word ∷ words
  ]

  unfoldable pub search_tokens : Text → List Text
  search_tokens query =
      retain (λ token. not (is_empty token)) (map compact_search_text (split_words query))

  unfoldable pub search_values_match : List Text → Text → Bool
  search_values_match values query =
      if is_empty (trim query)
      then true
      else let tokens = search_tokens query in
        if is_empty tokens
        then false
        else let compact = map compact_search_text values in
          all (λ token. any (λ value. contains_text value token) compact) tokens

  unfoldable pub value_rank : Text → Text → ℕ
  value_rank query value = if value == query then 0 else if starts_with value query then 1 else 2

  -- The minimum of the ranks, 2 for no values.
  unfoldable pub min_rank : Text → List Text → ℕ
  min_rank query [] = 2
  min_rank query (value ∷ values) =
      min (value_rank query (compact_search_text value)) (min_rank query values)

  unfoldable pub search_match_rank : List Text → Text → ℕ
  search_match_rank values query = min_rank (compact_search_text query) values

  unfoldable pub candidate_match_rank : SearchCandidate → Text → ℕ
  candidate_match_rank (station s) query =
      search_match_rank (location_search_values s.name s.province s.city) query
  candidate_match_rank (city c) query = search_match_rank (city_search_values c) query
  candidate_match_rank (province p) query = search_match_rank (province_search_values p) query

  unfoldable pub candidate_cmp : Text → SearchCandidate → SearchCandidate → Ordering
  candidate_cmp query left right =
      then_with (compare (candidate_kind_rank left) (candidate_kind_rank right)) (
        then_with (compare (candidate_match_rank left query) (candidate_match_rank right query))
          (candidate_stable_cmp left right))

  unfoldable pub city_matches : Text → ProviderCity → Bool
  city_matches query c = search_values_match (city_search_values c) query

  unfoldable pub province_matches_query : Text → ProviderProvince → Bool
  province_matches_query query p = search_values_match (province_search_values p) query

  -- The candidates before they are sorted: a station and a city for each city, then provinces.
  unfoldable pub city_candidates : Text → Text → List ProviderCity → List SearchCandidate
  city_candidates provider_name query [] = []
  city_candidates provider_name query (c ∷ cities) =
      let rest = city_candidates provider_name query cities in
      if city_matches query c
      then station
          (city_to_provider_station platform.digest provider_name c.provider_province_code c)
        ∷ city c
        ∷ rest
      else rest

  unfoldable pub unsorted_candidates : Text → ProviderCatalog → Text → List SearchCandidate
  unsorted_candidates provider_name catalog query =
      city_candidates provider_name query catalog.cities
      ++ map province (retain (province_matches_query query) catalog.provinces)

  unfoldable pub search_candidates : Text → ProviderCatalog → Text → List SearchCandidate
  search_candidates provider_name catalog query =
      first_of_each candidate_key []
        (sort_by (candidate_cmp query) (unsorted_candidates provider_name catalog query))

-- The loop of `fuzzy` over the page, and its response.
unfoldable pub add_candidate :
    SearchCandidate → FuzzyMatchStationsResponse → FuzzyMatchStationsResponse
add_candidate (station s) r = record r { stations = public_station s ∷ r.stations }
add_candidate (city c) r = record r { cities = public_city c ∷ r.cities }
add_candidate (province p) r = record r { provinces = public_province p ∷ r.provinces }

unfoldable pub add_candidates :
    List SearchCandidate → FuzzyMatchStationsResponse → FuzzyMatchStationsResponse
add_candidates [] r = r
add_candidates (c ∷ cs) r = add_candidate c (add_candidates cs r)

unfoldable pub page_response : Page SearchCandidate → FuzzyMatchStationsResponse
page_response page =
    add_candidates page.items
      (record no_results { has_more = page.has_more; next_offset = page.next_offset })

-- `fuzzy` once it has the catalog; the writes of station mappings are the database's.
unfoldable pub fuzzy : Platform → Text → ProviderCatalog → Text → ℕ → ℕ → FuzzyMatchStationsResponse
fuzzy platform provider_name catalog query offset page_size =
    page_response
      (paginate (search_candidates platform provider_name catalog query) offset page_size)

-- Which provinces are looked into first for a station name.
unfoldable pub province_matches_hint : ProviderProvince → Text → Text → Bool
province_matches_hint p hint name =
    p.name == hint
    || (short_region_name p.name == hint || (contains_text p.name hint || starts_with name p.name))

abbrev pub first_part : List Text → Text
first_part [] = []
first_part (part ∷ parts) = part

unfoldable pub matched_provinces : Text → List ProviderProvince → List ProviderProvince
matched_provinces name provinces =
    retain (λ p. province_matches_hint p (first_part (split dash name)) name) provinces

abbrev pub head {ℓ} : {A : Type ℓ} → List A → Option A
head [] = none
head (x ∷ xs) = some x

-- `resolve_station_name_from_targeted_index` on the cities that the provider gave.
unfoldable pub resolve_station_name :
    Platform → Text → Text → List ProviderCity → Option ProviderStation
resolve_station_name platform provider_name name cities = head (
    sort_by station_stable_cmp (
      retain (λ s. any (λ candidate. candidate == name) (station_names s))
        (map
          (λ (c : ProviderCity).
            city_to_provider_station platform.digest provider_name c.provider_province_code c)
          cities)))
