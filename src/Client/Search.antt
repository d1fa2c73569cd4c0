-- ===== src/Client/Search.antt =====
-- weather-renderer/tui/src/search.rs: the filters of a search, the selector of one result, and how
-- the pages of results are combined.
pub mod Loop
pub mod Results
pub mod Limit
pub mod Ends
use weather_app.Common.{
  or_else, Bool, true, false, not, ◌&&◌, ◌||◌, List, [], ◌∷◌, ◌++◌, map, Option, none, some, ℕ, suc,
  ◌+◌, ◌-◌, length, take, get_elem?, retain, contains, if◌then◌else◌, leb, ltb, eqb, ◌==◌, list_eq,
  nat_eq, pair_eq, Key, saturating_add, first_of_each,
}
use weather_app.Common.Text.{Text, is_empty, split, rsplit_once, parse_usize}
use weather_app.Schema.Messages.{StationRef, City, Province, FuzzyMatchStationsResponse, no_results}
use weather_app.Schema.Station.{short_region_name, unwrap_or, dash}

-- The arguments of `execute_search_with` that filter the results.
pub record Filters : Type 0 where
  pub query : Option Text
  pub province : Option Text
  pub city : Option Text
  pub station : Option Text

unfoldable pub search_text_from_filters : Filters → Text
search_text_from_filters f =
    unwrap_or (or_else f.station (or_else f.city (or_else f.query f.province))) []

abbrev pub selected : Text → Text → Option ℕ → Text × Option ℕ
selected value prefix none = (value, none)
selected value prefix (some index) = if ltb 0 index then (prefix, some index) else (value, none)

unfoldable pub split_result_selector : Text → Text × Option ℕ
split_result_selector value = elim (rsplit_once b'.' value) [
  | none ↦ (value, none)
  | some (prefix, suffix) ↦ selected value prefix (parse_usize suffix)
]

-- `rfind` of the parts that are not empty.
abbrev pub last_part : List Text → Option Text
last_part [] = none
last_part (part ∷ parts) = or_else (last_part parts) (if is_empty part then none else some part)

unfoldable pub provider_query_from_search_text : Text → Text
provider_query_from_search_text value = unwrap_or (last_part (split dash value)) value

unfoldable pub station_name_matches : StationRef → Text → Bool
station_name_matches station value =
    let name = (split_result_selector value).0 in station.name == name || station.city == name

unfoldable pub station_province_matches : StationRef → Text → Bool
station_province_matches station value =
    station.province == value || short_region_name station.province == value

unfoldable pub city_province_matches : City → Text → Bool
city_province_matches city value =
    city.province == value || short_region_name city.province == value

abbrev pub is_none_or {ℓ} : {A : Type ℓ} → (A → Bool) → Option A → Bool
is_none_or p none = true
is_none_or p (some a) = p a

-- `search_text.contains('-').then_some(search_text)`.
unfoldable pub exact_path : Text → Option Text
exact_path search_text = if contains search_text dash then some search_text else none

unfoldable pub keeps_station : Filters → Text → StationRef → Bool
keeps_station f search_text item =
    is_none_or (station_province_matches item) f.province
    && (is_none_or (λ value. item.city == value) f.city
        && (is_none_or (station_name_matches item) f.station
            && is_none_or (λ value. item.name == value) (exact_path search_text)))

abbrev pub is_none {ℓ} : {A : Type ℓ} → Option A → Bool
is_none none = true
is_none (some a) = false

unfoldable pub keeps_city : Filters → Text → City → Bool
keeps_city f search_text item =
    is_none (exact_path search_text)
    && (is_none_or (city_province_matches item) f.province
        && is_none_or (λ value. item.city == value) f.city)

unfoldable pub keeps_province : Filters → Text → Province → Bool
keeps_province f search_text item =
    is_none (exact_path search_text) && is_none_or (λ value. item.name == value) f.province

unfoldable pub retain_matching_search_results :
    Filters → Text → FuzzyMatchStationsResponse → FuzzyMatchStationsResponse
retain_matching_search_results f search_text page = record page {
  stations = retain (keeps_station f search_text) page.stations;
  cities = retain (keeps_city f search_text) page.cities;
  provinces = retain (keeps_province f search_text) page.provinces;
}

unfoldable pub append_search_results :
    FuzzyMatchStationsResponse → FuzzyMatchStationsResponse → FuzzyMatchStationsResponse
append_search_results combined page = record combined {
  stations = combined.stations ++ page.stations;
  cities = combined.cities ++ page.cities;
  provinces = combined.provinces ++ page.provinces;
}

abbrev pub bar : Text
bar = b'|' ∷ []

unfoldable pub public_key : StationRef → Text
public_key item =
    if is_empty item.unified_uuid
    then item.name ++ (bar ++ (item.province ++ (bar ++ item.city)))
    else item.unified_uuid

abbrev pub station_location : StationRef → Text × Text
station_location item = (item.province, item.city)

abbrev pub city_location : City → Text × Text
city_location item = (item.province, item.city)

abbrev pub province_name : Province → Text
province_name item = item.name

-- A city in a location of a station goes first, since `&&` then inserts nothing for it.
unfoldable pub dedup_search_results : FuzzyMatchStationsResponse → FuzzyMatchStationsResponse
dedup_search_results r =
    let stations = first_of_each public_key [] r.stations in
    let locations = map station_location stations in
    record r {
      stations = stations;
      cities =
          first_of_each city_location []
            (retain (λ c. not (contains locations (city_location c))) r.cities);
      provinces = first_of_each province_name [] r.provinces;
    }

abbrev pub total_results : FuzzyMatchStationsResponse → ℕ
total_results r =
    saturating_add (saturating_add (length r.stations) (length r.cities)) (length r.provinces)

unfoldable pub search_target_reached : FuzzyMatchStationsResponse → Option ℕ → ℕ → Bool
search_target_reached r none target = leb target (total_results r)
search_target_reached r (some index) target = leb target (length r.stations)

-- `truncate` to the limit, the stations first.
unfoldable pub truncated : FuzzyMatchStationsResponse → ℕ → FuzzyMatchStationsResponse
truncated r limit =
    let stations = take limit r.stations in
    let cities = take (limit - length stations) r.cities in
    let provinces = take (limit - (length stations + length cities)) r.provinces in
    record r { stations = stations; cities = cities; provinces = provinces }

-- The station at the place of the selector, where it is in range.
abbrev pub pick : List StationRef → Option ℕ → Option StationRef
pick stations none = none
pick stations (some index) =
    if ltb 0 index && leb index (length stations) then get_elem? stations (index - 1) else none

unfoldable pub finalize_search_results :
    FuzzyMatchStationsResponse → Option ℕ → ℕ → FuzzyMatchStationsResponse
finalize_search_results r selector limit = elim (pick r.stations selector) [
  | some station ↦ record r { stations = station ∷ []; cities = []; provinces = [] }
  | none ↦ truncated r limit
]
