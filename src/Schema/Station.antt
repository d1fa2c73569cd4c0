-- ===== src/Schema/Station.antt =====
-- weather-schema/src/station.rs: the station paths.
pub mod Paths
use weather_app.Common.{
  ◌||◌, not, List, [], ◌∷◌, ◌++◌, map, Option, none, some, ℕ, length, take, retain, if◌then◌else◌,
  eqb, or_else, ◌==◌, list_eq, nat_eq,
}
use weather_app.Common.Text.{Text, text, is_empty, split, join, trim, strip_suffix}

abbrev pub dash : ℕ
dash = b'-'

abbrev pub separator : Text
separator = dash ∷ []

-- The components of a station path, trimmed, without the empty ones.
unfoldable pub station_parts : Text → List Text
station_parts name = retain (λ part. not (is_empty part)) (map trim (split dash name))

unfoldable pub normalize_station_name : Text → Text
unfolding station_parts
normalize_station_name name = join separator (station_parts name)

unfoldable pub parent_station_name : Text → Option Text
parent_station_name name =
    let parts = split dash (normalize_station_name name) in
    if eqb (length parts) 3 then some (join separator (take 2 parts)) else none

abbrev pub unwrap_or : Option Text → Text → Text
unwrap_or none value = value
unwrap_or (some s) value = s

-- One administrative suffix: city, province, autonomous region, special administrative region.
unfoldable pub short_region_name : Text → Text
short_region_name value =
    unwrap_or
      (or_else (strip_suffix (text "市") value) (
        or_else (strip_suffix (text "省") value)
          (or_else (strip_suffix (text "自治区") value) (strip_suffix (text "特别行政区") value))))
      value

unfoldable pub canonical_station_name : Text → Text → Text
canonical_station_name province city =
    let region = short_region_name province in
    let city_level = province in
    let core = short_region_name city_level in
    if city == core || city == province
    then region ++ (separator ++ city_level)
    else region ++ (separator ++ (city_level ++ (separator ++ city)))
