-- ===== src/Tests/Search.antt =====
-- weather-renderer/tui/src/search.rs at concrete inputs.
use weather_app.Common.{true, [], ◌∷◌, none, some, ℕ, zero, suc, ◌≡◌, refl, is_some, Result, ok}
use weather_app.Common.Text.{Text, text, parse_usize, rsplit_once}
use weather_app.Schema.Messages.{
  StationRef, FuzzyMatchStationsRequest, FuzzyMatchStationsResponse, no_results,
}
use weather_app.Client.Search.{Filters, split_result_selector}
use weather_app.Client.Search.Loop.{execute_search_with}
use weather_app.Client.Search.Ends.{execute_search_with_ends}

abbrev station : Text → StationRef
station name = record {
  province = text "hubei";
  city = text "wuhan";
  name = name;
  unified_uuid = name;
}

-- An engine of two pages, the first station on both.
abbrev answer : FuzzyMatchStationsRequest → ℕ → ℕ × Result FuzzyMatchStationsResponse ℕ
answer r zero = (
  1,
  ok (record no_results {
    stations = station (text "a") ∷ station (text "b") ∷ [];
    has_more = true;
    next_offset = 2;
  }),
)
answer r (suc n) =
    (2, ok (record no_results { stations = station (text "a") ∷ station (text "c") ∷ [] }))

abbrev filters : Filters
filters = record { query = some (text "w"); province = none; city = none; station = none }

third : split_result_selector (text "w.3") ≡ (text "w", some 3)
unfolding split_result_selector rsplit_once parse_usize
third = refl

abbrev found : FuzzyMatchStationsResponse
found = record no_results {
  stations = station (text "a") ∷ station (text "b") ∷ station (text "c") ∷ [];
}

execute_search_with_ends_example : is_some (execute_search_with answer filters 5 0) ≡ true
execute_search_with_ends_example = execute_search_with_ends answer filters 5 0
