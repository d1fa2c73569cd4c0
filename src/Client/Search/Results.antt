-- ===== src/Client/Search/Results.antt =====
-- weather-renderer/tui/src/search.rs: what the combined results of a search are.
use weather_app.Common.{
  Bool, true, not, List, [], ◌∷◌, ◌++◌, map, Option, none, some, ℕ, zero, suc, ◌-◌, ◌≡◌, refl,
  Option-cases, arith, length, take, get_elem?, all, contains, distinct, list_eq, nat_eq, pair_eq,
  inl, inr, all-append, all-retain, all-retain_keeps, all-take, all-imp, contains-map-take,
  distinct-map-take, first_of_each-distinct, first_of_each-all,
}
use weather_app.Common.Text.{Text}
use weather_app.Schema.Messages.{StationRef, FuzzyMatchStationsResponse, no_results}
use weather_app.Client.Search.{
  Filters, keeps_station, keeps_city, keeps_province, retain_matching_search_results,
  append_search_results, public_key, station_location, city_location, province_name,
  dedup_search_results, truncated, pick, finalize_search_results,
}

-- No result twice, no city where there is a station, and nothing that the filters leave out.
pub record Clean (f : Filters) (search_text : Text) (r : FuzzyMatchStationsResponse) : Type 0 where
  pub stations_once : distinct (map public_key r.stations) ≡ true
  pub cities_once : distinct (map city_location r.cities) ≡ true
  pub provinces_once : distinct (map province_name r.provinces) ≡ true
  pub apart :
      all (λ c. not (contains (map station_location r.stations) (city_location c))) r.cities ≡ true
  pub stations_match : all (keeps_station f search_text) r.stations ≡ true
  pub cities_match : all (keeps_city f search_text) r.cities ≡ true
  pub provinces_match : all (keeps_province f search_text) r.provinces ≡ true

get_elem?-passes {ℓ} :
    {A : Type ℓ} (p : A → Bool) (xs : List A) (i : ℕ) (a : A)
    → all p xs ≡ true
    → get_elem? xs i ≡ some a
    → p a ≡ true
get_elem?-passes p [] i a h g = cc
get_elem?-passes p (x ∷ xs) zero a h g = ground (arith, g)
get_elem?-passes p (x ∷ xs) (suc i) a h g = ground (arith, get_elem?-passes p xs i a)

pick-passes :
    (p : StationRef → Bool) (stations : List StationRef) (selector : Option ℕ) (a : StationRef)
    → all p stations ≡ true
    → pick stations selector ≡ some a
    → p a ≡ true
pick-passes p stations none a h g = cc
pick-passes p stations (some index) a h g =
    ground (arith, get_elem?-passes p stations (index - 1) a)

module _ (f : Filters) (search_text : Text) where
  pub no_results-Clean : Clean f search_text no_results
  no_results-Clean = record {
    stations_once = refl;
    cities_once = refl;
    provinces_once = refl;
    apart = refl;
    stations_match = refl;
    cities_match = refl;
    provinces_match = refl;
  }

  -- A further page: only the matching of the results so far is used, the rest is made anew.
  pub combined-Clean :
      (r page : FuzzyMatchStationsResponse)
      → Clean f search_text r
      → Clean f search_text (
          dedup_search_results
            (append_search_results r (retain_matching_search_results f search_text page)))
  unfolding dedup_search_results append_search_results retain_matching_search_results
  combined-Clean r page c = record {
    stations_once = first_of_each-distinct public_key [] _;
    cities_once = first_of_each-distinct city_location [] _;
    provinces_once = first_of_each-distinct province_name [] _;
    apart = first_of_each-all city_location _ [] _ (all-retain _ (r.cities ++ _));
    stations_match =
        first_of_each-all public_key _ [] _
          (all-append _ r.stations _ c.stations_match (all-retain _ page.stations));
    cities_match = first_of_each-all city_location _ [] _ (
        all-retain_keeps _ _ (r.cities ++ _)
          (all-append _ r.cities _ c.cities_match (all-retain _ page.cities)));
    provinces_match =
        first_of_each-all province_name _ [] _
          (all-append _ r.provinces _ c.provinces_match (all-retain _ page.provinces));
  }

  pub truncated-Clean :
      (r : FuzzyMatchStationsResponse) (limit : ℕ)
      → Clean f search_text r
      → Clean f search_text (truncated r limit)
  unfolding truncated
  truncated-Clean r limit c = record {
    stations_once = distinct-map-take public_key limit r.stations c.stations_once;
    cities_once = distinct-map-take city_location _ r.cities c.cities_once;
    provinces_once = distinct-map-take province_name _ r.provinces c.provinces_once;
    apart =
        all-imp (λ c. not (contains (map station_location r.stations) (city_location c)))
          (λ c. not (contains (map station_location (take limit r.stations)) (city_location c)))
          (take (limit - length (take limit r.stations)) r.cities)
          (λ a h.
            ground (arith, contains-map-take station_location limit r.stations (city_location a)))
          (all-take _ _ r.cities c.apart);
    stations_match = all-take _ limit r.stations c.stations_match;
    cities_match = all-take _ _ r.cities c.cities_match;
    provinces_match = all-take _ _ r.provinces c.provinces_match;
  }

  pub paged-Clean :
      (r : FuzzyMatchStationsResponse) (has_more : Bool) (next_offset : ℕ)
      → Clean f search_text r
      → Clean f search_text (record r { has_more = has_more; next_offset = next_offset })
  paged-Clean r has_more next_offset c = record {
    stations_once = c.stations_once;
    cities_once = c.cities_once;
    provinces_once = c.provinces_once;
    apart = c.apart;
    stations_match = c.stations_match;
    cities_match = c.cities_match;
    provinces_match = c.provinces_match;
  }

  picked-Clean :
      (r : FuzzyMatchStationsResponse) (station : StationRef)
      → keeps_station f search_text station ≡ true
      → Clean f search_text (record r { stations = station ∷ []; cities = []; provinces = [] })
  picked-Clean r station h = record {
    stations_once = refl;
    cities_once = refl;
    provinces_once = refl;
    apart = refl;
    stations_match = ground (arith, h);
    cities_match = refl;
    provinces_match = refl;
  }

  pub finalize-Clean :
      (r : FuzzyMatchStationsResponse) (selector : Option ℕ) (limit : ℕ)
      → Clean f search_text r
      → Clean f search_text (finalize_search_results r selector limit)
  unfolding finalize_search_results
  finalize-Clean r selector limit c = elim (Option-cases (pick r.stations selector)) [
    | inl none_picked ↦ rw (none_picked, finalize_search_results) (truncated-Clean r limit c)
    | inr (station, picked) ↦
        rw (picked, finalize_search_results)
          (picked-Clean r station (
            pick-passes (keeps_station f search_text) r.stations selector station c.stations_match
              picked))
  ]
