-- ===== src/Client/Search/Limit.antt =====
-- weather-renderer/tui/src/search.rs: how many results a search gives, and the theorem on all that
-- `execute_search_with` returns.
use weather_app.Common.{
  [], ◌∷◌, Option, none, some, ℕ, ◌+◌, ◌-◌, ◌≤◌, ◌≡◌, ◌⊎◌, refl, Option-cases, arith, length, take,
  length-take, inl, inr, Result, ok, err,
}
use weather_app.Schema.Messages.{StationRef, FuzzyMatchStationsResponse}
use weather_app.Client.Search.{truncated, pick, finalize_search_results}
use weather_app.Client.Search.Results.{Clean}
use weather_app.Client.Search.Loop.{Search, SearchError, Round, finished, continues}

-- Within the limit, or the one station that the selector picked.
abbrev pub Sized : Option ℕ → ℕ → FuzzyMatchStationsResponse → Type 0
Sized selector limit r =
    (length r.stations + length r.cities + length r.provinces ≤ limit)
    ⊎ ((index : ℕ) × (station : StationRef) × (selector ≡ some index)
        × (r.stations ≡ station ∷ [])
        × (r.cities ≡ [])
        × (r.provinces ≡ []))

truncated-Sized :
    (r : FuzzyMatchStationsResponse) (selector : Option ℕ) (limit : ℕ)
    → Sized selector limit (truncated r limit)
unfolding truncated
truncated-Sized r selector limit =
    let stations = take limit r.stations in
    let cities = take (limit - length stations) r.cities in
    inl (
      omega (
        arith,
        length-take limit r.stations,
        length-take (limit - length stations) r.cities,
        length-take (limit - (length stations + length cities)) r.provinces,
      ))

pub finalize-Sized :
    (r : FuzzyMatchStationsResponse) (selector : Option ℕ) (limit : ℕ)
    → Sized selector limit (finalize_search_results r selector limit)
unfolding finalize_search_results
finalize-Sized r none limit = truncated-Sized r none limit
finalize-Sized r (some index) limit = elim (Option-cases (pick r.stations (some index))) [
  | inl none_picked ↦
      rw (none_picked, finalize_search_results) (truncated-Sized r (some index) limit)
  | inr (station, picked) ↦
      rw (picked, finalize_search_results) (inr (index, station, refl, refl, refl, refl))
]

-- What a round leaves, as results or for the next round, is clean.
abbrev CleanRound : (S F : Type 0) → Search → Round S F → Type 0
CleanRound S F q (finished (ok r)) = Clean q.filters q.search_text r
CleanRound S F q (finished (err e)) = Unit
CleanRound S F q (continues cursor combined s) = Clean q.filters q.search_text combined

abbrev CleanAnswer :
    (F : Type 0) → Search → Option (Result FuzzyMatchStationsResponse (SearchError F)) → Type 0
CleanAnswer F q none = Unit
CleanAnswer F q (some (err e)) = Unit
CleanAnswer F q (some (ok r)) = Clean q.filters q.search_text r
