-- ===== src/Engine/Fuzzy/Results.antt =====
-- weather-core/engine/src/handlers/fuzzy.rs: what a search of the catalog gives.
use weather_app.Common.{
  List, [], ◌∷◌, ℕ, ◌+◌, ◌*◌, ◌-◌, min, ◌^◌, ◌≤◌, ◌<◌, ◌≡◌, length-take, length-drop, drop,
  saturating_add, refl, arith, list_eq, nat_eq, pair_eq, length,
}
use weather_app.Common.Text.{Text}
use weather_app.Schema.Messages.{FuzzyMatchStationsResponse, no_results}
use weather_app.Engine.Limits.{paginate}
use weather_app.Engine.Fuzzy.{
  Platform, ProviderCatalog, SearchCandidate, station, city, province, candidate_kind_rank,
  candidate_match_rank, search_candidates, add_candidate, add_candidates, page_response, fuzzy,
}

paginate-length {ℓ} :
    {A : Type ℓ} (all : List A) (offset size : ℕ)
    → let page = paginate all offset size in
      (length page.items ≤ size)
      × (offset ≤ length all → length all < 2 ^ 32 → page.next_offset ≡ offset + length page.items)
unfolding paginate
paginate-length all offset size =
    let start = min offset (length all) in
    let end = min (saturating_add start size) (length all) in
    let taken = length-take (end - start) (drop start all) in
    let left = length-drop start all in
    (omega (arith, taken, left), λ h small. omega (arith, taken, left))

module _ (platform : Platform) (query : Text) where
  -- Stations, cities and provinces in this order; in each, by how well they match.
  abbrev pub relevance : SearchCandidate → ℕ
  relevance c = 3 * candidate_kind_rank c + candidate_match_rank platform c query

  add_candidates-length :
      (items : List SearchCandidate) (r : FuzzyMatchStationsResponse)
      → let r' = add_candidates items r in
        length r'.stations + length r'.cities + length r'.provinces
        ≡ length items + (length r.stations + length r.cities + length r.provinces)
  unfolding add_candidates add_candidate
  add_candidates-length [] r = omega arith
  add_candidates-length (station s ∷ items) r = omega (arith, add_candidates-length items r)
  add_candidates-length (city c ∷ items) r = omega (arith, add_candidates-length items r)
  add_candidates-length (province p ∷ items) r = omega (arith, add_candidates-length items r)

  add_candidates-next :
      (items : List SearchCandidate) (r : FuzzyMatchStationsResponse)
      → (add_candidates items r).next_offset ≡ r.next_offset
  unfolding add_candidates add_candidate
  add_candidates-next [] r = refl
  add_candidates-next (station s ∷ items) r = add_candidates-next items r
  add_candidates-next (city c ∷ items) r = add_candidates-next items r
  add_candidates-next (province p ∷ items) r = add_candidates-next items r

  -- A page of a search has no more results than were asked for, and names the place where the next
  -- page starts: after the results so far, if there are fewer than 2^32.
  pub fuzzy_page :
      (provider_name : Text) (catalog : ProviderCatalog) (offset page_size : ℕ)
      → let r = fuzzy platform provider_name catalog query offset page_size in
        let total = length (search_candidates platform provider_name catalog query) in
        (length r.stations + length r.cities + length r.provinces ≤ page_size)
        × (offset ≤ total
            → total < 2 ^ 32
            → r.next_offset ≡ offset + (length r.stations + length r.cities + length r.provinces))
  unfolding fuzzy page_response
  fuzzy_page provider_name catalog offset page_size =
      let all = search_candidates platform provider_name catalog query in
      let page = paginate all offset page_size in
      let r = record no_results { has_more = page.has_more; next_offset = page.next_offset } in
      let sum = add_candidates-length page.items r in
      let items = paginate-length all offset page_size in
      (
        omega (arith, sum, items.0),
        λ h small. omega (arith, add_candidates-next page.items r, sum, items.1 h small),
      )
