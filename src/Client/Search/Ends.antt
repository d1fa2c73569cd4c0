-- ===== src/Client/Search/Ends.antt =====
-- weather-renderer/tui/src/search.rs: the loop of a search ends.
use weather_app.Common.{
  true, Option, none, some, ℕ, zero, suc, ◌+◌, ◌≤◌, ◌≡◌, refl, Bool-cases, arith, is_some, Result,
  ok, err, eqb, inl, inr,
}
use weather_app.Schema.Constants.{max_rpc_page_size}
use weather_app.Client.Pagination.{
  PageCursor, PageError, first_page, request, advance, max_paginated_requests,
}
use weather_app.Schema.Messages.{FuzzyMatchStationsRequest, FuzzyMatchStationsResponse, no_results}
use weather_app.Client.Search.{Filters, search_text_from_filters, split_result_selector}
use weather_app.Client.Search.Loop.{
  Search, SearchError, Round, finished, continues, round, requested, fetched, advanced, search_loop,
  finalized, target_of, execute_search_with,
}

-- A round that goes on has counted one request more, within the bound.
module _ {S F : Type 0} where
  abbrev Counted : ℕ → Round S F → Type 0
  Counted count (finished r) = Unit
  Counted count (continues cursor combined s) =
      (cursor.request_count ≡ count + 1) × (count + 1 ≤ max_paginated_requests)

request-counts :
    (c : PageCursor) (page_size : ℕ) (c' : PageCursor) (o p : ℕ)
    → request c page_size ≡ ok (c', (o, p))
    → (c'.request_count ≡ c.request_count + 1) × (c.request_count + 1 ≤ max_paginated_requests)
unfolding request
request-counts c page_size c' o p e = ground arith

module _ {S F : Type 0}
    (fetch : FuzzyMatchStationsRequest → S → S × Result FuzzyMatchStationsResponse F) where
  advanced-Counted :
      (q : Search) (combined : FuzzyMatchStationsResponse) (s : S) (c : PageCursor) (has_more : _)
      (next count : ℕ)
      → c.request_count ≡ count + 1
      → count + 1 ≤ max_paginated_requests
      → Counted count (advanced fetch q combined s (advance c has_more next))
  unfolding advanced advance
  advanced-Counted q combined s c has_more next count h b = ground arith

  fetched-Counted :
      (q : Search) (c : PageCursor) (combined : FuzzyMatchStationsResponse)
      (answer : S × Result FuzzyMatchStationsResponse F) (count : ℕ)
      → c.request_count ≡ count + 1
      → count + 1 ≤ max_paginated_requests
      → Counted count (fetched fetch q c combined answer)
  unfolding fetched
  fetched-Counted q c combined (s, err e) count h b = tt
  fetched-Counted q c combined (s, ok page) count h b =
      advanced-Counted q _ s c page.has_more page.next_offset count h b

  requested-Counted :
      (q : Search) (combined : FuzzyMatchStationsResponse) (s : S) (count : ℕ)
      (answer : Result (PageCursor × (ℕ × ℕ)) PageError)
      → ((c : PageCursor) (o p : ℕ)
          → answer ≡ ok (c, (o, p))
          → (c.request_count ≡ count + 1) × (count + 1 ≤ max_paginated_requests))
      → Counted count (requested fetch q combined s answer)
  unfolding requested
  requested-Counted q combined s count (err e) h = tt
  requested-Counted q combined s count (ok (c, (o, p))) h =
      let (up, within) = h c o p refl in fetched-Counted q c combined _ count up within

  round-Counted :
      (q : Search) (page_size : ℕ) (c : PageCursor) (combined : FuzzyMatchStationsResponse) (s : S)
      → Counted c.request_count (round fetch q page_size c combined s)
  unfolding round
  round-Counted q page_size c combined s =
      requested-Counted q combined s c.request_count (request c page_size)
        (request-counts c page_size)

  -- One more round than requests are allowed is enough.
  search_loop-ends :
      (fuel : ℕ) (q : Search) (page_size : ℕ) (c : PageCursor)
      (combined : FuzzyMatchStationsResponse) (s : S)
      → c.request_count ≤ max_paginated_requests
      → suc max_paginated_requests ≤ fuel + c.request_count
      → is_some (search_loop fetch fuel q page_size c combined s) ≡ true
  unfolding search_loop
  search_loop-ends zero q page_size c combined s h b = absurd (omega arith)
  search_loop-ends (suc fuel) q page_size c combined s h b =
      goes_on (round fetch q page_size c combined s) (round-Counted q page_size c combined s)
        (λ c' combined' s' up within.
          search_loop-ends fuel q max_rpc_page_size c' combined' s' (omega arith) (omega arith))
    where
      goes_on :
          (r : Round S F)
          → Counted c.request_count r
          → ((c' : PageCursor) (combined' : FuzzyMatchStationsResponse) (s' : S)
              → c'.request_count ≡ c.request_count + 1
              → c.request_count + 1 ≤ max_paginated_requests
              → is_some (search_loop fetch fuel q max_rpc_page_size c' combined' s') ≡ true)
          → is_some (elim r [
            | finished answer ↦ some answer
            | continues c' combined' s' ↦ search_loop fetch fuel q max_rpc_page_size c' combined' s'
          ])
            ≡ true
      goes_on (finished answer) up ends = refl
      goes_on (continues c' combined' s') (up, within) ends = ends c' combined' s' up within

  finalized-is_some :
      (selector : Option ℕ) (limit : ℕ)
      (o : Option (Result FuzzyMatchStationsResponse (SearchError F)))
      → is_some o ≡ true
      → is_some (finalized fetch selector limit o) ≡ true
  finalized-is_some selector limit none h = h
  finalized-is_some selector limit (some (ok r)) h = refl
  finalized-is_some selector limit (some (err e)) h = refl

  -- A search ends with results or an error within 393 rounds, whatever the engine answers.
  pub execute_search_with_ends :
      (f : Filters) (limit : ℕ) (s : S) → is_some (execute_search_with fetch f limit s) ≡ true
  unfolding execute_search_with
  execute_search_with_ends f limit s =
      let (search_text, selector) = split_result_selector (search_text_from_filters f) in
      elim (Bool-cases (eqb (target_of fetch selector limit) 0)) [
        | inl nothing ↦ rw nothing refl
        | inr wanted ↦ rw wanted (
            finalized-is_some selector limit _ (
              search_loop-ends (suc max_paginated_requests) _ _ first_page no_results s
                (omega arith) (omega arith)))
      ]
