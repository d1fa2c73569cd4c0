-- ===== src/Client/Search/Loop.antt =====
-- weather-renderer/tui/src/search.rs: the loop of `execute_search_with` over the pages. The request
-- to the engine is the parameter `fetch`, on a state of its own.
use weather_app.Common.{
  Bool, not, ◌||◌, Option, none, some, ℕ, zero, suc, if◌then◌else◌, eqb, Result, ok, err,
}
use weather_app.Common.Text.{Text}
use weather_app.Schema.Constants.{max_rpc_page_size}
use weather_app.Client.Pagination.{
  PageCursor, PageError, first_page, request, advance, page_size_for_target, max_paginated_requests,
}
use weather_app.Schema.Messages.{FuzzyMatchStationsRequest, FuzzyMatchStationsResponse, no_results}
use weather_app.Client.Search.{
  Filters, search_text_from_filters, split_result_selector, provider_query_from_search_text,
  retain_matching_search_results, append_search_results, dedup_search_results,
  search_target_reached, finalize_search_results,
}

pub data SearchError (F : Type 0) : Type 0 where
  paging : PageError → SearchError F
  fetching : F → SearchError F

-- What the loop keeps from the arguments.
pub record Search : Type 0 where
  pub filters : Filters
  pub search_text : Text
  pub selector : Option ℕ
  pub target : ℕ

-- A page that arrived, put with the results so far.
unfoldable pub combine :
    Search → FuzzyMatchStationsResponse → FuzzyMatchStationsResponse → FuzzyMatchStationsResponse
combine q combined page =
    let all = dedup_search_results (
      append_search_results combined
        (retain_matching_search_results q.filters q.search_text page)) in
    record all { has_more = page.has_more; next_offset = page.next_offset }

pub data Round (S F : Type 0) : Type 0 where
  finished : Result FuzzyMatchStationsResponse (SearchError F) → Round S F
  continues : PageCursor → FuzzyMatchStationsResponse → S → Round S F

module _ {S F : Type 0}
    (fetch : FuzzyMatchStationsRequest → S → S × Result FuzzyMatchStationsResponse F) where
  -- The end of the loop's body, from `cursor.advance`.
  unfoldable pub advanced :
      Search → FuzzyMatchStationsResponse → S → Result (PageCursor × Bool) PageError → Round S F
  advanced q combined s (err e) = finished (err (paging e))
  advanced q combined s (ok (cursor, can_continue)) =
      if search_target_reached combined q.selector q.target || not can_continue
      then finished (ok combined)
      else continues cursor combined s

  unfoldable pub fetched :
      Search
      → PageCursor
      → FuzzyMatchStationsResponse
      → S × Result FuzzyMatchStationsResponse F
      → Round S F
  fetched q cursor combined (s, err e) = finished (err (fetching e))
  fetched q cursor combined (s, ok page) =
      advanced q (combine q combined page) s (advance cursor page.has_more page.next_offset)

  unfoldable pub requested :
      Search → FuzzyMatchStationsResponse → S → Result (PageCursor × (ℕ × ℕ)) PageError → Round S F
  requested q combined s (err e) = finished (err (paging e))
  requested q combined s (ok (cursor, (offset, size))) = fetched q cursor combined (
      fetch
        (record {
          query = provider_query_from_search_text q.search_text;
          province = q.filters.province;
          page_offset = offset;
          page_size = size;
        })
        s)

  unfoldable pub round : Search → ℕ → PageCursor → FuzzyMatchStationsResponse → S → Round S F
  round q page_size cursor combined s = requested q combined s (request cursor page_size)

  -- `none` says that the fuel was not enough.
  unfoldable pub search_loop :
      ℕ
      → Search
      → ℕ
      → PageCursor
      → FuzzyMatchStationsResponse
      → S
      → Option (Result FuzzyMatchStationsResponse (SearchError F))
  search_loop zero q page_size cursor combined s = none
  search_loop (suc fuel) q page_size cursor combined s =
      elim (round q page_size cursor combined s) [
        | finished r ↦ some r
        | continues cursor' combined' s' ↦ search_loop fuel q max_rpc_page_size cursor' combined' s'
      ]

  abbrev pub finalized :
      Option ℕ
      → ℕ
      → Option (Result FuzzyMatchStationsResponse (SearchError F))
      → Option (Result FuzzyMatchStationsResponse (SearchError F))
  finalized selector limit none = none
  finalized selector limit (some (err e)) = some (err e)
  finalized selector limit (some (ok r)) = some (ok (finalize_search_results r selector limit))

  abbrev pub target_of : Option ℕ → ℕ → ℕ
  target_of none limit = limit
  target_of (some index) limit = index

  unfoldable pub execute_search_with :
      Filters → ℕ → S → Option (Result FuzzyMatchStationsResponse (SearchError F))
  execute_search_with f limit s =
      let (search_text, selector) = split_result_selector (search_text_from_filters f) in
      let target = target_of selector limit in
      if eqb target 0
      then some (ok no_results)
      else finalized selector limit (
          search_loop (suc max_paginated_requests)
            (record {
              filters = f;
              search_text = search_text;
              selector = selector;
              target = target;
            })
            (page_size_for_target target) first_page no_results s)
