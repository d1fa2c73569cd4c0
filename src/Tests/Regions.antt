-- ===== src/Tests/Regions.antt =====
-- weather-core/engine/src/handlers/compatibility.rs at concrete inputs.
use weather_app.Common.{
  true, false, List, [], ◌∷◌, map, ℕ, zero, suc, ◌≤◌, ◌≡◌, ◌⊎◌, refl, length, All, Result, ok, err,
}
use weather_app.Common.Text.{Text, text}
use weather_app.Schema.Constants.{max_rpc_page_size}
use weather_app.Engine.Compatibility.{
  RegionQuery, BatchRegionPage, BadRequest, handle_batch_list_regions, fetch_pages,
  fetch_legacy_region_page, normalize_queries,
}
use weather_app.Engine.Compatibility.Batch.{served, handle_batch_list_regions-served}
use weather_app.Engine.Limits.{normalize_pagination, validate_batch_size}

-- A catalog that counts its calls, and knows no cities when it is called first.
abbrev count_calls : Text → ℕ → ℕ × Result (List ℕ) Text
count_calls province zero = (1, err (text "offline"))
count_calls province (suc n) = (suc (suc n), ok (7 ∷ 8 ∷ 9 ∷ []))

abbrev queries : List RegionQuery
queries =
    record { province = text "AHE"; page_offset = 0; page_size = 2 }
    ∷ record { province = text "ABJ"; page_offset = 1; page_size = 0 }
    ∷ []

two_calls : (handle_batch_list_regions count_calls (ok queries) 0).0 ≡ 2
unfolding handle_batch_list_regions validate_batch_size normalize_queries normalize_pagination
    fetch_pages fetch_legacy_region_page
two_calls = refl

handle_batch_list_regions-served_example :
    ((served queries ≡ true)
      × (pages : List (BatchRegionPage ℕ)) × ((handle_batch_list_regions count_calls
            (ok queries)
            0).1
          ≡ ok pages)
      × (map (λ p. p.province) pages ≡ text "AHE" ∷ text "ABJ" ∷ [])
      × All (λ p. length p.cities ≤ max_rpc_page_size) pages)
    ⊎ ((served queries ≡ false)
        × (e : BadRequest) × (handle_batch_list_regions count_calls (ok queries) 0 ≡ (0, err e)))
handle_batch_list_regions-served_example = handle_batch_list_regions-served count_calls queries 0
