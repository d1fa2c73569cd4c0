-- ===== src/Engine/Compatibility.antt =====
-- weather-core/engine/src/handlers/compatibility.rs: the request for the cities of several provinces.
-- `list_cities` of the catalog's handlers is a parameter that works on a state of its own.
pub mod Batch
use weather_app.Common.{
  Bool, true, false, List, [], ◌∷◌, Option, none, some, ℕ, ◌%◌, ◌^◌, length, Result, ok, err,
}
use weather_app.Common.Text.{Text}
use weather_app.Engine.Limits.{
  LimitError, default_page_size, normalize_pagination, validate_batch_size, Page, paginate,
}

-- `BatchRegionQuery`: the numbers are `u32`.
pub record RegionQuery : Type 0 where
  pub province : Text
  pub page_offset : ℕ
  pub page_size : ℕ

pub record BatchRegionPage (A : Type 0) : Type 0 where
  pub province : Text
  pub cities : List A
  pub has_more : Bool
  pub next_offset : ℕ
  pub error : Option Text

-- Why a request is answered with BAD_REQUEST.
pub data BadRequest : Type 0 where
  undecodable : Text → BadRequest
  out_of_bounds : LimitError → BadRequest

abbrev pub add_query :
    Text
    → Result (ℕ × ℕ) LimitError
    → Result (List (Text × ℕ × ℕ)) LimitError
    → Result (List (Text × ℕ × ℕ)) LimitError
add_query province (err e) rest = err e
add_query province (ok (offset, size)) (err e) = err e
add_query province (ok (offset, size)) (ok queries) = ok ((province, offset, size) ∷ queries)

-- The first loop: the first query that is out of bounds refuses the request.
unfoldable pub normalize_queries : List RegionQuery → Result (List (Text × ℕ × ℕ)) LimitError
normalize_queries [] = ok []
normalize_queries (q ∷ queries) =
    add_query q.province (normalize_pagination q.page_offset q.page_size default_page_size)
      (normalize_queries queries)

unfoldable pub region_page : {A : Type 0} → Text → ℕ → ℕ → Result (List A) Text → BatchRegionPage A
region_page province offset page_size (ok all) =
    let page = paginate all offset page_size in
    record {
      province = province;
      cities = page.items;
      has_more = page.has_more;
      next_offset = page.next_offset;
      error = none;
    }
region_page province offset page_size (err e) = record {
  province = province;
  cities = [];
  has_more = false;
  next_offset = offset % 2 ^ 32;
  error = some e;
}

module _ {S A : Type 0} (list_cities : Text → S → S × Result (List A) Text) where
  unfoldable pub fetch_legacy_region_page : Text → ℕ → ℕ → S → S × BatchRegionPage A
  fetch_legacy_region_page province offset page_size s =
      let (s', answer) = list_cities province s in
      (s', region_page province offset page_size answer)

  -- The second loop: one fetch after another.
  unfoldable pub fetch_pages : List (Text × ℕ × ℕ) → S → S × List (BatchRegionPage A)
  fetch_pages [] s = (s, [])
  fetch_pages ((province, offset, page_size) ∷ queries) s =
      let (s', page) = fetch_legacy_region_page province offset page_size s in
      let (s'', pages) = fetch_pages queries s' in (s'', page ∷ pages)

  abbrev pub answer_queries :
      Result (List (Text × ℕ × ℕ)) LimitError → S → S × Result (List (BatchRegionPage A)) BadRequest
  answer_queries (err e) s = (s, err (out_of_bounds e))
  answer_queries (ok queries) s = let (s', pages) = fetch_pages queries s in (s', ok pages)

  abbrev pub within_batch :
      Result (Unit {0}) LimitError
      → List RegionQuery
      → S
      → S × Result (List (BatchRegionPage A)) BadRequest
  within_batch (err e) queries s = (s, err (out_of_bounds e))
  within_batch (ok u) queries s = answer_queries (normalize_queries queries) s

  -- The request is given as the result of its decoding.
  unfoldable pub handle_batch_list_regions :
      Result (List RegionQuery) Text → S → S × Result (List (BatchRegionPage A)) BadRequest
  handle_batch_list_regions (err e) s = (s, err (undecodable e))
  handle_batch_list_regions (ok queries) s =
      within_batch (validate_batch_size (length queries)) queries s
