-- ===== src/Engine/Limits.antt =====
-- weather-core/engine/src/limits.rs and `paginate` of weather-core/engine/src/handlers/response.rs:
-- the bounds of a request, and the page that answers it.
pub mod Pages
use weather_app.Common.{
  Bool, List, ℕ, ◌+◌, ◌%◌, ◌^◌, ◌-◌, min, length, take, drop, if◌then◌else◌, ltb, eqb,
  saturating_add, Result, ok, err,
}
use weather_app.Schema.Constants.{max_rpc_page_size, max_rpc_page_offset}

abbrev pub max_batch_queries : ℕ
max_batch_queries = 64

abbrev pub default_page_size : ℕ
default_page_size = 32

abbrev pub default_fuzzy_page_size : ℕ
default_fuzzy_page_size = 10

-- The messages, with the number that each one prints.
pub data LimitError : Type 0 where
  offset_exceeds : ℕ → LimitError
  page_size_exceeds : ℕ → LimitError
  batch_exceeds : ℕ → LimitError

unfoldable pub normalize_pagination : ℕ → ℕ → ℕ → Result (ℕ × ℕ) LimitError
normalize_pagination offset page_size default_size =
    if ltb max_rpc_page_offset offset
    then err (offset_exceeds offset)
    else let size = if eqb page_size 0 then default_size else page_size in
      if ltb max_rpc_page_size size then err (page_size_exceeds size) else ok (offset, size)

unfoldable pub validate_batch_size : ℕ → Result (Unit {0}) LimitError
validate_batch_size len = if ltb max_batch_queries len then err (batch_exceeds len) else ok tt

pub record Page {ℓ} (A : Type ℓ) : Type ℓ where
  pub items : List A
  pub has_more : Bool
  pub next_offset : ℕ

-- `next_offset` is cast to `u32`.
unfoldable pub paginate {ℓ} : {A : Type ℓ} → List A → ℕ → ℕ → Page A
paginate all offset page_size =
    let total = length all in
    let start = min offset total in
    let end = min (saturating_add start page_size) total in
    record {
      items = take (end - start) (drop start all);
      has_more = ltb end total;
      next_offset = end % 2 ^ 32;
    }
