-- ===== src/Client/Pagination.antt =====
-- weather-renderer/common/src/pagination.rs: the cursor of a paged client request.
use weather_app.Common.{
  Bool, true, false, not, List, [], ◌∷◌, ℕ, ◌+◌, ◌/◌, ◌≤◌, ◌≡◌, ◌||◌, max, min, arith, length,
  if◌then◌else◌, ltb, leb, eqb, Result, ok, err,
}
use weather_app.Schema.Constants.{max_rpc_page_size, max_rpc_page_offset}
use weather_app.Engine.Limits.{normalize_pagination}

abbrev pub max_paginated_requests : ℕ
max_paginated_requests = max_rpc_page_offset / max_rpc_page_size + 2

pub record PageCursor : Type 0 where
  pub offset : ℕ
  pub request_count : ℕ

-- `PageCursor::default()`.
abbrev pub first_page : PageCursor
first_page = record { offset = 0; request_count = 0 }

-- The reasons of the five `bail!`s.
pub data PageError : Type 0 where
  bad_page_size : ℕ → PageError
  offset_too_large : ℕ → PageError
  too_many_requests : PageError
  not_advancing : ℕ → ℕ → PageError
  next_too_large : ℕ → PageError

-- The cursor after the call, with the offset and page size to ask for.
unfoldable pub request : PageCursor → ℕ → Result (PageCursor × (ℕ × ℕ)) PageError
request c page_size =
    if eqb page_size 0 || ltb max_rpc_page_size page_size
    then err (bad_page_size page_size)
    else if ltb max_rpc_page_offset c.offset
    then err (offset_too_large c.offset)
    else if leb max_paginated_requests c.request_count
    then err too_many_requests
    else ok (record c { request_count = c.request_count + 1 }, (c.offset, page_size))

unfoldable pub advance : PageCursor → Bool → ℕ → Result (PageCursor × Bool) PageError
advance c has_more next_offset =
    if not has_more
    then ok (c, false)
    else if leb next_offset c.offset
    then err (not_advancing c.offset next_offset)
    else if ltb max_rpc_page_offset next_offset
    then err (next_too_large next_offset)
    else ok (record c { offset = next_offset }, true)

unfoldable pub page_size_for_target : ℕ → ℕ
page_size_for_target target = min (max target 1) max_rpc_page_size

-- A cursor asks only for what the engine's `normalize_pagination` accepts as it stands.
request-normalize_pagination :
    (c c' : PageCursor) (page_size o p default_size : ℕ)
    → request c page_size ≡ ok (c', (o, p))
    → (normalize_pagination o p default_size ≡ ok (o, p))
      × (o ≡ c.offset)
      × (p ≡ page_size)
      × (c'.request_count ≡ c.request_count + 1)
unfolding request normalize_pagination
request-normalize_pagination c c' page_size o p default_size e = ground arith

-- The size for a target is always one that a fresh cursor accepts.
page_size_for_target_valid :
    (target : ℕ)
    → (1 ≤ page_size_for_target target) × (page_size_for_target target ≤ max_rpc_page_size)
unfolding page_size_for_target
page_size_for_target_valid target = omega arith

abbrev with_cursor {ℓ} :
    {A : Type ℓ}
    → Result (PageCursor × A) PageError
    → (PageCursor → Result PageCursor PageError)
    → Result PageCursor PageError
with_cursor (ok (c, a)) f = f c
with_cursor (err e) f = err e

-- Rounds that ask for a page of a size and are told of a further page at an offset.
unfoldable pub rounds : PageCursor → List (ℕ × ℕ) → Result PageCursor PageError
rounds c [] = ok c
rounds c ((size, next) ∷ rest) =
    with_cursor (request c size) (λ c'. with_cursor (advance c' true next) (λ c''. rounds c'' rest))

rounds_bounds :
    (c c' : PageCursor) (l : List (ℕ × ℕ))
    → c.request_count ≤ max_paginated_requests
    → c.offset ≤ max_rpc_page_offset
    → rounds c l ≡ ok c'
    → (c'.request_count ≡ c.request_count + length l)
      × (c'.request_count ≤ max_paginated_requests)
      × (c.offset + length l ≤ c'.offset)
      × (c'.offset ≤ max_rpc_page_offset)
unfolding rounds request advance
rounds_bounds c c' [] h k e = ground arith
rounds_bounds c c' ((size, next) ∷ rest) h k e =
    ground
      (arith, rounds_bounds (record { offset = next; request_count = c.request_count + 1 }) c' rest)

-- Rounds that all succeed from a fresh cursor are at most 392, each one a request counted and an
-- offset gone up, within the largest offset: a paged loop ends whatever the engine answers.
pub rounds_bounded :
    (l : List (ℕ × ℕ)) (c : PageCursor)
    → rounds first_page l ≡ ok c
    → (c.request_count ≡ length l)
      × (length l ≤ 392)
      × (length l ≤ c.offset)
      × (c.offset ≤ max_rpc_page_offset)
rounds_bounded l c e = ground (arith, rounds_bounds first_page c l (omega arith) (omega arith) e)
