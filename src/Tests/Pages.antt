-- ===== src/Tests/Pages.antt =====
-- The paged requests of the client and their answers at concrete inputs.
use weather_app.Common.{List, [], ◌∷◌, ℕ, ◌≤◌, ◌≡◌, refl, arith, length}
use weather_app.Schema.Constants.{max_rpc_page_offset}
use weather_app.Engine.Limits.Pages.{gather, gather_all}
use weather_app.Client.Pagination.{PageCursor, request, advance, rounds, rounds_bounded}

abbrev five : List ℕ
five = 1 ∷ 2 ∷ 3 ∷ 4 ∷ 5 ∷ []

gather_all_example : gather 6 five 0 2 ≡ five
gather_all_example = gather_all five 2 6 (omega arith) (omega arith) (omega arith)

abbrev third_page : PageCursor
third_page = record { offset = 512; request_count = 2 }

abbrev two_rounds : List (ℕ × ℕ)
two_rounds = (256, 256) ∷ (256, 512) ∷ []

rounds_bounded_example :
    (third_page.request_count ≡ length two_rounds)
    × (length two_rounds ≤ 392)
    × (length two_rounds ≤ 512)
    × (512 ≤ max_rpc_page_offset)
unfolding rounds request advance
rounds_bounded_example = rounds_bounded two_rounds (record { offset = 512; request_count = 2 }) refl
