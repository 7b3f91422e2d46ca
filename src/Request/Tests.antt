-- ===== src/Request/Tests.antt =====
-- Pages and stores of small requests.
use magento_go.Prelude.{ℕ, ◌+◌, ◌<◌, ◌≤◌, ◌≡◌, refl, true, List, [], ◌∷◌, length, any, eqb, arith}
use mathlib.Core.List.{flatten}
use magento_go.Prelude.Text.{parse_uint, atoi}
use magento_go.Prelude.Int.{to_int64}
use magento_go.Request.Paging.{paginate, total_pages, pages_from, paginate-total_pages}
use magento_go.Request.Pagination.{
  positive_param, page_count, clip_page, page_window, numbers_from, calculate_pagination,
  page_bounds,
}
use magento_go.Request.Pagination.Bounds.{calculate_pagination-shows}

abbrev five : List ℕ
five = 1 ∷ 2 ∷ 3 ∷ 4 ∷ 5 ∷ []

last_page : paginate five 3 2 ≡ 5 ∷ []
unfolding paginate
last_page = refl

paginate-total_pages_example : flatten (pages_from five 2 0 (total_pages (length five) 2)) ≡ five
paginate-total_pages_example = paginate-total_pages five 2 (omega arith)

-- The last page of five products, where the query asks for the ninth.
ninth : (calculate_pagination "2" "9" 5).page_numbers ≡ 1 ∷ 2 ∷ 3 ∷ []
unfolding calculate_pagination positive_param atoi parse_uint page_count to_int64 clip_page
    page_window numbers_from
ninth = refl

calculate_pagination-shows_example :
    let d = calculate_pagination "2" "9" 5 in
    let (start, last) = page_bounds d 5 in
    (start < last)
    × (last ≤ 5)
    × (last ≤ start + d.limit)
    × (any (λ m. eqb m d.page) d.page_numbers ≡ true)
    × (length d.page_numbers ≤ 5)
unfolding positive_param atoi parse_uint
calculate_pagination-shows_example =
    calculate_pagination-shows "2" "9" 5 (omega arith) (omega arith)
