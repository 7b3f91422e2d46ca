-- ===== src/Request/Pagination.antt =====
-- html/category.go: calculatePagination, and the part of the product ids that the page of a category
-- shows. `limit` and `p` are the texts of the query, "" where they are missing. Only the sum from which
-- the number of pages is computed can pass 2^63, for a huge limit.
pub mod Bounds
use magento_go.Prelude.{
  ℕ, zero, suc, ◌+◌, ◌-◌, ◌*◌, ◌/◌, String, Option, none, some, List, [], ◌∷◌, slice, length, ltb,
  if◌then◌else◌,
}
use magento_go.Prelude.Int.{ℤ, pos, negsuc, to_int64}
use magento_go.Prelude.Text.{atoi}

pub record PaginationData : Type 0 where
  pub page : ℕ
  pub limit : ℕ
  pub total_items : ℕ
  pub total_pages : ℤ
  pub page_numbers : List ℕ
  pub prev_page : ℕ
  pub next_page : ℤ

abbrev pub positive : ℕ → Option ℤ → ℕ
positive default none = default
positive default (some (negsuc n)) = default
positive default (some (pos n)) = if ltb 0 n then n else default

-- `if l, err := strconv.Atoi(lStr); err == nil && l > 0 { limit = l }`. An empty text does not parse.
unfoldable pub positive_param : ℕ → String → ℕ
positive_param default s = positive default (atoi s)

abbrev pub negated : ℕ → ℤ
negated zero = pos 0
negated (suc n) = negsuc n

-- Go's division of an int by a positive one, which rounds towards zero.
abbrev pub int_div : ℤ → ℕ → ℤ
int_div (pos n) d = pos (n / d)
int_div (negsuc n) d = negated (suc n / d)

-- `totalPages := (totalItems + limit - 1) / limit`
unfoldable pub page_count : ℕ → ℕ → ℤ
page_count total_items limit = int_div (to_int64 (total_items + limit - 1)) limit

-- `max(n, 1)` and `max(n, 0)`, as the tests below have them.
abbrev pub at_least_one : ℕ → ℕ
at_least_one n = if ltb n 1 then 1 else n

abbrev pub non_negative : ℤ → ℕ
non_negative (pos n) = n
non_negative (negsuc n) = 0

-- `if page > totalPages { page = totalPages }; if page < 1 { page = 1 }`
unfoldable pub clip_page : ℕ → ℤ → ℕ
clip_page page (negsuc n) = 1
clip_page page (pos n) = at_least_one (if ltb n page then n else page)

-- The first and the last page number that are shown. A number of pages below 1 shows none.
unfoldable pub page_window : ℕ → ℤ → ℕ × ℕ
page_window page total_pages =
    let start = at_least_one (page - 2) in
    let last = non_negative total_pages in
    if ltb last (start + 4) then (at_least_one (last - 4), last) else (start, start + 4)

-- `for i := startPage; i <= endPage; i++`: `n` numbers from `i` on.
unfoldable pub numbers_from : ℕ → ℕ → List ℕ
numbers_from i zero = []
numbers_from i (suc n) = i ∷ numbers_from (i + 1) n

unfoldable pub calculate_pagination : String → String → ℕ → PaginationData
calculate_pagination l_str p_str total_items =
    let limit = positive_param 20 l_str in
    let total_pages = page_count total_items limit in
    let page = clip_page (positive_param 1 p_str) total_pages in
    let (start, last) = page_window page total_pages in
    record {
      page = page;
      limit = limit;
      total_items = total_items;
      total_pages = total_pages;
      page_numbers = numbers_from start (last + 1 - start);
      prev_page = at_least_one (page - 1);
      next_page =
          (if ltb (non_negative total_pages) (page + 1) then total_pages else pos (page + 1));
    }

-- `startIdx` and `endIdx` of the handler.
unfoldable pub page_bounds : PaginationData → ℕ → ℕ × ℕ
page_bounds pagination len =
    let start = (pagination.page - 1) * pagination.limit in
    let last = start + pagination.limit in
    (if ltb len start then len else start, if ltb len last then len else last)

unfoldable pub paged_ids {ℓ} : {A : Type ℓ} → PaginationData → List A → List A
paged_ids pagination ids =
    let (start, last) = page_bounds pagination (length ids) in slice ids start last
