-- ===== src/Request/Pagination/Bounds.antt =====
-- The page that html/category.go shows.
use magento_go.Prelude.{
  ℕ, zero, suc, ◌+◌, ◌-◌, ◌*◌, ◌/◌, ◌<◌, ◌≤◌, ◌≡◌, ◌∙◌, refl, String, true, Option, none, some,
  length, any, ltb, leb, eqb, ◌&&◌, arith,
}
use magento_go.Prelude.Int.{ℤ, pos, negsuc, two_63, to_int64_small}
use magento_go.Prelude.Text.{atoi}
use magento_go.Request.Pagination.{
  positive, positive_param, page_count, clip_page, page_window, numbers_from, calculate_pagination,
  page_bounds,
}

positive-pos : (default : ℕ) (o : Option ℤ) → 0 < default → 0 < positive default o
positive-pos default none h = h
positive-pos default (some (negsuc n)) h = h
positive-pos default (some (pos n)) h = ground arith

positive_param-pos : (default : ℕ) (s : String) → 0 < default → 0 < positive_param default s
unfolding positive_param
positive_param-pos default s h = positive-pos default (atoi s) h

length-numbers_from : (i n : ℕ) → length (numbers_from i n) ≡ n
unfolding numbers_from
length-numbers_from i zero = refl
length-numbers_from i (suc n) = omega (arith, length-numbers_from (i + 1) n)

page_count_small :
    (total limit : ℕ)
    → total + limit < two_63
    → page_count total limit ≡ pos ((total + limit - 1) / limit)
unfolding page_count
page_count_small total limit h = rw (to_int64_small (total + limit - 1) (omega arith)) refl

-- The page is among the pages, and the window holds it.
window_lem :
    (page pages : ℕ)
    → 0 < page
    → 0 < pages
    → let p = clip_page page (pos pages) in
      let (start, last) = page_window p (pos pages) in
      (0 < p)
      × (p ≤ pages)
      × (0 < start)
      × (start ≤ p)
      × (p ≤ last)
      × (last ≤ pages)
      × (last ≤ start + 4)
unfolding clip_page page_window
window_lem page pages h k = (
  ground arith,
  ground arith,
  ground arith,
  ground arith,
  ground arith,
  ground arith,
  ground arith,
)

any-numbers_from : (p i n : ℕ) → any (λ m. eqb m p) (numbers_from i n) ≡ (leb i p && ltb p (i + n))
unfolding numbers_from
any-numbers_from p i zero = ground arith
any-numbers_from p i (suc n) = ground (arith, any-numbers_from p (i + 1) n)

start_in_range :
    (total limit p : ℕ)
    → 0 < limit
    → 0 < total
    → 0 < p
    → p ≤ (total + limit - 1) / limit
    → (p - 1) * limit < total
start_in_range total limit p a b c d = grind arith

pages-pos : (total limit : ℕ) → 0 < limit → 0 < total → 0 < (total + limit - 1) / limit
pages-pos total limit a b = grind arith

-- A category with products, and a limit that does not bring the sum to 2^63: whatever page the query
-- asks for, the page that is shown has at least one product and at most `limit`, all within the
-- list; and its number stands in the list of page numbers, which has at most five.
pub calculate_pagination-shows :
    (l_str p_str : String) (total : ℕ)
    → 0 < total
    → total + positive_param 20 l_str < two_63
    → let d = calculate_pagination l_str p_str total in
      let (start, last) = page_bounds d total in
      (start < last)
      × (last ≤ total)
      × (last ≤ start + d.limit)
      × (any (λ m. eqb m d.page) d.page_numbers ≡ true)
      × (length d.page_numbers ≤ 5)
unfolding calculate_pagination page_bounds
calculate_pagination-shows l_str p_str total h k =
    let limit = positive_param 20 l_str in
    let pages = (total + limit - 1) / limit in
    let asked = positive_param 1 p_str in
    let limit_pos = positive_param-pos 20 l_str (omega arith) in
    let w =
      window_lem asked pages (positive_param-pos 1 p_str (omega arith))
        (pages-pos total limit limit_pos h) in
    let p = clip_page asked (pos pages) in
    let window = page_window p (pos pages) in
    let start_ok = start_in_range total limit p limit_pos h w.0 w.1 in
    rw (page_count_small total limit k) (
      ground arith,
      ground arith,
      ground arith,
      any-numbers_from p window.0 (window.1 + 1 - window.0) ∙ ground (arith, w.3, w.4),
      omega (arith, length-numbers_from window.0 (window.1 + 1 - window.0), w.6),
    )
