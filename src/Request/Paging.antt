-- ===== src/Request/Paging.antt =====
-- graphql/resolvers/resolver.go, paginate, and the page arithmetic of the resolvers in product.go,
-- magento_resolver.go and search.go. Page and page size are positive 32-bit numbers there, so that no
-- product passes 2^63.
use magento_go.Prelude.{
  ℕ, zero, suc, ◌+◌, ◌-◌, ◌*◌, ◌/◌, ◌<◌, ◌≤◌, ◌≡◌, ◌∙◌, sym, refl, ap, List, [], ◌∷◌, length, leb,
  ltb, slice, take, drop, take-append-drop, Bool-cases, inl, inr, arith, leb→le, ltb→lt,
  if◌then◌else◌,
}
use mathlib.Core.List.{flatten}
use magento_go.Prelude.Int.{ℤ, pos, negsuc}
use magento_go.Batch.Cover.{drop_past, drop-drop, slice-batch_end}

-- `ps := int(args.PageSize); if ps <= 0 { ps = 20 }`, and likewise the page with 1.
unfoldable pub positive_or : ℕ → ℤ → ℕ
positive_or default (pos zero) = default
positive_or default (pos (suc n)) = suc n
positive_or default (negsuc n) = default

module _ {ℓ} {A : Type ℓ} where
  unfoldable pub paginate : List A → ℕ → ℕ → List A
  paginate items current_page page_size =
      let start = (current_page - 1) * page_size in
      let end = start + page_size in
      if leb (length items) start
      then []
      else slice items start (if ltb (length items) end then length items else end)

-- `totalPages := (total + ps - 1) / ps; if totalPages < 1 { totalPages = 1 }`
unfoldable pub total_pages : ℕ → ℕ → ℕ
total_pages total page_size =
    let pages = (total + page_size - 1) / page_size in if ltb pages 1 then 1 else pages

total_pages-covers : (total ps : ℕ) → 0 < ps → total ≤ total_pages total ps * ps
unfolding total_pages
total_pages-covers total ps h = elim (Bool-cases (ltb ((total + ps - 1) / ps) 1)) [
  | inl e ↦
      let none_left : (total + ps - 1) / ps ≡ 0 = omega (arith, ltb→lt _ _ e) in
      let product : ps * ((total + ps - 1) / ps) ≡ 0 = ap (λ n. ps * n) none_left ∙ omega arith in
      rw e (omega (arith, product))
  | inr e ↦ rw e (omega arith)
]

module _ {ℓ} {A : Type ℓ} where
  take-nil : (n : ℕ) → take {A = A} n [] ≡ []
  take-nil zero = refl
  take-nil (suc n) = refl

  -- A page is what is left after the pages before it, cut at the page size.
  paginate_lem :
      (items : List A) (k ps : ℕ) → paginate items (suc k) ps ≡ take ps (drop (k * ps) items)
  unfolding paginate
  paginate_lem items k ps =
      let start : (suc k - 1) * ps ≡ k * ps = ap (λ n. n * ps) (omega arith) in
      elim (Bool-cases (leb (length items) (k * ps))) [
        | inl e ↦ rw (start, e, drop_past (k * ps) items (leb→le _ _ e)) (sym (take-nil ps))
        | inr e ↦ rw (start, e) (slice-batch_end ps (k * ps) items (ground arith))
      ]

  -- The pages from number `k + 1` on, `n` of them.
  abbrev pub pages_from : List A → ℕ → ℕ → ℕ → List (List A)
  pages_from items ps k zero = []
  pages_from items ps k (suc n) = paginate items (suc k) ps ∷ pages_from items ps (suc k) n

  flatten-pages_from :
      (items : List A) (ps k n : ℕ)
      → length items ≤ (k + n) * ps
      → flatten (pages_from items ps k n) ≡ drop (k * ps) items
  unfolding flatten
  flatten-pages_from items ps k zero h = sym (drop_past (k * ps) items (omega arith))
  flatten-pages_from items ps k (suc n) h =
      let next : suc k * ps ≡ k * ps + ps = omega arith in
      rw
        (
          paginate_lem items k ps,
          flatten-pages_from items ps (suc k) n (omega arith),
          next,
          ← drop-drop (k * ps) ps items,
        )
        (take-append-drop ps (drop (k * ps) items))

  -- The pages that a client is told of, one after the other, are all items, each once.
  pub paginate-total_pages :
      (items : List A) (ps : ℕ)
      → 0 < ps
      → flatten (pages_from items ps 0 (total_pages (length items) ps)) ≡ items
  paginate-total_pages items ps h =
      let pages = total_pages (length items) ps in
      let same : 0 + pages ≡ pages = omega arith in
      let start : 0 * ps ≡ 0 = omega arith in
      flatten-pages_from items ps 0 pages (rw same (total_pages-covers (length items) ps h))
      ∙ ap (λ n. drop n items) start
