-- ===== src/Html/Product/Unknown.antt =====
-- The page of html/product.go for products that are not there.
use magento_go.Prelude.{
  ℕ, ◌<◌, ◌≡◌, ◌∙◌, refl, ap, true, String, Option, none, List, [], ◌∷◌, length, nat_eq, arith,
  if◌then◌else◌,
}
use magento_go.Prelude.Dict.{lookup, asked, ==_refl}
use magento_go.Prelude.Fallible.{Result, err, ok, map_ok}
use magento_go.Prelude.Panic.{done, panic}
use magento_go.Product.Value.{Flat}
use magento_go.Product.Flat.{Product}
use magento_go.Product.Repo.{
  Flats, code_map_once, index_products, fetch_flat_products, fetch_with_all_attributes_flat_by_ids,
}
use magento_go.Product.Repo
use magento_go.Product.Repo.Exact.{Answers, fetch_flat_products-exact}
use magento_go.Category.Repo as CategoryRepo
use magento_go.Html.Product.{ids_of_param, show_products, render, handle_product}

module _ {E F T : Type 0} (truncate : F → ℕ) (cats : CategoryRepo.Db E) where
  show_products-none :
      (find : ℕ → Option (Flat F T)) (ids : List ℕ) (s : CategoryRepo.State)
      → ((id : ℕ) → asked id ids ≡ true → find id ≡ none)
      → show_products truncate cats find ids s ≡ (s, done [])
  unfolding show_products
  show_products-none find [] s h = refl
  show_products-none find (id ∷ ids) s h =
      rw (h id (ground (arith, ==_refl id)), show_products)
        (show_products-none find ids s (λ k a. h k (ground (arith, a))))

  render-none :
      (fuel : ℕ) (ids : List ℕ) (s : CategoryRepo.State) (r : Repo.State F T × Result E (Flats F T))
      → ((id : ℕ) → map_ok (lookup id) r.1 ≡ ok none)
      → (render truncate cats fuel ids s r).2
        ≡ panic "runtime error: index out of range [0] with length 0"
  render-none fuel ids s (products, err e) h = absurd (cc (h 0))
  render-none fuel ids s (products, ok flats) h =
      rw (show_products-none (λ id. lookup id flats) ids s (λ id a. cc (h id))) refl

  -- Without the cache: where the path names a product's id, but no product of the table has one of the
  -- ids named, the page's title is taken from the first of no products, and the call panics.
  pub handle_product-unknown :
      (db : Repo.Db E F T) (fuel : ℕ) (param : String) (products : Repo.State F T)
      (s : CategoryRepo.State) (table : List (Product F T))
      → Answers db 0 table
      → 0 < length (ids_of_param param)
      → ((id : ℕ)
          → (if asked id (ids_of_param param)
              then lookup id (index_products (code_map_once db products.code_map) table [])
              else none)
            ≡ none)
      → (handle_product truncate cats db true fuel param products s).2
        ≡ panic "runtime error: index out of range [0] with length 0"
  unfolding handle_product fetch_with_all_attributes_flat_by_ids
  handle_product-unknown db fuel param products s table ans named unknown =
      render-none fuel (ids_of_param param) s
        (fetch_flat_products db (ids_of_param param) 0 products)
        (λ id.
          fetch_flat_products-exact db 0 table ans (ids_of_param param) products id named
          ∙ ap ok (unknown id))
