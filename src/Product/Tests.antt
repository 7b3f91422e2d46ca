-- ===== src/Product/Tests.antt =====
-- Runs of the product repository, and instances of its theorems.
use magento_go.Prelude.{
  ℕ, ◌≡◌, refl, false, String, none, some, List, [], ◌∷◌, nat_eq, string_eq, arith, is_empty,
  if◌then◌else◌,
}
use magento_go.Prelude.Dict.{Dict, lookup, insert, asked}
use magento_go.Prelude.Index.{index_by}
use magento_go.Prelude.Fallible.{ok, map_ok}
use magento_go.Batch.{batches, batches_from}
use magento_go.Product.Value.{str, scalar, Flat}
use magento_go.Product.Flat.{flatten_product, attr_key}
use magento_go.Product.Flat.Laws.{flat_value, lookup-flatten_product}
use magento_go.Product.Repo.{
  State, code_map_once, code_map_of, index_products, fetch_flat_products,
  fetch_with_all_attributes_flat, fetch_with_all_attributes_flat_by_ids,
  fetch_with_all_attributes_flat_with_limit, fetch_flat_products_with_limit,
  fetch_all_flat_products_in_batches, fetch_flat_products_in_batches, fetch_batches,
  fetch_flat_products_batch, add_all, Db,
}
use magento_go.Product.Repo.Exact.{expected, fetch_flat_products-exact}
use magento_go.Product.Repo.Cached.{
  missing_in, fetch_with_all_attributes_flat-exact, fetch_with_all_attributes_flat_by_ids-cached,
}
use magento_go.Product.Repo.Again.{
  Fetch, all, by_ids, fetches, fetch_with_all_attributes_flat-again,
}
use magento_go.Product.Fixture.{bag, cup, table, codes, db, db-Answers, start}

-- The attribute with the code sku hides the product's own SKU.
sku_hidden : lookup "sku" (flatten_product codes bag) ≡ some (scalar (str "hidden"))
unfolding flatten_product lookup insert attr_key
sku_hidden = refl

lookup-flatten_product_example :
    lookup "name" (flatten_product codes bag) ≡ flat_value codes bag "name"
lookup-flatten_product_example = lookup-flatten_product codes bag "name"

fetch_flat_products-exact_example :
    map_ok (lookup 8) (fetch_flat_products db (9 ∷ 8 ∷ []) 0 start).1
    ≡ ok (expected db 0 table (db-Answers 0) start (9 ∷ 8 ∷ []) 8)
fetch_flat_products-exact_example =
    fetch_flat_products-exact db 0 table (db-Answers 0) (9 ∷ 8 ∷ []) start 8 (omega arith)

fetch_with_all_attributes_flat-exact_example :
    map_ok (lookup 7) (fetch_with_all_attributes_flat db false 0 start).1
    ≡ ok (lookup 7 (index_products (code_map_once db none) table []))
fetch_with_all_attributes_flat-exact_example =
    fetch_with_all_attributes_flat-exact db 0 table (db-Answers 0) start 7 refl
      (unfold lookup in refl)

-- The cache of store 0 has the first product alone.
abbrev partly : State ℕ ℕ
partly = record {
  code_map = some codes;
  flat_cache = (0, (7, flatten_product codes bag) ∷ []) ∷ [];
}

fetch_with_all_attributes_flat_by_ids-cached_example :
    map_ok (lookup 7) (fetch_with_all_attributes_flat_by_ids db false (7 ∷ 8 ∷ []) 0 partly).1
    ≡ ok (
        if is_empty (missing_in ((7, flatten_product codes bag) ∷ []) (7 ∷ 8 ∷ []))
        then (if asked {K = ℕ} 7 (7 ∷ 8 ∷ [])
            then lookup {K = ℕ} 7 ((7, flatten_product codes bag) ∷ [])
            else none)
        else expected db 0 table
            (db-Answers 0)
            partly
            (missing_in ((7, flatten_product codes bag) ∷ []) (7 ∷ 8 ∷ []))
            7)
fetch_with_all_attributes_flat_by_ids-cached_example =
    fetch_with_all_attributes_flat_by_ids-cached db 0 table (db-Answers 0) partly
      ((7, flatten_product codes bag) ∷ []) (7 ∷ 8 ∷ []) 7 (unfold lookup in refl) (omega arith)

-- The product in the cache is left out of the answer.
cached_dropped :
    map_ok (lookup 7) (fetch_with_all_attributes_flat_by_ids db false (7 ∷ 8 ∷ []) 0 partly).1
    ≡ ok none
unfolding fetch_with_all_attributes_flat_by_ids lookup insert flatten_product index_by
cached_dropped = refl

abbrev fetched : Dict ℕ (Flat ℕ ℕ)
fetched = (8, flatten_product codes cup) ∷ (7, flatten_product codes bag) ∷ []

abbrev filled : State ℕ ℕ
filled = record { code_map = some codes; flat_cache = (0, fetched) ∷ [] }

first_fetch : fetch_with_all_attributes_flat db false 0 start ≡ (filled, ok fetched)
unfolding fetch_with_all_attributes_flat fetch_with_all_attributes_flat_with_limit
    fetch_flat_products fetch_flat_products_with_limit fetch_all_flat_products_in_batches
    fetch_flat_products_in_batches fetch_batches fetch_flat_products_batch add_all index_by
    code_map_of lookup insert batches batches_from
first_fetch = refl

-- The later database has no products.
abbrev emptied : Db String ℕ ℕ
emptied = record {
  product_ids = λ limit. ok [];
  find_products = λ ids store. ok [];
  find_plain = λ ids. ok [];
  category_products = λ category asc. ok [];
  attributes = ok [];
}

-- A fetch for another store, and one by an id that the cache lacks.
abbrev later : List (Fetch String ℕ ℕ)
later = all db 1 ∷ by_ids emptied (7 ∷ 9 ∷ []) 0 ∷ []

fetch_with_all_attributes_flat-again_example :
    fetch_with_all_attributes_flat emptied false 0 (fetches filled later)
    ≡ (fetches filled later, ok fetched)
fetch_with_all_attributes_flat-again_example =
    fetch_with_all_attributes_flat-again db emptied 0 start filled fetched later first_fetch
