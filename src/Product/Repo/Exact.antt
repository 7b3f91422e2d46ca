-- ===== src/Product/Repo/Exact.antt =====
-- fetchFlatProducts of model/repository/product/product_repository.go answers as one query over all ids
-- would, however the ids are cut into batches.
use magento_go.Prelude.{
  ℕ, ◌<◌, ◌≡◌, ◌∙◌, refl, ap, Bool-cases, inl, inr, Option, none, some, List, [], ◌∷◌, length, ◌==◌,
  nat_eq, any-append, All, arith, ltb, leb, lt→ltb, true, if◌then◌else◌,
}
use mathlib.Core.List.{flatten}
use magento_go.Prelude.Dict.{lookup, lookup-insert, lookup-nil, asked, or_else-none, or_else}
use magento_go.Prelude.Index.{rows_of, lookup-rows_of}
use magento_go.Prelude.Fallible.{ok, map_ok}
use magento_go.Batch.{batches}
use magento_go.Batch.Cover.{FitsBatch, batches-cover}
use magento_go.Product.Value.{Flat}
use magento_go.Product.Flat.{Product, flatten_product}
use magento_go.Product.Repo.{
  Db, State, Flats, id_of, batch_size, code_map_once, index_products, fetch_flat_products_batch,
  add_all, fetch_batches, fetch_flat_products_in_batches, fetch_flat_products_with_limit,
  fetch_flat_products,
}

module _ {F T : Type 0} where
  lookup-add_all :
      (id : ℕ) (batch result : Flats F T)
      → lookup id (add_all batch result) ≡ or_else (lookup id batch) (lookup id result)
  unfolding add_all lookup
  lookup-add_all id [] result = refl
  lookup-add_all id ((key, prod) ∷ batch) result =
      ground
        (arith, lookup-add_all id batch result, lookup-insert key id prod (add_all batch result))

-- The query for some ids returns the products of a table with one of these ids.
pub record Answers {E F T : Type 0} (db : Db E F T) (store : ℕ) (table : List (Product F T))
    : Type 0 where
  pub exact :
      (ids : List ℕ) → 0 < length ids → db.find_products ids store ≡ ok (rows_of id_of table ids)

module _ {E F T : Type 0} (db : Db E F T) (store : ℕ) (table : List (Product F T))
    (ans : Answers db store table) where
  -- What the table says of an id, under the codes of a state.
  abbrev pub expected : State F T → List ℕ → ℕ → Option (Flat F T)
  expected s ids id =
      if asked id ids
      then lookup id (index_products (code_map_once db s.code_map) table [])
      else none

  batch_settled :
      (ids : List ℕ) (s : State F T)
      → 0 < length ids
      → fetch_flat_products_batch db ids store s ≡ (
        record { code_map = some (code_map_once db s.code_map); flat_cache = s.flat_cache },
        ok (index_products (code_map_once db s.code_map) (rows_of id_of table ids) []),
      )
  unfolding fetch_flat_products_batch
  batch_settled ids s h = rw (ans.exact ids h) refl

  fetch_batches-rest :
      (id : ℕ) (bs : List (List ℕ)) (result : Flats F T) (s : State F T)
      → All (FitsBatch batch_size) bs
      → map_ok (lookup id) (fetch_batches db store bs result s).1
        ≡ ok (or_else (expected s (flatten bs) id) (lookup id result))
  unfolding fetch_batches flatten
  fetch_batches-rest id [] result s h = refl
  fetch_batches-rest id (b ∷ bs) result s h =
      let m = code_map_once db s.code_map in
      let found = index_products m (rows_of id_of table b) [] in
      let s1 : State F T = record { code_map = some m; flat_cache = s.flat_cache } in
      rw
        (
          batch_settled b s h.0.0,
          fetch_batches,
          batch_settled b s h.0.0,
          fetch_batches-rest id bs (add_all found result) s1 h.1,
          lookup-add_all id found result,
          lookup-rows_of id_of (flatten_product m) id b table,
          any-append (λ c. c == id) b (flatten bs),
        )
        (ground arith)

  pub fetch_flat_products_in_batches-exact :
      (ids : List ℕ) (s : State F T) (id : ℕ)
      → map_ok (lookup id) (fetch_flat_products_in_batches db ids store s).1
        ≡ ok (expected s ids id)
  unfolding fetch_flat_products_in_batches
  fetch_flat_products_in_batches-exact ids s id =
      let (whole, fits) = batches-cover batch_size ids (omega arith) in
      fetch_batches-rest id (batches batch_size ids) [] s fits
      ∙ rw (whole, lookup-nil) (ap ok (or_else-none (expected s ids id)))

  -- For any list of ids but the empty one the result holds, for each of them, what the table holds, and nothing else.
  pub fetch_flat_products-exact :
      (ids : List ℕ) (s : State F T) (id : ℕ)
      → 0 < length ids
      → map_ok (lookup id) (fetch_flat_products db ids store s).1 ≡ ok (expected s ids id)
  unfolding fetch_flat_products fetch_flat_products_with_limit fetch_flat_products_in_batches
  fetch_flat_products-exact ids s id h = elim (Bool-cases (leb (length ids) batch_size)) [
    | inl e ↦
        rw (e, lt→ltb _ _ h, batch_settled ids s h)
          (ap ok
            (lookup-rows_of id_of (flatten_product (code_map_once db s.code_map)) id ids table))
    | inr e ↦
        let many : ltb batch_size (length ids) ≡ true = ground arith in
        rw (e, many, lt→ltb _ _ h) (fetch_flat_products_in_batches-exact ids s id)
  ]
