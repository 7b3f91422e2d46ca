-- ===== src/Import/Stock/Json/Counts.antt =====
-- Which items ImportStockJSON of service/product/import_stock.go imports, whatever the batch size.
use magento_go.Prelude.{
  ℕ, zero, suc, ◌+◌, ◌<◌, ◌≡◌, ◌∙◌, sym, refl, ap, String, Bool, true, false, Option, none, List,
  [], ◌∷◌, ◌==◌, ◌-◌, ltb, string_eq, inr, length, arith, if◌then◌else◌,
}
use text.Mathlib.TextEquality.{eq_iff}
use magento_go.Prelude.Dict.{asked, Dict, lookup, has}
use magento_go.Prelude.Int.{ℤ, pos, negsuc}
use magento_go.Batch.{batches}
use magento_go.Import.Std.{Std}
use magento_go.Import.Jobs.{Job}
use magento_go.Import.Entity.{SkuRow, index_rows, lookup_skus}
use magento_go.Import.Entity.Lookup.{Answers, index_rows-append, lookup_skus-exact}
use mathlib.Core.List.{flat_map}
use magento_go.Import.Stock.{StockItem}
use magento_go.Import.Stock.Json.{
  StockItemInput, Warning, empty_sku, product_not_found, StockImportResult, Built, reply,
  batch_size_or_default, lookup_chunks, build_items, input_skus, upsert_rows, import_stock_json,
}

batch_size_or_default-pos : (b : ℤ) → 0 < batch_size_or_default b
unfolding batch_size_or_default
batch_size_or_default-pos (pos zero) = omega arith
batch_size_or_default-pos (pos (suc n)) = omega arith
batch_size_or_default-pos (negsuc n) = omega arith

lookup_chunks_lem :
    (find : List String → List SkuRow) (cs : List (List String)) (m : Dict String ℕ)
    → lookup_chunks find cs m ≡ index_rows (flat_map find cs) m
unfolding lookup_chunks flat_map
lookup_chunks_lem find [] m = unfold index_rows in refl
lookup_chunks_lem find (c ∷ cs) m =
    lookup_chunks_lem find cs (index_rows (find c) m)
    ∙ sym (index_rows-append (find c) (flat_map find cs) m)

-- The chunks of the JSON import find what lookupSKUs of the CSV import finds.
lookup_chunks-lookup_skus :
    (find : List String → List SkuRow) (skus : List String) (b : ℕ)
    → lookup_chunks find (batches b skus) [] ≡ lookup_skus find skus b
unfolding lookup_skus
lookup_chunks-lookup_skus find skus b = lookup_chunks_lem find (batches b skus) []

module _ (std : Std) where
  open std use {Float}

  -- The items that name a product of a map.
  abbrev pub count_found : Dict String ℕ → List (StockItemInput Float) → ℕ
  count_found m [] = 0
  count_found m (it ∷ its) =
      let rest = count_found m its in
      if it.sku == "" then rest else if has it.sku m then rest + 1 else rest

  -- The warnings that a map of all products calls for.
  abbrev pub expected_warnings : Dict String ℕ → List (StockItemInput Float) → List Warning
  expected_warnings m [] = []
  expected_warnings m (it ∷ its) =
      let rest = expected_warnings m its in
      if it.sku == ""
      then empty_sku ∷ rest
      else if has it.sku m
      then rest
      else product_not_found it.sku ∷ rest

  -- What ImportStockJSON reports where the database holds the products of a map.
  abbrev pub expected : Dict String ℕ → List (StockItemInput Float) → StockImportResult
  expected m items = record {
    imported = count_found m items;
    skipped = length items - count_found m items;
    warnings = expected_warnings m items;
  }

  abbrev pub reported : Built Float → StockImportResult
  reported built = record {
    imported = length built.rows;
    skipped = built.skipped;
    warnings = built.warnings;
  }

  build_items_counts :
      (m : Dict String ℕ) (items : List (StockItemInput Float))
      → let built = build_items std m items in
        (length built.rows ≡ count_found m items)
        × (length built.rows + built.skipped ≡ length items)
        × (built.warnings ≡ expected_warnings m items)
  unfolding build_items
  build_items_counts m [] = (refl, refl, refl)
  build_items_counts m (it ∷ its) =
      let h = build_items_counts m its in
      (ground (arith, h.0), ground (arith, h.1), ground (arith, h.2))

  reported-build_items :
      (m : Dict String ℕ) (items : List (StockItemInput Float))
      → reported (build_items std m items) ≡ expected m items
  reported-build_items m items =
      let h = build_items_counts m items in
      let k : (build_items std m items).skipped ≡ length items - count_found m items =
        omega (arith, h.0, h.1) in
      λ i. record { imported = h.0 i; skipped = k i; warnings = h.2 i }

  -- Only what the map holds for the SKUs that the items name counts.
  expected_same :
      (m n : Dict String ℕ) (items : List (StockItemInput Float))
      → ((sku : String) → asked sku (input_skus std items) ≡ true → lookup sku m ≡ lookup sku n)
      → (count_found m items ≡ count_found n items)
        × (expected_warnings m items ≡ expected_warnings n items)
  unfolding input_skus
  expected_same m n [] h = (refl, refl)
  expected_same m n (it ∷ its) h =
      let rest = expected_same m n its (λ sku k. h sku (ground arith)) in
      let here : (it.sku == "") ≡ false → lookup it.sku m ≡ lookup it.sku n =
        λ e. h it.sku (ground (arith, eq_iff it.sku it.sku)) in
      (ground (arith, here, rest.0), ground (arith, here, rest.1))

  module _ {ℓ κ} {S : Type ℓ} {E : Type κ} (find : S → List String → List SkuRow)
      (upsert : List (StockItem Float) → ℕ → Job S E) where
    upsert_rows_lem :
        (rows : List (StockItem Float)) (size : ℕ) (s : S) (err : Option E)
        → ((rows : List (StockItem Float)) (size : ℕ) → (upsert rows size s).1 ≡ err)
        → (upsert_rows std find upsert rows size s).1 ≡ (if ltb 0 (length rows) then err else none)
    unfolding upsert_rows
    upsert_rows_lem [] size s err h = refl
    upsert_rows_lem (r ∷ rs) size s err h = ground (arith, h (r ∷ rs) size)

    chosen :
        (b : Bool) (err : Option E) (r : StockImportResult)
        → reply (if b then err else none) r ≡ (if b then reply err r else inr r)
    chosen true err r = refl
    chosen false err r = refl

    answered :
        (o : Option E) (r r' : StockImportResult) (n : ℕ) (err : Option E)
        → o ≡ (if ltb 0 n then err else none)
        → r ≡ r'
        → reply o r ≡ (if ltb 0 n then reply err r' else inr r')
    answered o r r' n err h k =
        ap (λ x. reply x r) h
        ∙ ap (λ x. reply (if ltb 0 n then err else none) x) k
        ∙ chosen (ltb 0 n) err r'

    -- The database holds the products of `table`, and the upsert ends as `err` says.
    -- Whatever the batch size, the import reports as imported the items that name a product of the
    -- database, as skipped the others, each with its warning. An error of the upsert is returned
    -- if there is something to upsert, and only then.
    pub import_stock_json-expected :
        (items : List (StockItemInput Float)) (batch_size : ℤ) (s : S) (table : Dict String ℕ)
        (err : Option E)
        → Answers (find s) table
        → ((rows : List (StockItem Float)) (size : ℕ) → (upsert rows size s).1 ≡ err)
        → (import_stock_json std find upsert items batch_size s).1 ≡ (
            if ltb 0 (count_found table items)
            then reply err (expected table items)
            else inr (expected table items))
    unfolding import_stock_json
    import_stock_json-expected items batch_size s table err ans up =
        let size = batch_size_or_default batch_size in
        let m = lookup_chunks (find s) (batches size (input_skus std items)) [] in
        let same = expected_same m table items (λ sku k.
          ap (λ t. lookup sku t) (lookup_chunks-lookup_skus (find s) (input_skus std items) size)
          ∙ lookup_skus-exact (find s) table ans (input_skus std items) size sku
              (batch_size_or_default-pos batch_size)
          ∙ ap (λ b. if b then lookup sku table else none) k) in
        let built = build_items std m items in
        answered _ (reported built) (expected table items) (count_found table items) err
          (upsert_rows_lem built.rows size s err up
            ∙ ap (λ n. if ltb 0 n then err else none) ((build_items_counts m items).0 ∙ same.0))
          (reported-build_items m items ∙ (λ i. record {
            imported = same.0 i;
            skipped = length items - same.0 i;
            warnings = same.1 i;
          }))
