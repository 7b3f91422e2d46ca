-- ===== src/Import/Entity/Create.antt =====
-- Which products insertNewEntities of service/product/import_service.go creates.
use mathlib.Core.List.{flatten, flat_map}
use magento_go.Prelude.{
  ℕ, ◌+◌, ◌<◌, ◌≡◌, ◌≢◌, ◌∙◌, sym, ap, any, any-append, none, Bool, refl, String, false, ◌||◌, List,
  [], ◌∷◌, ◌==◌, string_eq, length, arith, if◌then◌else◌,
}
use text.Mathlib.TextEquality.{eq_iff}
use magento_go.Prelude.Dict.{Dict, lookup, has}
use magento_go.Batch.{batches}
use magento_go.Batch.Cover.{batches-cover}
use magento_go.Import.Row.{row_sku}
use magento_go.Import.Entity.{SkuRow, NewProduct, raw_skus, index_rows, lookup_skus, plan_products}
use magento_go.Import.Entity.Lookup.{index_rows-append, lookup-index_rows}

-- How many products with a SKU are planned, and how many rows name it.
abbrev pub count_planned : String → List NewProduct → ℕ
count_planned sku [] = 0
count_planned sku (np ∷ nps) =
    let rest = count_planned sku nps in if np.sku == sku then rest + 1 else rest

abbrev pub count_named : String → ℕ → List (List String) → ℕ
count_named sku sku_col [] = 0
count_named sku sku_col (row ∷ rows) =
    let rest = count_named sku sku_col rows in if row_sku sku_col row == sku then rest + 1 else rest

-- The rows whose SKU was found.
abbrev pub count_known : Dict String ℕ → ℕ → List (List String) → ℕ
count_known m sku_col [] = 0
count_known m sku_col (row ∷ rows) =
    let sku = row_sku sku_col row in
    let rest = count_known m sku_col rows in
    if sku == "" then rest else if has sku m then rest + 1 else rest

module _ (sku_col : ℕ) (col_index m : Dict String ℕ) (attribute_set : ℕ) where
  -- A SKU that the map lacks is planned once for each row that names it, so a SKU that stands in the
  -- CSV twice is created twice; a known SKU, and the empty one, are never planned.
  count_planned-plan_products :
      (sku : String) (ri : ℕ) (rows : List (List String))
      → count_planned sku (plan_products sku_col col_index m attribute_set ri rows).0
        ≡ (if sku == "" || has sku m then 0 else count_named sku sku_col rows)
  unfolding plan_products
  count_planned-plan_products sku ri [] = ground arith
  count_planned-plan_products sku ri (row ∷ rows) =
      let s = row_sku sku_col row in
      ground (
        arith,
        eq_iff s "",
        eq_iff s sku,
        eq_iff sku "",
        count_planned-plan_products sku (ri + 1) rows,
      )

  -- Every row is skipped, planned or known.
  pub length-plan_products :
      (ri : ℕ) (rows : List (List String))
      → let (to_create, skipped) = plan_products sku_col col_index m attribute_set ri rows in
        length to_create + skipped + count_known m sku_col rows ≡ length rows
  unfolding plan_products
  length-plan_products ri [] = refl
  length-plan_products ri (row ∷ rows) = ground (arith, length-plan_products (ri + 1) rows)

-- The query returns a SKU only if some text that it asks for is the same to the database, whose comparison
-- may pass over case or over spaces at the end.
pub record Compares (find : List String → List SkuRow) (same : String → String → Bool)
    : Type 0 where
  pub only :
      (batch : List String) (sku : String)
      → any (λ s. same s sku) batch ≡ false
      → lookup sku (index_rows (find batch) []) ≡ none

module _ (find : List String → List SkuRow) (same : String → String → Bool)
    (compares : Compares find same) where
  lookup-unasked :
      (sku : String) (bs : List (List String))
      → any (λ s. same s sku) (flatten bs) ≡ false
      → lookup sku (index_rows (flat_map find bs) []) ≡ none
  unfolding flat_map flatten
  lookup-unasked sku [] h = unfold index_rows lookup in refl
  lookup-unasked sku (b ∷ bs) h =
      let split : (any (λ s. same s sku) b || any (λ s. same s sku) (flatten bs)) ≡ false =
        sym (any-append (λ s. same s sku) b (flatten bs)) ∙ h in
      rw
        (
          index_rows-append,
          lookup-index_rows,
          compares.only b sku (ground (arith, split)),
          lookup-unasked sku bs (ground (arith, split)),
        )
        refl

  -- The lookup asks for the cells as they are, the creation trims them. A SKU that the CSV names only in
  -- cells which the database does not take for it as they stand, as with white space before it, is
  -- planned for creation by each row that names it, whether the database holds the product or not.
  pub plan_products-padded :
      (sku_col : ℕ) (col_index : Dict String ℕ) (attribute_set : ℕ) (sku : String)
      (rows : List (List String)) (batch_size : ℕ)
      → sku ≢ ""
      → 0 < batch_size
      → any (λ c. same c sku) (raw_skus sku_col rows) ≡ false
      → let m = lookup_skus find (raw_skus sku_col rows) batch_size in
        count_planned sku (plan_products sku_col col_index m attribute_set 0 rows).0
        ≡ count_named sku sku_col rows
  plan_products-padded sku_col col_index attribute_set sku rows batch_size n p h =
      let skus = raw_skus sku_col rows in
      let m = lookup_skus find skus batch_size in
      let whole = (batches-cover batch_size skus p).0 in
      let none_found : lookup sku m ≡ none =
        unfold lookup_skus in
        lookup-unasked sku (batches batch_size skus) (ap (any (λ s. same s sku)) whole ∙ h) in
      ground (
        arith,
        eq_iff sku "",
        none_found,
        count_planned-plan_products sku_col col_index m attribute_set sku 0 rows,
      )
