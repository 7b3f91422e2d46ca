-- ===== src/Import/Price/Rows.antt =====
-- What the price rows that `collectPrice` of service/product/import_price.go buffers are.
use magento_go.Prelude.{
  ℕ, ◌+◌, ◌≤◌, ◌≡◌, ◌≢◌, String, false, Option, none, some, List, arith, length, All, string_eq,
  Bool-cases, inl, inr, ◌&&◌,
}
use text.Mathlib.TextEquality.{eq_iff}
use magento_go.Prelude.Dict.{Dict, lookup}
use magento_go.Import.Std.{Std}
use magento_go.Import.Row.{go, row_sku, sku_column, cell, has_any, known_sku}
use magento_go.Import.Row.Collect.{length-collect, All-collect, is_blank, is_bad}
use magento_go.Import.Price.{
  ProductIndexPrice, new_price, set_price_index, set_final_price, set_min_price, set_max_price,
  set_tier_price, price_row, collect_price, price_columns,
}

module _ (std : Std) where
  open std use {Float, float_zero, parse_float}

  abbrev pub IsResolved : Dict String ℕ → ProductIndexPrice Float → Type 0
  IsResolved ids item =
      (sku : String) × (sku ≢ "")
      × (lookup sku ids ≡ some item.entity_id)
      × (item.customer_group_id ≡ 0)
      × (item.website_id ≡ 1)

  price_row-IsResolved :
      (col_index sku_to_id : Dict String ℕ) (row : List String) (item : ProductIndexPrice Float)
      → price_row std col_index sku_to_id row ≡ go item
      → IsResolved sku_to_id item
  unfolding price_row known_sku new_price set_price_index set_final_price set_min_price
      set_max_price set_tier_price
  price_row-IsResolved col_index sku_to_id row item h =
      let sku = row_sku (sku_column col_index) row in
      (sku, ground (arith, eq_iff sku ""), ground arith, ground arith, ground arith)

  -- Every price row that is buffered belongs to a non-empty SKU that the import knows and carries its
  -- id, for the guest group and website 1; the rows and the warnings together are at most as many as
  -- the rows of the CSV.
  collect_price-IsResolved :
      (rows : List (List String)) (col_index sku_to_id : Dict String ℕ)
      → All (IsResolved sku_to_id) (collect_price std rows col_index sku_to_id).rows
        × (length (collect_price std rows col_index sku_to_id).rows
              + length (collect_price std rows col_index sku_to_id).warnings
            ≤ length rows)
  unfolding collect_price
  collect_price-IsResolved rows col_index sku_to_id =
      elim (Bool-cases (has_any price_columns col_index)) [
        | inl e ↦ rw e (
          All-collect (IsResolved sku_to_id) (price_row std col_index sku_to_id)
              (price_row-IsResolved col_index sku_to_id) rows,
          length-collect (price_row std col_index sku_to_id) rows,
        )
        | inr e ↦ rw e (tt, omega arith)
      ]

  -- The number that a cell stands for beside an error or not, if it is not blank.
  abbrev pub cell_or : Option String → Float → Float
  cell_or none d = d
  cell_or (some v) d = (parse_float v).0

  -- A row of a known SKU whose `price_index` is blank or a number, with that or `final_price` given, is
  -- buffered with these prices: a price that has its own column takes it, one that has none takes
  -- `price_index`, and 0 if that is blank.
  price_row-prices :
      (col_index sku_to_id : Dict String ℕ) (row : List String) (id : ℕ)
      → let sku = row_sku (sku_column col_index) row in
        let base_cell = cell "price_index" col_index row in
        let final_cell = cell "final_price" col_index row in
        let base = cell_or base_cell float_zero in
        sku ≢ ""
        → lookup sku sku_to_id ≡ some id
        → is_bad (λ v. (parse_float v).1) base_cell ≡ false
        → is_blank base_cell && is_blank final_cell ≡ false
        → price_row std col_index sku_to_id row
          ≡ go (record {
            entity_id = id;
            customer_group_id = 0;
            website_id = 1;
            price = base;
            final_price = cell_or final_cell base;
            min_price = cell_or (cell "min_price" col_index row) base;
            max_price = cell_or (cell "max_price" col_index row) base;
            tier_price = cell_or (cell "tier_price" col_index row) float_zero;
          })
  unfolding price_row known_sku new_price set_price_index set_final_price set_min_price
      set_max_price set_tier_price
  price_row-prices col_index sku_to_id row id n k b f =
      let sku = row_sku (sku_column col_index) row in ground (arith, eq_iff sku "")
