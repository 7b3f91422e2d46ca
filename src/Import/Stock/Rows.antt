-- ===== src/Import/Stock/Rows.antt =====
-- What the stock rows that `collectStock` of service/product/import_stock.go buffers are.
use magento_go.Prelude.{
  ℕ, ◌+◌, ◌≤◌, ◌≡◌, ◌≢◌, String, Bool, true, false, none, some, List, arith, length, All, string_eq,
  Bool-cases, inl, inr, not, ◌&&◌, ◌||◌,
}
use text.Mathlib.TextEquality.{eq_iff}
use magento_go.Prelude.Dict.{Dict, lookup}
use magento_go.Prelude.Text.{parse_uint}
use magento_go.Import.Std.{Std}
use magento_go.Import.Row.{go, row_sku, sku_column, cell, has_any, known_sku}
use magento_go.Import.Row.Collect.{
  length-collect, All-collect, is_item, is_warning, is_blank, is_bad,
}
use magento_go.Import.Stock.{
  StockItem, new_item, set_qty, set_is_in_stock, set_manage_stock, set_min_qty, set_min_sale_qty,
  set_max_sale_qty, emit, stock_row, collect_stock, stock_columns,
}

-- strconv.ParseUint accepts the text as a 16-bit number.
abbrev pub is_uint16 : String → Bool
is_uint16 v = elim (parse_uint 16 v).1 [ none ↦ true | some e ↦ false ]

module _ (std : Std) where
  open std use {Float, float_zero, parse_float}

  -- The product of the item is a known SKU's, and the 16-bit fields are in range.
  abbrev pub IsResolved : Dict String ℕ → StockItem Float → Type 0
  IsResolved ids item =
      (sku : String) × (sku ≢ "")
      × (lookup sku ids ≡ some item.product_id)
      × (item.stock_id ≡ 1)
      × (item.is_in_stock ≤ 65535)
      × (item.manage_stock ≤ 65535)

  stock_row-IsResolved :
      (col_index sku_to_id : Dict String ℕ) (row : List String) (item : StockItem Float)
      → stock_row std col_index sku_to_id row ≡ go item
      → IsResolved sku_to_id item
  unfolding stock_row known_sku new_item set_qty set_is_in_stock set_manage_stock set_min_qty
      set_min_sale_qty set_max_sale_qty emit
  stock_row-IsResolved col_index sku_to_id row item h =
      let sku = row_sku (sku_column col_index) row in
      (sku, ground (arith, eq_iff sku ""), ground arith, ground arith, ground arith, ground arith)

  -- Every row that is buffered belongs to a non-empty SKU that the import knows, carries the id of
  -- that SKU and stock 1, and its two 16-bit fields are in range whatever the cells hold. The rows
  -- and the warnings together are at most as many as the rows of the CSV.
  collect_stock-IsResolved :
      (rows : List (List String)) (col_index sku_to_id : Dict String ℕ)
      → All (IsResolved sku_to_id) (collect_stock std rows col_index sku_to_id).rows
        × (length (collect_stock std rows col_index sku_to_id).rows
              + length (collect_stock std rows col_index sku_to_id).warnings
            ≤ length rows)
  unfolding collect_stock
  collect_stock-IsResolved rows col_index sku_to_id =
      elim (Bool-cases (has_any stock_columns col_index)) [
        | inl e ↦ rw e (
          All-collect (IsResolved sku_to_id) (stock_row std col_index sku_to_id)
              (stock_row-IsResolved col_index sku_to_id) rows,
          length-collect (stock_row std col_index sku_to_id) rows,
        )
        | inr e ↦ rw e (tt, omega arith)
      ]

  -- A row of a known SKU is a warning exactly if its quantity is no number or its stock flag is no
  -- 16-bit number; otherwise it is buffered exactly if one of the two cells is not blank. No other
  -- cell makes a difference.
  pub stock_row-outcome :
      (col_index sku_to_id : Dict String ℕ) (row : List String) (id : ℕ)
      → let sku = row_sku (sku_column col_index) row in
        let qty_cell = cell "qty" col_index row in
        let flag_cell = cell "is_in_stock" col_index row in
        let outcome = stock_row std col_index sku_to_id row in
        let bad = is_bad (λ v. (parse_float v).1) qty_cell || is_bad is_uint16 flag_cell in
        sku ≢ ""
        → lookup sku sku_to_id ≡ some id
        → (is_warning outcome ≡ bad)
          × (is_item outcome ≡ (not bad && not (is_blank qty_cell && is_blank flag_cell)))
  unfolding stock_row known_sku set_qty set_is_in_stock emit
  stock_row-outcome col_index sku_to_id row id n k =
      let sku = row_sku (sku_column col_index) row in ground (arith, eq_iff sku "")
