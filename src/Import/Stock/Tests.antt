-- ===== src/Import/Stock/Tests.antt =====
-- Runs of the stock collector, and its theorems at a CSV of three rows.
use magento_go.Prelude.{
  ℕ, String, ◌≡◌, ◌≢◌, refl, List, [], ◌∷◌, arith, string_eq, some, not, ◌&&◌, ◌||◌,
}
use text.Mathlib.TextEquality.{eq_iff}
use magento_go.Prelude.Dict.{Dict, lookup}
use magento_go.Prelude.Text.{trim_space, parse_uint}
use magento_go.Import.Fixture.{whole}
use magento_go.Import.Row.{row_sku, sku_column, non_blank, cell_at, cell, has_any, known_sku}
use magento_go.Import.Row.Collect.{add, collect, is_item, is_warning, is_blank, is_bad}
use magento_go.Import.Stock.{
  invalid_qty, new_item, set_qty, set_is_in_stock, set_manage_stock, set_min_qty, set_min_sale_qty,
  set_max_sale_qty, emit, stock_row, collect_stock,
}
use magento_go.Import.Stock.Rows.{is_uint16, stock_row-outcome}

program : Unit {0}
unfolding lookup trim_space parse_uint row_sku sku_column non_blank cell_at cell has_any known_sku
    add collect new_item set_qty set_is_in_stock set_manage_stock set_min_qty set_min_sale_qty
    set_max_sale_qty emit stock_row collect_stock
program = tt

abbrev columns : Dict String ℕ
columns = ("sku", 0) ∷ ("qty", 1) ∷ ("manage_stock", 2) ∷ []

abbrev ids : Dict String ℕ
ids = ("A", 7) ∷ ("B", 8) ∷ []

abbrev csv : List (List String)
csv = (" A " ∷ "12" ∷ "70000" ∷ []) ∷ ("B" ∷ "x" ∷ "" ∷ []) ∷ ("C" ∷ "1" ∷ "1" ∷ []) ∷ []

csv_rows :
    (collect_stock whole csv columns ids).rows
    ≡ record (new_item whole 7) { qty = 12; manage_stock = 65535 } ∷ []
unfolding program
csv_rows = refl

csv_warnings : (collect_stock whole csv columns ids).warnings ≡ invalid_qty "B" "x" ∷ []
unfolding program
csv_warnings = refl

abbrev row_b : List String
row_b = "B" ∷ "x" ∷ "" ∷ []

b_named : row_sku (sku_column columns) row_b ≢ ""
unfolding row_sku sku_column trim_space lookup
b_named = ground (arith, eq_iff "B" "")

b_known : lookup (row_sku (sku_column columns) row_b) ids ≡ some 8
unfolding program
b_known = refl

stock_row-outcome_example :
    let outcome = stock_row whole columns ids row_b in
    let bad =
      is_bad (λ v. (whole.parse_float v).1) (cell "qty" columns row_b)
      || is_bad is_uint16 (cell "is_in_stock" columns row_b) in
    (is_warning outcome ≡ bad)
    × (is_item outcome ≡ (
        not bad
        && not
            (is_blank (cell "qty" columns row_b) && is_blank (cell "is_in_stock" columns row_b))))
stock_row-outcome_example = stock_row-outcome whole columns ids row_b 8 b_named b_known
