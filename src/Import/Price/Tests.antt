-- ===== src/Import/Price/Tests.antt =====
-- Runs of the price collector, and its theorems at a CSV of two rows.
use magento_go.Prelude.{ℕ, String, ◌≡◌, refl, List, [], ◌∷◌, string_eq}
use magento_go.Prelude.Dict.{Dict, lookup}
use magento_go.Prelude.Text.{trim_space, parse_uint}
use magento_go.Import.Fixture.{whole}
use magento_go.Import.Row.{row_sku, sku_column, non_blank, cell_at, cell, has_any, known_sku}
use magento_go.Import.Row.Collect.{add, collect}
use magento_go.Import.Price.{
  invalid_price_index, new_price, set_price_index, set_final_price, set_min_price, set_max_price,
  set_tier_price, price_row, collect_price,
}

program : Unit {0}
unfolding lookup trim_space parse_uint row_sku sku_column non_blank cell_at cell has_any known_sku
    add collect new_price set_price_index set_final_price set_min_price set_max_price set_tier_price
    price_row collect_price
program = tt

abbrev columns : Dict String ℕ
columns = ("sku", 0) ∷ ("price_index", 1) ∷ ("final_price", 2) ∷ []

abbrev ids : Dict String ℕ
ids = ("A", 7) ∷ ("B", 8) ∷ []

abbrev row_a : List String
row_a = "A" ∷ "20" ∷ "15" ∷ []

abbrev csv : List (List String)
csv = row_a ∷ ("B" ∷ "free" ∷ "" ∷ []) ∷ []

csv_warnings : (collect_price whole csv columns ids).warnings ≡ invalid_price_index "B" "free" ∷ []
unfolding program
csv_warnings = refl
