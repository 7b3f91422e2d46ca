-- ===== src/Import/Stock/Json/Tests.antt =====
-- Runs of the JSON import.
use magento_go.Prelude.{
  ℕ, ◌≡◌, refl, String, none, some, List, [], ◌∷◌, string_eq, inr, ltb, if◌then◌else◌, arith,
}
use text.Mathlib.TextEquality.{eq_iff}
use magento_go.Prelude.Dict.{asked, Dict, lookup, insert}
use magento_go.Prelude.Int.{pos}
use magento_go.Import.Fixture.{whole}
use magento_go.Import.Jobs.{Job}
use magento_go.Import.Entity.{SkuRow, index_rows}
use magento_go.Import.Entity.Lookup.{Answers}
use magento_go.Import.Stock.{StockItem}
use magento_go.Import.Stock.Json.{StockItemInput, import_stock_json, reply}
use magento_go.Import.Stock.Json.Counts.{count_found, expected, import_stock_json-expected}

-- A database with one product.
abbrev find_one : ℕ → List String → List SkuRow
find_one s batch = if asked "A" batch then record { link_id = 7; sku = "A" } ∷ [] else []

abbrev table_one : Dict String ℕ
table_one = ("A", 7) ∷ []

find_one-Answers : (s : ℕ) → Answers (find_one s) table_one
unfolding index_rows lookup insert
find_one-Answers s = record { exact = λ batch sku. ground (arith, eq_iff "A" sku) }

abbrev lost : List (StockItem ℕ) → ℕ → Job ℕ String
lost rows size s = (s, some "lost")

abbrev item : String → StockItemInput ℕ
item sku = record {
  sku = sku;
  qty = some 3;
  is_in_stock = none;
  manage_stock = none;
  min_qty = none;
  min_sale_qty = none;
  max_sale_qty = none;
}

import_stock_json-expected_example :
    let items = item "A" ∷ item "" ∷ item "B" ∷ [] in
    (import_stock_json whole find_one lost items (pos 2) 0).1 ≡ (
      if ltb 0 (count_found whole table_one items)
      then reply (some "lost") (expected whole table_one items)
      else inr (expected whole table_one items))
import_stock_json-expected_example =
    import_stock_json-expected whole find_one lost (item "A" ∷ item "" ∷ item "B" ∷ []) (pos 2) 0
      table_one (some "lost") (find_one-Answers 0) (λ rows size. refl)
