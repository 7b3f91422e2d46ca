-- ===== src/Import/Stock.antt =====
-- service/product/import_stock.go: the stock columns of the CSV import. The item has the fields that
-- the importer writes; the others of model/entity/product/stock_item.go stay at Go's zero values.
pub mod Rows
mod Tests
pub mod Json
use magento_go.Prelude.{
  ℕ, ◌%◌, String, Bool, true, false, Option, none, some, List, [], ◌∷◌, string_eq, if◌then◌else◌,
}
use magento_go.Prelude.Dict.{Dict}
use magento_go.Prelude.Text.{parse_uint}
use magento_go.Import.Std.{Std}
use magento_go.Import.Row.{Step, go, skip, warn, ◌>>=◌, sku_column, cell, has_any, known_sku}
use magento_go.Import.Row.Collect.{Collected, nothing, collect}

abbrev pub stock_columns : List String
stock_columns =
    "qty" ∷ "is_in_stock" ∷ "manage_stock" ∷ "min_qty" ∷ "max_sale_qty" ∷ "min_sale_qty" ∷ []

-- The warnings, by their formats and arguments.
pub data Warning : Type 0 where
  invalid_qty : String → String → Warning
  invalid_is_in_stock : String → String → Warning

-- `uint16(iv)`
abbrev pub uint16 : ℕ → ℕ
uint16 n = n % 65536

pub record StockItem {ℓ} (F : Type ℓ) : Type ℓ where
  pub product_id : ℕ
  pub stock_id : ℕ
  pub qty : F
  pub min_qty : F
  pub min_sale_qty : F
  pub max_sale_qty : F
  pub is_in_stock : ℕ
  pub manage_stock : ℕ

module _ (std : Std) where
  open std use {Float, float_zero, parse_float}

  -- `productEntity.StockItem{ProductID: entityID, StockID: 1, IsInStock: 1, ManageStock: 1}`
  unfoldable pub new_item : ℕ → StockItem Float
  new_item id = record {
    product_id = id;
    stock_id = 1;
    qty = float_zero;
    min_qty = float_zero;
    min_sale_qty = float_zero;
    max_sale_qty = float_zero;
    is_in_stock = 1;
    manage_stock = 1;
  }

  -- An item with the flag `populated`.
  abbrev pub Draft : Type 0
  Draft = StockItem Float × Bool

  unfoldable pub set_qty : String → Option String → Draft → Step Warning Draft
  set_qty sku none d = go d
  set_qty sku (some v) (item, populated) =
      let (q, parsed) = parse_float v in
      if parsed then go (record item { qty = q }, true) else warn (invalid_qty sku v)

  unfoldable pub set_is_in_stock : String → Option String → Draft → Step Warning Draft
  set_is_in_stock sku none d = go d
  set_is_in_stock sku (some v) (item, populated) =
      let (iv, err) = parse_uint 16 v in
      elim err [
        | none ↦ go (record item { is_in_stock = uint16 iv }, true)
        | some e ↦ warn (invalid_is_in_stock sku v)
      ]

  -- The errors of the columns below are dropped: what `strconv` returns beside one is stored.
  unfoldable pub set_manage_stock : Option String → StockItem Float → StockItem Float
  set_manage_stock none item = item
  set_manage_stock (some v) item = record item { manage_stock = uint16 (parse_uint 16 v).0 }

  unfoldable pub set_min_qty : Option String → StockItem Float → StockItem Float
  set_min_qty none item = item
  set_min_qty (some v) item = record item { min_qty = (parse_float v).0 }

  unfoldable pub set_min_sale_qty : Option String → StockItem Float → StockItem Float
  set_min_sale_qty none item = item
  set_min_sale_qty (some v) item = record item { min_sale_qty = (parse_float v).0 }

  unfoldable pub set_max_sale_qty : Option String → StockItem Float → StockItem Float
  set_max_sale_qty none item = item
  set_max_sale_qty (some v) item = record item { max_sale_qty = (parse_float v).0 }

  -- `if populated { d.rows = append(d.rows, item) }`
  unfoldable pub emit {ℓ} : {A : Type ℓ} → Bool → A → Step Warning A
  emit populated item = if populated then go item else skip

  -- The body of the loop over the rows.
  unfoldable pub stock_row :
      Dict String ℕ → Dict String ℕ → List String → Step Warning (StockItem Float)
  stock_row col_index sku_to_id row = do
    (sku, id) ← known_sku sku_to_id (sku_column col_index) row
    d ← set_qty sku (cell "qty" col_index row) (new_item id, false)
    (item, populated) ← set_is_in_stock sku (cell "is_in_stock" col_index row) d
    let item1 = set_manage_stock (cell "manage_stock" col_index row) item
    let item2 = set_min_qty (cell "min_qty" col_index row) item1
    let item3 = set_min_sale_qty (cell "min_sale_qty" col_index row) item2
    let item4 = set_max_sale_qty (cell "max_sale_qty" col_index row) item3
    emit populated item4

  unfoldable pub collect_stock :
      List (List String) → Dict String ℕ → Dict String ℕ → Collected Warning (StockItem Float)
  collect_stock rows col_index sku_to_id =
      if has_any stock_columns col_index
      then collect (stock_row col_index sku_to_id) rows
      else nothing
