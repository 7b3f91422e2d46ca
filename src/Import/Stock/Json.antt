-- ===== src/Import/Stock/Json.antt =====
-- The JSON import of service/product/import_stock.go: StockItemInput, StockImportResult and
-- ImportStockJSON. The query and the upsert are parameters.
pub mod Counts
mod Tests
use magento_go.Prelude.{
  ℕ, zero, suc, ◌+◌, String, Bool, true, false, Option, none, some, List, [], ◌∷◌, ◌==◌, string_eq,
  ◌⊎◌, inl, inr, length, select, not, map, if◌then◌else◌,
}
use magento_go.Prelude.Dict.{Dict, lookup}
use magento_go.Prelude.Int.{ℤ, pos, negsuc}
use magento_go.Batch.{batches}
use magento_go.Import.Std.{Std}
use magento_go.Import.Jobs.{Job}
use magento_go.Import.Entity.{SkuRow, index_rows}
use magento_go.Import.Stock.{StockItem, new_item}

-- A pointer of the source is nil or points to a value.
pub record StockItemInput {ℓ} (F : Type ℓ) : Type ℓ where
  pub sku : String
  pub qty : Option F
  pub is_in_stock : Option ℕ
  pub manage_stock : Option ℕ
  pub min_qty : Option F
  pub min_sale_qty : Option F
  pub max_sale_qty : Option F

pub data Warning : Type 0 where
  empty_sku : Warning
  product_not_found : String → Warning

pub record StockImportResult : Type 0 where
  pub imported : ℕ
  pub skipped : ℕ
  pub warnings : List Warning

-- `if batchSize <= 0 { batchSize = 500 }`
unfoldable pub batch_size_or_default : ℤ → ℕ
batch_size_or_default (pos zero) = 500
batch_size_or_default (pos (suc n)) = suc n
batch_size_or_default (negsuc n) = 500

-- `if it.Qty != nil { item.Qty = *it.Qty }`
unfoldable pub or_old {ℓ} : {A : Type ℓ} → Option A → A → A
or_old none old = old
or_old (some new) old = new

-- The loop over the chunks: `find` is the query of one chunk.
unfoldable pub lookup_chunks :
    (List String → List SkuRow) → List (List String) → Dict String ℕ → Dict String ℕ
lookup_chunks find [] m = m
lookup_chunks find (c ∷ cs) m = lookup_chunks find cs (index_rows (find c) m)

-- What the loop over the items builds.
pub record Built {ℓ} (F : Type ℓ) : Type ℓ where
  pub rows : List (StockItem F)
  pub skipped : ℕ
  pub warnings : List Warning

-- `if err := …; err != nil { return nil, … }; return result, nil`
abbrev pub reply {ℓ κ} : {E : Type ℓ} {A : Type κ} → Option E → A → E ⊎ A
reply none a = inr a
reply (some e) a = inl e

module _ (std : Std) where
  open std use {Float}

  unfoldable pub item_of : ℕ → StockItemInput Float → StockItem Float
  item_of id it =
      let item = new_item std id in
      record item {
        qty = or_old it.qty item.qty;
        is_in_stock = or_old it.is_in_stock item.is_in_stock;
        manage_stock = or_old it.manage_stock item.manage_stock;
        min_qty = or_old it.min_qty item.min_qty;
        min_sale_qty = or_old it.min_sale_qty item.min_sale_qty;
        max_sale_qty = or_old it.max_sale_qty item.max_sale_qty;
      }

  unfoldable pub build_items : Dict String ℕ → List (StockItemInput Float) → Built Float
  build_items sku_to_id [] = record { rows = []; skipped = 0; warnings = [] }
  build_items sku_to_id (it ∷ its) =
      let rest = build_items sku_to_id its in
      if it.sku == ""
      then record rest { skipped = rest.skipped + 1; warnings = empty_sku ∷ rest.warnings }
      else elim (lookup it.sku sku_to_id) [
        | none ↦ record rest {
          skipped = rest.skipped + 1;
          warnings = product_not_found it.sku ∷ rest.warnings;
        }
        | some id ↦ record rest { rows = item_of id it ∷ rest.rows }
      ]

  -- `if it.SKU != "" { skus = append(skus, it.SKU) }`
  unfoldable pub input_skus : List (StockItemInput Float) → List String
  input_skus items = select (λ c. not (c == "")) (map (λ it. it.sku) items)

  module _ {ℓ κ} {S : Type ℓ} {E : Type κ} (find : S → List String → List SkuRow)
      (upsert : List (StockItem Float) → ℕ → Job S E) where
    unfoldable pub upsert_rows : List (StockItem Float) → ℕ → Job S E
    upsert_rows [] batch_size s = (s, none)
    upsert_rows (r ∷ rs) batch_size s = upsert (r ∷ rs) batch_size s

    unfoldable pub import_stock_json :
        List (StockItemInput Float) → ℤ → S → S × (E ⊎ StockImportResult)
    import_stock_json items batch_size s =
        let size = batch_size_or_default batch_size in
        let sku_to_id = lookup_chunks (find s) (batches size (input_skus items)) [] in
        let built = build_items sku_to_id items in
        let (s', err) = upsert_rows built.rows size s in
        let result : StockImportResult = record {
          imported = length built.rows;
          skipped = built.skipped;
          warnings = built.warnings;
        } in
        (s', reply err result)
