-- ===== src/Import/Price.antt =====
-- service/product/import_price.go: the price columns of the CSV import. The item has the fields that
-- the importer writes; `TaxClassID` of model/entity/product/product_index_price.go stays 0.
pub mod Rows
mod Tests
use magento_go.Prelude.{
  ℕ, String, Bool, true, false, Option, none, some, List, [], ◌∷◌, string_eq, if◌then◌else◌,
}
use magento_go.Prelude.Dict.{Dict}
use magento_go.Import.Std.{Std}
use magento_go.Import.Row.{Step, go, skip, warn, ◌>>=◌, sku_column, cell, has_any, known_sku}
use magento_go.Import.Row.Collect.{Collected, nothing, collect}

abbrev pub price_columns : List String
price_columns = "price_index" ∷ "final_price" ∷ "min_price" ∷ "max_price" ∷ "tier_price" ∷ []

-- The warning, by the arguments of its format.
pub data Warning : Type 0 where
  invalid_price_index : String → String → Warning

pub record ProductIndexPrice {ℓ} (F : Type ℓ) : Type ℓ where
  pub entity_id : ℕ
  pub customer_group_id : ℕ
  pub website_id : ℕ
  pub price : F
  pub final_price : F
  pub min_price : F
  pub max_price : F
  pub tier_price : F

module _ (std : Std) where
  open std use {Float, float_zero, parse_float}

  unfoldable pub new_price : ℕ → ProductIndexPrice Float
  new_price id = record {
    entity_id = id;
    customer_group_id = 0;
    website_id = 1;
    price = float_zero;
    final_price = float_zero;
    min_price = float_zero;
    max_price = float_zero;
    tier_price = float_zero;
  }

  abbrev pub Draft : Type 0
  Draft = ProductIndexPrice Float × Bool

  -- `price_index` sets the price and its three variants.
  unfoldable pub set_price_index : String → Option String → Draft → Step Warning Draft
  set_price_index sku none d = go d
  set_price_index sku (some v) (item, populated) =
      let (fv, parsed) = parse_float v in
      if parsed
      then go (record item { price = fv; final_price = fv; min_price = fv; max_price = fv }, true)
      else warn (invalid_price_index sku v)

  -- The errors of the columns below are dropped.
  unfoldable pub set_final_price : Option String → Draft → Draft
  set_final_price none d = d
  set_final_price (some v) (item, populated) =
      (record item { final_price = (parse_float v).0 }, true)

  unfoldable pub set_min_price : Option String → ProductIndexPrice Float → ProductIndexPrice Float
  set_min_price none item = item
  set_min_price (some v) item = record item { min_price = (parse_float v).0 }

  unfoldable pub set_max_price : Option String → ProductIndexPrice Float → ProductIndexPrice Float
  set_max_price none item = item
  set_max_price (some v) item = record item { max_price = (parse_float v).0 }

  unfoldable pub set_tier_price : Option String → ProductIndexPrice Float → ProductIndexPrice Float
  set_tier_price none item = item
  set_tier_price (some v) item = record item { tier_price = (parse_float v).0 }

  -- The body of the loop over the rows.
  unfoldable pub price_row :
      Dict String ℕ → Dict String ℕ → List String → Step Warning (ProductIndexPrice Float)
  price_row col_index sku_to_id row = do
    (sku, id) ← known_sku sku_to_id (sku_column col_index) row
    d ← set_price_index sku (cell "price_index" col_index row) (new_price id, false)
    let (item, populated) = set_final_price (cell "final_price" col_index row) d
    let item1 = set_min_price (cell "min_price" col_index row) item
    let item2 = set_max_price (cell "max_price" col_index row) item1
    let item3 = set_tier_price (cell "tier_price" col_index row) item2
    if populated then go item3 else skip

  unfoldable pub collect_price :
      List (List String)
      → Dict String ℕ
      → Dict String ℕ
      → Collected Warning (ProductIndexPrice Float)
  collect_price rows col_index sku_to_id =
      if has_any price_columns col_index
      then collect (price_row col_index sku_to_id) rows
      else nothing
