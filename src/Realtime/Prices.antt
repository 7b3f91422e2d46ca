-- ===== src/Realtime/Prices.antt =====
-- model/repository/price/price_repository.go and model/repository/inventory/inventory_repository.go. The
-- answers of the SQL queries are a parameter: `none` stands for an error and `some none` for NULL.
use magento_go.Prelude.{
  ℕ, Bool, true, false, String, Option, none, some, List, [], ◌∷◌, is_empty, string_eq,
  if◌then◌else◌,
}
use magento_go.Prelude.Dict.{Dict, insert}
use magento_go.Prelude.Fallible.{Result, ok, map_ok}
use magento_go.Prelude.Int.{ℤ}

-- TierPriceResult
pub record TierPrice (F : Type 0) : Type 0 where
  pub customer_group_id : ℕ
  pub qty : F
  pub value : F
  pub all_groups : ℕ
  pub website_id : ℕ

-- The queries of both repositories. The first argument of those on prices is whether they join by
-- row_id; a row that cannot be scanned is `none`.
pub record Db (E F : Type 0) : Type 0 where
  pub has_row_id : Option Bool
  pub lowest_price : Bool → ℤ → String → Option (Option F)
  pub base_price : Bool → String → Option (Option F)
  pub tier_prices : Bool → String → Result E (List (Option (TierPrice F)))
  pub quantity : String → String → Option (Option F)
  pub quantities : List String → String → Result E (List (Option (String × F)))

-- 0, and the comparison `x >= 999999999`.
pub record Prices (F : Type 0) : Type 0 where
  pub zero : F
  pub is_missing : F → Bool

-- schemaOnce with isEnterprise: `none` until the schema is detected.
abbrev pub Schema : Type 0
Schema = Option Bool

-- `if err := row.Scan(&hasRowID); err != nil { hasRowID = false }`
abbrev pub or_false : Option Bool → Bool
or_false none = false
or_false (some b) = b

-- The rows that can be scanned.
abbrev pub scanned {ℓ} : {A : Type ℓ} → List (Option A) → List A
scanned [] = []
scanned (none ∷ rows) = scanned rows
scanned (some row ∷ rows) = row ∷ scanned rows

module _ {E F : Type 0} (floats : Prices F) (db : Db E F) where
  abbrev pub detect_schema : Schema → Bool
  detect_schema none = or_false db.has_row_id
  detect_schema (some enterprise) = enterprise

  -- The price and whether it was found.
  abbrev pub exec_price_query : Option (Option F) → F × Bool
  exec_price_query none = (floats.zero, false)
  exec_price_query (some none) = (floats.zero, false)
  exec_price_query (some (some price)) =
      if floats.is_missing price then (floats.zero, false) else (price, true)

  abbrev pub value_or_zero : Option (Option F) → F × Bool
  value_or_zero none = (floats.zero, false)
  value_or_zero (some none) = (floats.zero, false)
  value_or_zero (some (some x)) = (x, true)

  unfoldable pub get_lowest_price_by_sku : String → ℤ → Schema → Schema × (F × Bool)
  get_lowest_price_by_sku sku customer_group_id schema =
      let enterprise = detect_schema schema in
      (some enterprise, exec_price_query (db.lowest_price enterprise customer_group_id sku))

  unfoldable pub get_base_price_by_sku : String → Schema → Schema × (F × Bool)
  get_base_price_by_sku sku schema =
      let enterprise = detect_schema schema in
      (some enterprise, value_or_zero (db.base_price enterprise sku))

  unfoldable pub get_tier_prices_by_sku : String → Schema → Schema × Result E (List (TierPrice F))
  get_tier_prices_by_sku sku schema =
      let enterprise = detect_schema schema in
      (some enterprise, map_ok scanned (db.tier_prices enterprise sku))

  abbrev pub get_quantity_by_sku : String → String → F × Bool
  get_quantity_by_sku sku source_code = value_or_zero (db.quantity sku source_code)

  abbrev pub quantities_of : List (String × F) → Dict String F → Dict String F
  quantities_of [] m = m
  quantities_of ((sku, qty) ∷ rows) m = quantities_of rows (insert sku qty m)

  unfoldable pub batch_get_quantities : List String → String → Result E (Dict String F)
  batch_get_quantities skus source_code =
      if is_empty skus
      then ok []
      else map_ok (λ rows. quantities_of (scanned rows) []) (db.quantities skus source_code)
