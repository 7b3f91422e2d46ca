-- ===== src/Product/Flat.antt =====
-- model/repository/product/product_repository.go, FlattenProductAttributesWithCodes and attrKey: the
-- map of a product under the codes of its attributes. The rows are what the query preloads for one store.
pub mod Laws
use magento_go.Prelude.{
  ℕ, String, Option, none, some, List, [], ◌∷◌, map, length, ltb, ◌==◌, string_eq, nat_eq,
  if◌then◌else◌,
}
use magento_go.Prelude.Decimal.{format_uint}
use magento_go.Prelude.Dict.{Dict, lookup, insert}
use magento_go.Prelude.Int.{ℤ}
use magento_go.Product.Value.{
  Scalar, str, uint, uint16, int, float, time, Value, scalar, uints, fields, rows, Fields, Flat,
}

-- ProductVarchar, ProductInt, ProductDecimal, ProductText and ProductDatetime, by the type of value.
pub record AttributeRow {ℓ} (V : Type ℓ) : Type ℓ where
  pub attribute_id : ℕ
  pub store_id : ℕ
  pub entity_id : ℕ
  pub value : V

-- The fields that are flattened.
pub record MediaGallery : Type 0 where
  pub value_id : ℕ
  pub value : String
  pub media_type : String
  pub disabled : ℕ

pub record StockItem (F : Type 0) : Type 0 where
  pub item_id : ℕ
  pub product_id : ℕ
  pub qty : F
  pub min_qty : F
  pub max_sale_qty : F
  pub is_in_stock : ℕ
  pub manage_stock : ℕ
  pub website_id : ℕ

pub record IndexPrice (F : Type 0) : Type 0 where
  pub entity_id : ℕ
  pub customer_group_id : ℕ
  pub website_id : ℕ
  pub tax_class_id : ℕ
  pub price : F
  pub final_price : F
  pub min_price : F
  pub max_price : F
  pub tier_price : F

-- A product as it is loaded with its relations. Of its categories the ids are read.
pub record Product (F T : Type 0) : Type 0 where
  pub entity_id : ℕ
  pub sku : String
  pub type_id : String
  pub created_at : T
  pub updated_at : T
  pub category_ids : List ℕ
  pub varchars : List (AttributeRow String)
  pub ints : List (AttributeRow ℤ)
  pub decimals : List (AttributeRow F)
  pub texts : List (AttributeRow String)
  pub datetimes : List (AttributeRow T)
  pub media_gallery : List MediaGallery
  pub stock_item : StockItem F
  pub index_prices : List (IndexPrice F)

-- `attrMap[attrID]` is "" where the map has no such key.
abbrev pub code_in : Option String → String
code_in none = ""
code_in (some k) = k

unfoldable pub attr_key : Dict ℕ String → ℕ → String
attr_key attr_map id = let k = code_in (lookup id attr_map) in if k == "" then format_uint id else k

module _ {F T : Type 0} where
  abbrev pub core_fields : Product F T → Flat F T
  core_fields p =
      ("entity_id", scalar (uint p.entity_id))
      ∷ ("sku", scalar (str p.sku))
      ∷ ("type_id", scalar (str p.type_id))
      ∷ ("created_at", scalar (time p.created_at))
      ∷ ("updated_at", scalar (time p.updated_at))
      ∷ []

  -- `for _, v := range product.Varchars { attrs[attrKey(attrMap, v.AttributeID)] = v.Value }`, and so
  -- for the other types.
  unfoldable pub put_rows :
      {V : Type 0} → Dict ℕ String → (V → Scalar F T) → List (AttributeRow V) → Flat F T → Flat F T
  put_rows attr_map as_scalar [] attrs = attrs
  put_rows attr_map as_scalar (v ∷ vs) attrs =
      put_rows attr_map as_scalar vs
        (insert (attr_key attr_map v.attribute_id) (scalar (as_scalar v.value)) attrs)

  unfoldable pub put_attributes : Dict ℕ String → Product F T → Flat F T → Flat F T
  unfolding put_rows
  put_attributes m p attrs = put_rows m time p.datetimes (
      put_rows m str p.texts
        (put_rows m float p.decimals (put_rows m int p.ints (put_rows m str p.varchars attrs))))

  abbrev pub media_map : MediaGallery → Fields F T
  media_map mg =
      ("value_id", uint mg.value_id)
      ∷ ("value", str mg.value)
      ∷ ("media_type", str mg.media_type)
      ∷ ("disabled", uint16 mg.disabled)
      ∷ []

  abbrev pub stock_map : StockItem F → Fields F T
  stock_map item =
      ("item_id", uint item.item_id)
      ∷ ("qty", float item.qty)
      ∷ ("is_in_stock", uint16 item.is_in_stock)
      ∷ ("min_qty", float item.min_qty)
      ∷ ("max_sale_qty", float item.max_sale_qty)
      ∷ ("manage_stock", uint16 item.manage_stock)
      ∷ ("website_id", uint16 item.website_id)
      ∷ []

  abbrev pub price_map : IndexPrice F → Fields F T
  price_map ip =
      ("entity_id", uint ip.entity_id)
      ∷ ("customer_group_id", uint ip.customer_group_id)
      ∷ ("website_id", uint16 ip.website_id)
      ∷ ("tax_class_id", uint16 ip.tax_class_id)
      ∷ ("price", float ip.price)
      ∷ ("final_price", float ip.final_price)
      ∷ ("min_price", float ip.min_price)
      ∷ ("max_price", float ip.max_price)
      ∷ ("tier_price", float ip.tier_price)
      ∷ []

  -- `if product.StockItem.ProductID != 0 { attrs["stock_item"] = stock }`
  unfoldable pub put_stock : StockItem F → Flat F T → Flat F T
  put_stock item attrs =
      if item.product_id == 0 then attrs else insert "stock_item" (fields (stock_map item)) attrs

  unfoldable pub flatten_product : Dict ℕ String → Product F T → Flat F T
  unfolding put_attributes put_stock
  flatten_product m p =
      let attrs1 = put_attributes m p (core_fields p) in
      let attrs2 = insert "category_ids" (uints p.category_ids) attrs1 in
      let attrs3 = insert "media_gallery" (rows (map media_map p.media_gallery)) attrs2 in
      insert "index_prices" (rows (map price_map p.index_prices)) (put_stock p.stock_item attrs3)
