-- ===== src/Resolver/Mapper.antt =====
-- graphql/resolvers/product_mapper.go: the price of a customer group, and what is changed in a
-- product's map before mapstructure decodes it into a gqlmodels.Product. The map belongs to the cache of
-- the repository, so each function returns what is left in it. `truncate` is Go's conversion of a
-- float64 to uint.
pub mod Laws
use magento_go.Prelude.{
  ℕ, String, Option, none, some, List, [], ◌∷◌, map, ◌==◌, string_eq, nat_eq, if◌then◌else◌,
}
use magento_go.Prelude.Decimal.{format_uint}
use magento_go.Prelude.Dict.{Dict, lookup, insert}
use magento_go.Product.Value.{
  Scalar, nothing, str, Value, scalar, fields, rows, media_items, MediaGalleryItem, Fields, Flat,
  to_uint,
}

abbrev pub or_empty : Option String → String
or_empty none = ""
or_empty (some s) = s

module _ {F T : Type 0} where
  -- `p["index_prices"].([]map[string]interface{})`
  abbrev pub rows_in : Option (Value F T) → List (Fields F T)
  rows_in (some (rows rs)) = rs
  rows_in (some (scalar v)) = []
  rows_in (some (Value.uints ids)) = []
  rows_in (some (fields fs)) = []
  rows_in (some (media_items items)) = []
  rows_in none = []

  -- `p["stock_item"].(map[string]interface{})`
  abbrev pub fields_in : Option (Value F T) → Option (Fields F T)
  fields_in (some (fields fs)) = some fs
  fields_in (some (scalar v)) = none
  fields_in (some (Value.uints ids)) = none
  fields_in (some (rows rs)) = none
  fields_in (some (media_items items)) = none
  fields_in none = none

  -- `v.(string)` of a value in a nested map
  abbrev pub str_of : Option (Scalar F T) → Option String
  str_of (some (str s)) = some s
  str_of (some nothing) = none
  str_of (some (Scalar.uint n)) = none
  str_of (some (Scalar.uint16 n)) = none
  str_of (some (Scalar.int z)) = none
  str_of (some (Scalar.int64 z)) = none
  str_of (some (Scalar.float x)) = none
  str_of (some (Scalar.time t)) = none
  str_of none = none

  -- `ip["price"]`, which is nil where the key is missing
  abbrev pub or_nothing : Option (Scalar F T) → Value F T
  or_nothing none = scalar nothing
  or_nothing (some v) = scalar v

  abbrev pub put_prices : Fields F T → Flat F T → Flat F T
  put_prices ip p =
      insert "final_price" (or_nothing (lookup "final_price" ip))
        (insert "price" (or_nothing (lookup "price" ip)) p)

  -- The first price of the group, at which the loop breaks.
  unfoldable pub price_from : (F → ℕ) → ℕ → List (Fields F T) → Flat F T → Flat F T
  price_from truncate group [] p = p
  price_from truncate group (ip ∷ ips) p =
      let rest = price_from truncate group ips p in
      if to_uint truncate (lookup "customer_group_id" ip) == group then put_prices ip p else rest

  unfoldable pub filter_price_for_guest : (F → ℕ) → Flat F T → ℕ → Flat F T
  unfolding price_from
  filter_price_for_guest truncate p group =
      price_from truncate group (rows_in (lookup "index_prices" p)) p

  abbrev pub filter_products_for_guest : (F → ℕ) → Dict ℕ (Flat F T) → ℕ → List (Flat F T)
  filter_products_for_guest truncate [] group = []
  filter_products_for_guest truncate ((id, p) ∷ flat) group =
      filter_price_for_guest truncate p group ∷ filter_products_for_guest truncate flat group

  abbrev pub id_text : (F → ℕ) → Option (Scalar F T) → String
  id_text truncate none = ""
  id_text truncate (some v) = format_uint (to_uint truncate (some v))

  unfoldable pub media_item_from_map : (F → ℕ) → Fields F T → MediaGalleryItem
  media_item_from_map truncate m = record {
    value_id = id_text truncate (lookup "value_id" m);
    value = or_empty (str_of (lookup "value" m));
    media_type = str_of (lookup "media_type" m);
  }

  abbrev pub put_found : String → Option (Scalar F T) → Flat F T → Flat F T
  put_found key none p = p
  put_found key (some v) p = insert key (scalar v) p

  abbrev pub put_stock_fields : Option (Fields F T) → Flat F T → Flat F T
  put_stock_fields none p = p
  put_stock_fields (some si) p =
      put_found "qty" (lookup "qty" si) (put_found "is_in_stock" (lookup "is_in_stock" si) p)

  abbrev pub put_media : (F → ℕ) → Option (Value F T) → Flat F T → Flat F T
  put_media truncate (some (rows mg)) p =
      insert "media_gallery" (media_items (map (media_item_from_map truncate) mg)) p
  put_media truncate (some (scalar v)) p = p
  put_media truncate (some (Value.uints ids)) p = p
  put_media truncate (some (fields fs)) p = p
  put_media truncate (some (media_items items)) p = p
  put_media truncate none p = p

  -- What flatToProduct has written into the map when it calls the decoder.
  unfoldable pub prepare : (F → ℕ) → Flat F T → Flat F T
  prepare truncate p =
      let p1 = put_stock_fields (fields_in (lookup "stock_item" p)) p in
      put_media truncate (lookup "media_gallery" p1) p1

  -- The decoder of mapstructure is a parameter. The product is empty where it fails, which is `none`,
  -- and holds the map beside what is decoded otherwise; the map is changed in both cases.
  unfoldable pub flat_to_product :
      {P : Type 0} → (F → ℕ) → (Flat F T → Option P) → Flat F T → Option P × Flat F T
  unfolding prepare
  flat_to_product truncate decode p = let p1 = prepare truncate p in (decode p1, p1)
