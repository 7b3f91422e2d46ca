-- ===== src/Resolver/Magento.antt =====
-- graphql/resolvers/magento_resolver.go: a product in the form of Magento's own GraphQL, and the products
-- of a category page by page. The float64 operations are a parameter.
pub mod Stock
use magento_go.Prelude.{
  ℕ, ◌-◌, ◌+◌, ◌/◌, ltb, not, ◌||◌, Bool, true, false, String, ◌<>◌, Option, none, some, List, [],
  ◌∷◌, map, filter_map, length, ◌==◌, string_eq, nat_eq, if◌then◌else◌,
}
use magento_go.Prelude.Dict.{Dict, lookup}
use magento_go.Prelude.Fallible.{Result, err, ok}
use magento_go.Prelude.Int.{ℤ, to_int32}
use magento_go.Product.Value.{
  Scalar, str, float, Value, scalar, fields, rows, Fields, Flat, to_uint,
}
use magento_go.Product.Repo.{
  Db, State, Flats, fetch_with_all_attributes_flat, fetch_with_all_attributes_flat_by_ids,
}
use magento_go.Request.Paging.{positive_or, paginate, total_pages}
use magento_go.Resolver.Mapper.{rows_in, fields_in, str_of, or_empty, filter_price_for_guest}
use magento_go.Resolver.Uid.{Base64, uid_encode, uid_decode}

-- float64: 0, subtraction, `x < 0`, `x > 0` and the conversion to uint.
pub record Floats : Type 1 where
  pub Float : Type 0
  pub zero : Float
  pub minus : Float → Float → Float
  pub is_negative : Float → Bool
  pub is_positive : Float → Bool
  pub truncate : Float → ℕ

-- gqlmodels.MagentoProduct, with the final and the regular price of its price range; currency and
-- rating are constants.
pub record MagentoProduct (F : Type 0) : Type 0 where
  pub id : ℤ
  pub uid : String
  pub sku : String
  pub name : Option String
  pub url_key : Option String
  pub small_image : Option String
  pub stock_status : String
  pub regular_price : F
  pub final_price : F
  pub amount_off : Option F

module _ {F T : Type 0} where
  abbrev pub scalar_of : Option (Value F T) → Option (Scalar F T)
  scalar_of (some (scalar v)) = some v
  scalar_of (some (Value.uints ids)) = none
  scalar_of (some (fields fs)) = none
  scalar_of (some (rows rs)) = none
  scalar_of (some (Value.media_items items)) = none
  scalar_of none = none

  -- `p["sku"].(string)`
  abbrev pub str_in : Option (Value F T) → Option String
  str_in v = str_of (scalar_of v)

  abbrev pub float_of : Option (Scalar F T) → F → F
  float_of (some (float x)) default = x
  float_of (some (Scalar.str s)) default = default
  float_of (some Scalar.nothing) default = default
  float_of (some (Scalar.uint n)) default = default
  float_of (some (Scalar.uint16 n)) default = default
  float_of (some (Scalar.int z)) default = default
  float_of (some (Scalar.int64 z)) default = default
  float_of (some (Scalar.time t)) default = default
  float_of none default = default

  -- `if inStock, ok := si["is_in_stock"]; ok && toUint(inStock) != 0`
  abbrev pub in_stock : (F → ℕ) → Option (Fields F T) → Bool
  in_stock truncate none = false
  in_stock truncate (some si) = not (to_uint truncate (lookup "is_in_stock" si) == 0)

  abbrev pub first_value : List (Fields F T) → String
  first_value [] = ""
  first_value (m ∷ ms) = or_empty (str_of (lookup "value" m))

  -- The image of the product, or else the first one of its gallery.
  unfoldable pub image_url : Flat F T → String → String
  image_url p base_url =
      let image = or_empty (str_in (lookup "image" p)) in
      let first = first_value (rows_in (lookup "media_gallery" p)) in
      if not (image == "")
      then image
      else if first == "" || base_url == ""
      then first
      else base_url <> "/media/catalog/product" <> first

-- `if name != "" { mp.Name = &name }`
abbrev pub unless_empty : String → Option String
unless_empty s = if s == "" then none else some s

module _ (floats : Floats) where
  open floats use {Float, zero, minus, is_negative}

  abbrev pub discount_of : Float → Float → Float
  discount_of price final_price =
      let d = minus price final_price in if is_negative d then zero else d

module _ (b : Base64) (floats : Floats) {T : Type 0} where
  open floats use {Float, zero, is_positive, truncate}

  unfoldable pub flat_to_magento_product : Flat Float T → String → MagentoProduct Float
  unfolding image_url
  flat_to_magento_product p base_url =
      let entity_id = to_uint truncate (scalar_of (lookup "entity_id" p)) in
      let price = float_of (scalar_of (lookup "price" p)) zero in
      let final = float_of (scalar_of (lookup "final_price" p)) price in
      let discount = discount_of floats price final in
      record {
        id = to_int32 entity_id;
        uid = uid_encode b entity_id;
        sku = or_empty (str_in (lookup "sku" p));
        name = unless_empty (or_empty (str_in (lookup "name" p)));
        url_key = unless_empty (or_empty (str_in (lookup "url_key" p)));
        small_image = unless_empty (image_url p base_url);
        stock_status =
            if in_stock truncate (fields_in (lookup "stock_item" p))
            then "IN_STOCK"
            else "OUT_OF_STOCK";
        regular_price = price;
        final_price = final;
        amount_off = if is_positive discount then some discount else none;
      }
