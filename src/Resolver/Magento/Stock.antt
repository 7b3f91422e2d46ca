-- ===== src/Resolver/Magento/Stock.antt =====
-- flatToMagentoProduct of graphql/resolvers/magento_resolver.go on the flat map of a product: its stock
-- status and its image.
use magento_go.Prelude.{
  ℕ, ◌≡◌, ◌∙◌, refl, ap, Bool, true, false, Bool-cases, inl, inr, String, Option, none, some, List,
  [], ◌∷◌, ◌==◌, string_eq, nat_eq, if◌then◌else◌,
}
use magento_go.Prelude.Dict.{Dict, lookup, or_else, lookup-insert}
use magento_go.Product.Value.{Scalar, Value, scalar, rows, media_items, Fields, Flat, to_uint}
use magento_go.Product.Flat.{
  Product, AttributeRow, IndexPrice, stock_map, attr_key, flatten_product,
}
use magento_go.Product.Flat.Laws.{last_value, attribute_value, lookup-flatten_product}
use magento_go.Resolver.Uid.{Base64}
use magento_go.Resolver.Mapper.{
  fields_in, rows_in, or_empty, prepare, put_found, put_media, put_stock_fields,
  filter_price_for_guest,
}
use magento_go.Resolver.Mapper.Laws.{priced, group_price, lookup-filter_price_for_guest}
use magento_go.Resolver.Magento.{Floats, in_stock, str_in, image_url, flat_to_magento_product}

module _ {F T : Type 0} where
  or_else-no_fields :
      (a b : Option (Value F T))
      → fields_in a ≡ none
      → fields_in b ≡ none
      → fields_in (or_else a b) ≡ none
  or_else-no_fields none b h k = k
  or_else-no_fields (some a) b h k = h

  -- An attribute's value is no nested map.
  last_value-no_fields :
      {V : Type 0} (m : Dict ℕ String) (as_scalar : V → Scalar F T) (key : String)
      (vs : List (AttributeRow V))
      → fields_in (last_value m as_scalar key vs) ≡ none
  last_value-no_fields m as_scalar key [] = refl
  last_value-no_fields m as_scalar key (v ∷ vs) =
      or_else-no_fields (last_value m as_scalar key vs) _ (last_value-no_fields m as_scalar key vs)
        (scalar_or_none (attr_key m v.attribute_id == key) (as_scalar v.value))
    where
      scalar_or_none :
          (t : Bool) (x : Scalar F T) → fields_in (if t then some (scalar x) else none) ≡ none
      scalar_or_none true x = refl
      scalar_or_none false x = refl

  attribute_value-no_fields :
      (m : Dict ℕ String) (p : Product F T) (key : String)
      → fields_in (attribute_value m p key) ≡ none
  attribute_value-no_fields m p key =
      or_else-no_fields _ _ (last_value-no_fields m _ key p.datetimes) (
        or_else-no_fields _ _ (last_value-no_fields m _ key p.texts) (
          or_else-no_fields _ _ (last_value-no_fields m _ key p.decimals) (
            or_else-no_fields _ _ (last_value-no_fields m _ key p.ints)
              (last_value-no_fields m _ key p.varchars))))

  -- A product's stock is a nested map only if it is the product's own stock item.
  stock_item-flatten_product :
      (m : Dict ℕ String) (p : Product F T)
      → fields_in (lookup "stock_item" (flatten_product m p))
        ≡ (if p.stock_item.product_id == 0 then none else some (stock_map p.stock_item))
  unfolding lookup
  stock_item-flatten_product m p =
      ap fields_in (lookup-flatten_product m p "stock_item")
      ∙ elim (Bool-cases (p.stock_item.product_id == 0)) [
        | inl e ↦ rw e (
            or_else-no_fields (attribute_value m p "stock_item") none
              (attribute_value-no_fields m p "stock_item") refl)
        | inr e ↦ rw e refl
      ]

  in_stock-flatten_product :
      (truncate : F → ℕ) (m : Dict ℕ String) (p : Product F T)
      → in_stock truncate (fields_in (lookup "stock_item" (flatten_product m p))) ≡ false
  unfolding to_uint lookup
  in_stock-flatten_product truncate m p =
      ap (in_stock truncate) (stock_item-flatten_product m p)
      ∙ elim (Bool-cases (p.stock_item.product_id == 0)) [ inl e ↦ rw e refl | inr e ↦ rw e refl ]

  priced_stock :
      (o : Option (IndexPrice F)) (old : Option (Value F T)) → priced o "stock_item" old ≡ old
  priced_stock none old = refl
  priced_stock (some ip) old = refl

  lookup-put_found :
      (key : String) (v : Option (Scalar F T)) (p : Flat F T) (asked : String)
      → (key == asked) ≡ false
      → lookup asked (put_found key v p) ≡ lookup asked p
  lookup-put_found key none p asked h = refl
  lookup-put_found key (some v) p asked h = rw (lookup-insert, h) refl

  lookup-put_stock_fields :
      (si : Option (Fields F T)) (p : Flat F T) (asked : String)
      → ("qty" == asked) ≡ false
      → ("is_in_stock" == asked) ≡ false
      → lookup asked (put_stock_fields si p) ≡ lookup asked p
  lookup-put_stock_fields none p asked h k = refl
  lookup-put_stock_fields (some si) p asked h k =
      lookup-put_found "qty" (lookup "qty" si) _ asked h
      ∙ lookup-put_found "is_in_stock" (lookup "is_in_stock" si) p asked k

  image-put_media :
      (truncate : F → ℕ) (v : Option (Value F T)) (p : Flat F T)
      → lookup "image" (put_media truncate v p) ≡ lookup "image" p
  image-put_media truncate none p = refl
  image-put_media truncate (some (rows mg)) p = rw lookup-insert refl
  image-put_media truncate (some (scalar v)) p = refl
  image-put_media truncate (some (Value.uints ids)) p = refl
  image-put_media truncate (some (Value.fields fs)) p = refl
  image-put_media truncate (some (media_items items)) p = refl

  rows_in-put_media :
      (truncate : F → ℕ) (v : Option (Value F T)) (p : Flat F T)
      → lookup "media_gallery" p ≡ v
      → rows_in (lookup "media_gallery" (put_media truncate v p)) ≡ []
  rows_in-put_media truncate none p h = rw h refl
  rows_in-put_media truncate (some (rows mg)) p h = rw lookup-insert refl
  rows_in-put_media truncate (some (scalar v)) p h = rw h refl
  rows_in-put_media truncate (some (Value.uints ids)) p h = rw h refl
  rows_in-put_media truncate (some (Value.fields fs)) p h = rw h refl
  rows_in-put_media truncate (some (media_items items)) p h = rw h refl

module _ (b : Base64) (floats : Floats) {T : Type 0} where
  open floats use {Float, truncate}

  -- Every product that the repository flattens is shown as out of stock, whatever its stock item says:
  -- the flag is put into the map as a uint16, which the conversion to uint does not know.
  pub stock_status-flatten_product :
      (m : Dict ℕ String) (p : Product Float T) (group : ℕ) (base_url : String)
      → (flat_to_magento_product b floats
          (filter_price_for_guest truncate (flatten_product m p) group)
          base_url).stock_status
        ≡ "OUT_OF_STOCK"
  unfolding flat_to_magento_product
  stock_status-flatten_product m p group base_url =
      rw
        (
          (lookup-filter_price_for_guest truncate m p group "stock_item").0,
          priced_stock (group_price group p.index_prices),
          in_stock-flatten_product truncate m p,
        )
        refl

  -- After the map has been prepared for the other query, its gallery gives no image any more.
  pub small_image-prepare :
      (p : Flat Float T) (base_url : String)
      → or_empty (str_in (lookup "image" p)) ≡ ""
      → (flat_to_magento_product b floats (prepare truncate p) base_url).small_image ≡ none
  unfolding flat_to_magento_product image_url prepare
  small_image-prepare p base_url h =
      let p1 = put_stock_fields (fields_in (lookup "stock_item" p)) p in
      let v = lookup "media_gallery" p1 in
      rw
        (
          image_url,
          image-put_media truncate v p1,
          lookup-put_stock_fields (fields_in (lookup "stock_item" p)) p "image" refl refl,
          h,
          rows_in-put_media truncate v p1 refl,
        )
        refl
