-- ===== src/Product/Flat/Laws.antt =====
-- What FlattenProductAttributesWithCodes puts under each key.
use magento_go.Prelude.{
  ℕ, ◌≡◌, refl, String, Option, none, some, List, [], ◌∷◌, map, ◌==◌, string_eq, nat_eq, arith,
  if◌then◌else◌,
}
use magento_go.Prelude.Dict.{Dict, lookup, insert, lookup-insert, or_else}
use magento_go.Product.Value.{
  Scalar, str, int, float, time, Value, scalar, uints, fields, rows, Flat,
}
use magento_go.Product.Flat.{
  AttributeRow, Product, StockItem, attr_key, core_fields, put_rows, put_attributes, put_stock,
  media_map, stock_map, price_map, flatten_product,
}

module _ {F T : Type 0} where
  -- The value of the last row whose attribute has the key.
  abbrev pub last_value :
      {V : Type 0}
      → Dict ℕ String
      → (V → Scalar F T)
      → String
      → List (AttributeRow V)
      → Option (Value F T)
  last_value m as_scalar key [] = none
  last_value m as_scalar key (v ∷ vs) =
      or_else (last_value m as_scalar key vs)
        (if attr_key m v.attribute_id == key then some (scalar (as_scalar v.value)) else none)

  lookup-put_rows :
      {V : Type 0} (m : Dict ℕ String) (as_scalar : V → Scalar F T) (key : String)
      (vs : List (AttributeRow V)) (attrs : Flat F T)
      → lookup key (put_rows m as_scalar vs attrs)
        ≡ or_else (last_value m as_scalar key vs) (lookup key attrs)
  unfolding put_rows
  lookup-put_rows m as_scalar key [] attrs = refl
  lookup-put_rows m as_scalar key (v ∷ vs) attrs =
      let own = attr_key m v.attribute_id in
      rw
        (
          lookup-put_rows m as_scalar key vs (insert own (scalar (as_scalar v.value)) attrs),
          lookup-insert own key (scalar (as_scalar v.value)) attrs,
        )
        (ground arith)

  -- Datetimes come last, so that they win.
  abbrev pub attribute_value : Dict ℕ String → Product F T → String → Option (Value F T)
  attribute_value m p key = or_else (last_value m time key p.datetimes) (
      or_else (last_value m str key p.texts) (
        or_else (last_value m float key p.decimals)
          (or_else (last_value m int key p.ints) (last_value m str key p.varchars))))

  or_else_assoc : (a b c : Option (Value F T)) → or_else (or_else a b) c ≡ or_else a (or_else b c)
  or_else_assoc none b c = refl
  or_else_assoc (some v) b c = refl

  lookup-put_attributes :
      (m : Dict ℕ String) (p : Product F T) (key : String) (attrs : Flat F T)
      → lookup key (put_attributes m p attrs) ≡ or_else (attribute_value m p key) (lookup key attrs)
  unfolding put_attributes
  lookup-put_attributes m p key attrs =
      rw
        (
          or_else_assoc,
          or_else_assoc,
          or_else_assoc,
          or_else_assoc,
          lookup-put_rows m time key p.datetimes,
          lookup-put_rows m str key p.texts,
          lookup-put_rows m float key p.decimals,
          lookup-put_rows m int key p.ints,
          lookup-put_rows m str key p.varchars,
        )
        refl

  lookup-put_stock :
      (item : StockItem F) (key : String) (attrs : Flat F T)
      → lookup key (put_stock item attrs)
        ≡ or_else
            (if "stock_item" == key
              then (if item.product_id == 0 then none else some (fields (stock_map item)))
              else none)
            (lookup key attrs)
  unfolding put_stock
  lookup-put_stock item key attrs =
      ground (arith, lookup-insert "stock_item" key (fields (stock_map item)) attrs)

  -- What a product holds under a key: the four keys that are set last, then the product's attributes,
  -- then its own columns.
  abbrev pub flat_value : Dict ℕ String → Product F T → String → Option (Value F T)
  flat_value m p key =
      if "index_prices" == key
      then some (rows (map price_map p.index_prices))
      else or_else
          (if "stock_item" == key
            then (if p.stock_item.product_id == 0
                then none
                else some (fields (stock_map p.stock_item)))
            else none)
          (if "media_gallery" == key
            then some (rows (map media_map p.media_gallery))
            else if "category_ids" == key
            then some (uints p.category_ids)
            else or_else (attribute_value m p key) (lookup key (core_fields p)))

  -- Every key of the flat map holds what the description says. So an attribute with the code of a
  -- column, such as sku, hides the column, and one with the code of a relation is hidden.
  pub lookup-flatten_product :
      (m : Dict ℕ String) (p : Product F T) (key : String)
      → lookup key (flatten_product m p) ≡ flat_value m p key
  unfolding flatten_product
  lookup-flatten_product m p key =
      let attrs1 = put_attributes m p (core_fields p) in
      let attrs2 = insert "category_ids" (uints p.category_ids) attrs1 in
      let attrs3 = insert "media_gallery" (rows (map media_map p.media_gallery)) attrs2 in
      rw
        (
          lookup-insert "index_prices" key (rows (map price_map p.index_prices))
              (put_stock p.stock_item attrs3),
          lookup-put_stock p.stock_item key attrs3,
          lookup-insert "media_gallery" key (rows (map media_map p.media_gallery)) attrs2,
          lookup-insert "category_ids" key (uints p.category_ids) attrs1,
          lookup-put_attributes m p key (core_fields p),
        )
        refl
