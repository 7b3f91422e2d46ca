-- ===== src/Resolver/Products.antt =====
-- graphql/resolvers/product.go: the query for products by SKU and the query for one product. A map of
-- products is in an order of iteration. `decode` is what mapstructure makes of a map.
pub mod Unknown
pub mod Image
mod Tests
use magento_go.Prelude.{
  ℕ, not, Bool, true, false, ◌&&◌, String, Option, none, some, List, [], ◌∷◌, ◌++◌, map, length,
  is_empty, any, ◌==◌, string_eq, if◌then◌else◌,
}
use magento_go.Prelude.Dict.{Dict, lookup, asked}
use magento_go.Prelude.Fallible.{Result, err, ok, map_ok}
use magento_go.Prelude.Int.{ℤ, to_int32}
use magento_go.Product.Value.{Flat, to_uint}
use magento_go.Product.Repo.{
  Db, State, Flats, fetch_with_all_attributes_flat, fetch_with_all_attributes_flat_by_ids,
}
use magento_go.Request.Paging.{positive_or, paginate, total_pages}
use magento_go.Resolver.Mapper.{filter_price_for_guest, filter_products_for_guest, flat_to_product}
use magento_go.Resolver.Magento.{scalar_of, str_in}
use magento_go.Resolver.Shared.{write_flats}
use magento_go.Resolver.Listing.{guest_group_id}

pub record ProductsArgs : Type 0 where
  pub page_size : ℤ
  pub current_page : ℤ
  pub skus : Option (List String)

-- gqlmodels.ProductSearchResult; an item that cannot be decoded is `none`.
pub record SearchResult (P : Type 0) : Type 0 where
  pub items : List (Option P)
  pub total_count : ℤ
  pub page_size : ℤ
  pub current_page : ℤ
  pub total_pages : ℤ

abbrev pub list_or_nil : Option (List String) → List String
list_or_nil none = []
list_or_nil (some skus) = skus

-- `if sku, ok := p["sku"].(string); ok && skuSet[sku]`
abbrev pub sku_asked : List String → Option String → Bool
sku_asked skus none = false
sku_asked skus (some sku) = asked sku skus

abbrev pub is_wanted : Option String → Option String → Bool
is_wanted none held = false
is_wanted (some text) none = false
is_wanted (some text) (some held) = held == text

module _ {F T : Type 0} where
  unfoldable pub matched_ids : (F → ℕ) → List String → Flats F T → List ℕ
  matched_ids truncate skus [] = []
  matched_ids truncate skus ((id, p) ∷ flats) =
      let rest = matched_ids truncate skus flats in
      if sku_asked skus (str_in (lookup "sku" p))
      then to_uint truncate (scalar_of (lookup "entity_id" p)) ∷ rest
      else rest

module _ {E F T : Type 0} where
  abbrev pub fetch_matched :
      Db E F T → Bool → ℕ → State F T × List ℕ → State F T × Result E (Flats F T)
  fetch_matched db disabled store (s, []) = fetch_with_all_attributes_flat db disabled store s
  fetch_matched db disabled store (s, id ∷ ids) =
      fetch_with_all_attributes_flat_by_ids db disabled (id ∷ ids) store s

module _ {E F T : Type 0} (truncate : F → ℕ) where
  -- An error of the query for the SKUs is ignored.
  abbrev pub matched : List String → State F T × Result E (Flats F T) → State F T × List ℕ
  matched skus (s, err e) = (s, [])
  matched skus (s, ok flats) = (s, matched_ids truncate skus flats)

  abbrev pub ids_by_sku : Db E F T → Bool → ℕ → List String → State F T → State F T × List ℕ
  ids_by_sku db disabled store [] s = (s, [])
  ids_by_sku db disabled store (sku ∷ skus) s =
      matched (sku ∷ skus) (fetch_with_all_attributes_flat db disabled store s)

module _ {F T P : Type 0} (truncate : F → ℕ) (decode : Flat F T → Option P) where
  abbrev pub search_result : ProductsArgs → Flats F T → SearchResult P
  search_result args flats =
      let ps = positive_or 20 args.page_size in
      let cp = positive_or 1 args.current_page in
      let all_items = filter_products_for_guest truncate flats guest_group_id in
      record {
        items = map (λ p. (flat_to_product truncate decode p).0) (paginate all_items cp ps);
        total_count = to_int32 (length all_items);
        page_size = to_int32 ps;
        current_page = to_int32 cp;
        total_pages = to_int32 (total_pages (length all_items) ps);
      }

  -- The product that is shown, and its map with what is written into it.
  abbrev pub show : ℕ → Flat F T → Option P × Flats F T
  show id p =
      let (shown, p1) =
        flat_to_product truncate decode (filter_price_for_guest truncate p guest_group_id) in
      (shown, (id, p1) ∷ [])

  abbrev pub filtered : Flats F T → Flats F T
  filtered [] = []
  filtered ((id, p) ∷ flats) =
      (id, filter_price_for_guest truncate p guest_group_id) ∷ filtered flats

  abbrev pub prepared : Flats F T → Flats F T
  prepared [] = []
  prepared ((id, p) ∷ flats) = (id, (flat_to_product truncate decode p).1) ∷ prepared flats

  -- Every map that was fetched has its price written, those of the page are then prepared as well.
  abbrev pub writes : ProductsArgs → Flats F T → Flats F T
  writes args flats =
      let page =
        paginate (filtered flats) (positive_or 1 args.current_page)
          (positive_or 20 args.page_size) in
      filtered flats ++ prepared page

  -- The first product, in the order of iteration, with the SKU or the URL key.
  unfoldable pub find_product :
      Option String → Option String → Flats F T → Option (Option P) × Flats F T
  find_product sku url_key [] = (none, [])
  find_product sku url_key ((id, p) ∷ flats) =
      let rest = find_product sku url_key flats in
      let (shown, written) = show id p in
      if is_wanted sku (str_in (lookup "sku" p))
      then (some shown, written)
      else if is_wanted url_key (str_in (lookup "url_key" p))
      then (some shown, written)
      else rest

module _ {E F T P : Type 0} (truncate : F → ℕ) (decode : Flat F T → Option P) where
  abbrev pub result_of :
      Bool
      → ProductsArgs
      → ℕ
      → State F T × Result E (Flats F T)
      → State F T × Result E (SearchResult P)
  result_of disabled args store (s, err e) = (s, err e)
  result_of disabled args store (s, ok flats) = (
    write_flats disabled store (writes truncate decode args flats) s,
    ok (search_result truncate decode args flats),
  )

  abbrev pub found_of :
      Bool
      → Option String
      → Option String
      → ℕ
      → State F T × Result E (Flats F T)
      → State F T × Result E (Option (Option P))
  found_of disabled sku url_key store (s, err e) = (s, err e)
  found_of disabled sku url_key store (s, ok flats) =
      let found = find_product truncate decode sku url_key flats in
      (write_flats disabled store found.1 s, ok found.0)

  -- Products
  unfoldable pub products :
      Db E F T → Bool → ProductsArgs → ℕ → State F T → State F T × Result E (SearchResult P)
  unfolding matched_ids
  products db disabled args store s = result_of disabled args store (
      fetch_matched db disabled store
        (ids_by_sku truncate db disabled store (list_or_nil args.skus) s))

  -- Product
  unfoldable pub product :
      Db E F T
      → Bool
      → Option String
      → Option String
      → ℕ
      → State F T
      → State F T × Result E (Option (Option P))
  product db disabled sku url_key store s =
      found_of disabled sku url_key store (fetch_with_all_attributes_flat db disabled store s)
