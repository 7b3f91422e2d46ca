-- ===== src/Product/Repo.antt =====
-- model/repository/product/product_repository.go: the queries of a product repository and the caches
-- that live beside it, which are the map of attribute codes, loaded once for the process, and the flat
-- products of each store. What the database answers during a call is a parameter; an id stands for a
-- uint and a store for a uint16.
pub mod Exact
pub mod Unchanged
pub mod Cached
pub mod Again
use magento_go.Prelude.{
  ℕ, ltb, leb, Bool, true, false, ◌&&◌, Option, none, some, String, List, [], ◌∷◌, ◌++◌, is_empty,
  length, nat_eq, if◌then◌else◌,
}
use magento_go.Prelude.Dict.{Dict, lookup, insert}
use magento_go.Prelude.Index.{index_by}
use magento_go.Prelude.Fallible.{Result, err, ok}
use magento_go.Batch.{batches}
use magento_go.Product.Value.{Flat}
use magento_go.Product.Flat.{Product, flatten_product}

pub record EavAttribute : Type 0 where
  pub attribute_id : ℕ
  pub attribute_code : String

-- The queries: all ids in order, at most so many if the limit is positive; the products of the ids
-- with their rows for a store, or with their categories and media gallery alone; the ids of a category's products by position; and the attributes.
pub record Db (E F T : Type 0) : Type 0 where
  pub product_ids : ℕ → Result E (List ℕ)
  pub find_products : List ℕ → ℕ → Result E (List (Product F T))
  pub find_plain : List ℕ → Result E (List (Product F T))
  pub category_products : ℕ → Bool → Result E (List ℕ)
  pub attributes : Result E (List EavAttribute)

abbrev pub Flats : Type 0 → Type 0 → Type 0
Flats F T = Dict ℕ (Flat F T)

-- attributeCodeMapOnce with attributeCodeMap, and flatProductsCache.
pub record State (F T : Type 0) : Type 0 where
  pub code_map : Option (Dict ℕ String)
  pub flat_cache : Dict ℕ (Flats F T)

-- `const batchSize = 1000`
abbrev pub batch_size : ℕ
batch_size = 1000

unfoldable pub code_map_of : List EavAttribute → Dict ℕ String → Dict ℕ String
code_map_of [] m = m
code_map_of (a ∷ rest) m = code_map_of rest (insert a.attribute_id a.attribute_code m)

abbrev pub loaded : {E : Type 0} → Result E (List EavAttribute) → Result E (Dict ℕ String)
loaded (err e) = err e
loaded (ok attrs) = ok (code_map_of attrs [])

-- LoadAttributeCodeMap
abbrev pub load_attribute_code_map : {E F T : Type 0} → Db E F T → Result E (Dict ℕ String)
load_attribute_code_map db = loaded db.attributes

-- `attributeCodeMap, _ = LoadAttributeCodeMap(db)`: a nil map beside an error.
abbrev pub or_nil : {E : Type 0} → Result E (Dict ℕ String) → Dict ℕ String
or_nil (err e) = []
or_nil (ok m) = m

module _ {F T : Type 0} where
  -- `flatProducts[id] = FlattenProductAttributesWithCodes(&products[i], attrMap)` for each product
  abbrev pub id_of : Product F T → ℕ
  id_of p = p.entity_id

  abbrev pub index_products : Dict ℕ String → List (Product F T) → Flats F T → Flats F T
  index_products m ps flats = index_by id_of (flatten_product m) ps flats

  -- `for id, prod := range batch { result[id] = prod }`
  unfoldable pub add_all : Flats F T → Flats F T → Flats F T
  add_all [] result = result
  add_all ((id, prod) ∷ batch) result = insert id prod (add_all batch result)

  -- The products of the ids that the cache has, and the other ids.
  unfoldable pub split_cached : Flats F T → List ℕ → Flats F T → List ℕ → Flats F T × List ℕ
  split_cached cached [] result missing = (result, missing)
  split_cached cached (id ∷ ids) result missing = elim (lookup id cached) [
    | some prod ↦ split_cached cached ids (insert id prod result) missing
    | none ↦ split_cached cached ids result (missing ++ id ∷ [])
  ]

  abbrev pub split_by : Option (Flats F T) → List ℕ → Flats F T × List ℕ
  split_by none ids = ([], ids)
  split_by (some cached) ids = split_cached cached ids [] []

module _ {E F T : Type 0} where
  abbrev pub code_map_once : Db E F T → Option (Dict ℕ String) → Dict ℕ String
  code_map_once db (some m) = m
  code_map_once db none = or_nil (load_attribute_code_map db)

  -- getGlobalAttributeCodeMap: the map, and the state in which it is loaded.
  abbrev pub get_global_attribute_code_map : Db E F T → State F T → State F T × Dict ℕ String
  get_global_attribute_code_map db s =
      let m = code_map_once db s.code_map in
      (record { code_map = some m; flat_cache = s.flat_cache }, m)

  abbrev pub flatten_found :
      Db E F T → State F T → Result E (List (Product F T)) → State F T × Result E (Flats F T)
  flatten_found db s (err e) = (s, err e)
  flatten_found db s (ok products) =
      let (s1, m) = get_global_attribute_code_map db s in (s1, ok (index_products m products []))

  unfoldable pub fetch_flat_products_batch :
      Db E F T → List ℕ → ℕ → State F T → State F T × Result E (Flats F T)
  fetch_flat_products_batch db ids store s = flatten_found db s (db.find_products ids store)

  unfoldable pub fetch_batches :
      Db E F T → ℕ → List (List ℕ) → Flats F T → State F T → State F T × Result E (Flats F T)
  unfolding fetch_flat_products_batch add_all
  fetch_batches db store [] result s = (s, ok result)
  fetch_batches db store (ids ∷ rest) result s =
      let (s1, found) = fetch_flat_products_batch db ids store s in
      elim found [
        | err e ↦ (s1, err e)
        | ok batch ↦ fetch_batches db store rest (add_all batch result) s1
      ]

  unfoldable pub fetch_flat_products_in_batches :
      Db E F T → List ℕ → ℕ → State F T → State F T × Result E (Flats F T)
  unfolding fetch_batches
  fetch_flat_products_in_batches db ids store s =
      fetch_batches db store (batches batch_size ids) [] s

  abbrev pub fetch_listed :
      Db E F T → ℕ → State F T → Result E (List ℕ) → State F T × Result E (Flats F T)
  fetch_listed db store s (err e) = (s, err e)
  fetch_listed db store s (ok []) = (s, ok [])
  fetch_listed db store s (ok (id ∷ ids)) = fetch_flat_products_in_batches db (id ∷ ids) store s

  unfoldable pub fetch_all_flat_products_in_batches :
      Db E F T → ℕ → ℕ → State F T → State F T × Result E (Flats F T)
  unfolding fetch_flat_products_in_batches
  fetch_all_flat_products_in_batches db store limit s =
      fetch_listed db store s (db.product_ids limit)

  unfoldable pub fetch_flat_products_with_limit :
      Db E F T → List ℕ → ℕ → ℕ → State F T → State F T × Result E (Flats F T)
  unfolding fetch_flat_products_batch fetch_flat_products_in_batches
      fetch_all_flat_products_in_batches
  fetch_flat_products_with_limit db ids store limit s =
      if ltb 0 (length ids) && leb (length ids) batch_size
      then fetch_flat_products_batch db ids store s
      else if ltb batch_size (length ids)
      then fetch_flat_products_in_batches db ids store s
      else fetch_all_flat_products_in_batches db store limit s

  unfoldable pub fetch_flat_products :
      Db E F T → List ℕ → ℕ → State F T → State F T × Result E (Flats F T)
  unfolding fetch_flat_products_with_limit
  fetch_flat_products db ids store s = fetch_flat_products_with_limit db ids store 0 s

  -- `flatProductsCache[sid] = flatProducts`
  abbrev pub keep_flats : ℕ → State F T × Result E (Flats F T) → State F T × Result E (Flats F T)
  keep_flats store (s, err e) = (s, err e)
  keep_flats store (s, ok flats) =
      (record { code_map = s.code_map; flat_cache = insert store flats s.flat_cache }, ok flats)

  -- The flag is `PRODUCT_FLAT_CACHE=off` in the environment. A limit that is not positive is 0 here.
  unfoldable pub fetch_with_all_attributes_flat_with_limit :
      Db E F T → Bool → ℕ → ℕ → State F T → State F T × Result E (Flats F T)
  unfolding fetch_flat_products fetch_flat_products_with_limit
  fetch_with_all_attributes_flat_with_limit db disabled limit store s =
      if ltb 0 limit
      then fetch_flat_products_with_limit db [] store limit s
      else if disabled
      then fetch_flat_products db [] store s
      else (elim (lookup store s.flat_cache) [
        | some cached ↦ (s, ok cached)
        | none ↦ keep_flats store (fetch_flat_products db [] store s)
      ])

  unfoldable pub fetch_with_all_attributes_flat :
      Db E F T → Bool → ℕ → State F T → State F T × Result E (Flats F T)
  unfolding fetch_with_all_attributes_flat_with_limit
  fetch_with_all_attributes_flat db disabled store s =
      fetch_with_all_attributes_flat_with_limit db disabled 0 store s

  -- `result = fetched` where an id is missing.
  unfoldable pub fetch_with_all_attributes_flat_by_ids :
      Db E F T → Bool → List ℕ → ℕ → State F T → State F T × Result E (Flats F T)
  unfolding fetch_flat_products fetch_with_all_attributes_flat split_cached
  fetch_with_all_attributes_flat_by_ids db disabled ids store s =
      if disabled
      then fetch_flat_products db ids store s
      else if is_empty ids
      then fetch_with_all_attributes_flat db false store s
      else (let (result, missing) = split_by (lookup store s.flat_cache) ids in
          if is_empty missing then (s, ok result) else fetch_flat_products db missing store s)

  unfoldable pub find_batches :
      Db E F T → List (List ℕ) → List (Product F T) → Result E (List (Product F T))
  find_batches db [] all_products = ok all_products
  find_batches db (ids ∷ rest) all_products = elim (db.find_plain ids) [
    | err e ↦ err e
    | ok batch ↦ find_batches db rest (all_products ++ batch)
  ]

  abbrev pub find_listed : Db E F T → Result E (List ℕ) → Result E (List (Product F T))
  find_listed db (err e) = err e
  find_listed db (ok []) = ok []
  find_listed db (ok (id ∷ ids)) = find_batches db (batches batch_size (id ∷ ids)) []

  unfoldable pub find_all_with_limit : Db E F T → ℕ → Result E (List (Product F T))
  unfolding find_batches
  find_all_with_limit db limit = find_listed db (db.product_ids limit)
