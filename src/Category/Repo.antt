-- ===== src/Category/Repo.antt =====
-- model/repository/category/category_repository.go: the queries of the category repository and its caches,
-- which are the categories and the tree of each store and the metadata of attributes, loaded once. What
-- the database answers during a call is a parameter. A map that is nil reads like one that is empty.
pub mod Found
pub mod Stale
use magento_go.Prelude.{
  ℕ, zero, suc, Bool, true, false, Option, none, some, String, List, [], ◌∷◌, ◌++◌, map, is_empty,
  nat_eq, if◌then◌else◌,
}
use magento_go.Prelude.Dict.{Dict, lookup, insert}
use magento_go.Prelude.Index.{index_by}
use magento_go.Prelude.Fallible.{Result, err, ok, map_ok}
use magento_go.Prelude.Panic.{Run, done, panic}
use magento_go.Category.Tree.{Category, Nodes, build, subtree}
use magento_go.Category.Flat.{Cat, EavAttribute, Infos, flatten_category}

-- All categories, those with the given ids, and the attributes; rows are those of one store.
pub record Db (E : Type 0) : Type 0 where
  pub find_all : ℕ → Result E (List Cat)
  pub find_ids : List ℕ → ℕ → Result E (List Cat)
  pub attributes : Result E (List EavAttribute)

-- CategoryWithAttributes
pub record CategoryWithAttributes : Type 0 where
  pub category : Cat
  pub attributes : Infos

abbrev pub Cats : Type 0
Cats = Dict ℕ CategoryWithAttributes

-- categoryAttrMetaOnce with categoryAttrMetaCache, the repository's cache and treeCache.
pub record State : Type 0 where
  pub meta_done : Bool
  pub meta : Option (Dict ℕ EavAttribute)
  pub cache : Dict ℕ Cats
  pub trees : Dict ℕ (Nodes CategoryWithAttributes)

unfoldable pub meta_of : List EavAttribute → Dict ℕ EavAttribute → Dict ℕ EavAttribute
meta_of [] m = m
meta_of (a ∷ rest) m = meta_of rest (insert a.attribute_id a m)

-- `if categoryAttrMetaCache == nil { return nil, loadErr }`: where nothing was loaded by an earlier call
-- there is no error either.
abbrev pub meta_or_nil :
    {E : Type 0} → Option (Dict ℕ EavAttribute) → Result E (Dict ℕ EavAttribute)
meta_or_nil none = ok []
meta_or_nil (some m) = ok m

abbrev pub keep_meta :
    {E : Type 0} → State → Result E (List EavAttribute) → State × Result E (Dict ℕ EavAttribute)
keep_meta s (err e) =
    (record { meta_done = true; meta = s.meta; cache = s.cache; trees = s.trees }, err e)
keep_meta s (ok attrs) =
    let m = meta_of attrs [] in
    (record { meta_done = true; meta = some m; cache = s.cache; trees = s.trees }, ok m)

abbrev pub with_attributes : Dict ℕ EavAttribute → Cat → CategoryWithAttributes
with_attributes meta c = record { category = c; attributes = flatten_category c meta }

-- `cache[cat.EntityID] = CategoryWithAttributes{…}` for each category
abbrev pub index_cats : Dict ℕ EavAttribute → List Cat → Cats → Cats
index_cats meta cats m = index_by (λ (c : Cat). c.entity_id) (with_attributes meta) cats m

-- InvalidateCategoryAttributeMetaCache, and InvalidateCache of the repository.
abbrev pub invalidate_category_attribute_meta_cache : State → State
invalidate_category_attribute_meta_cache s = record {
  meta_done = false;
  meta = none;
  cache = s.cache;
  trees = s.trees;
}

abbrev pub invalidate_cache : State → State
invalidate_cache s = record { meta_done = s.meta_done; meta = s.meta; cache = []; trees = [] }

-- GetCacheCategory where its caller wants one category: for the id 0 it returns the map of all, which
-- is not a category.
abbrev pub in_store : ℕ → Option Cats → Option CategoryWithAttributes
in_store id none = none
in_store zero (some cats) = none
in_store (suc id) (some cats) = lookup (suc id) cats

abbrev pub get_cache_category : State → ℕ → ℕ → Option CategoryWithAttributes
get_cache_category s store id = in_store id (lookup store s.cache)

module _ {E : Type 0} where
  unfoldable pub load_category_attribute_meta :
      Db E → State → State × Result E (Dict ℕ EavAttribute)
  load_category_attribute_meta db s =
      if s.meta_done then (s, meta_or_nil s.meta) else keep_meta s db.attributes

  abbrev pub keep_cats :
      ℕ → List Cat → State × Result E (Dict ℕ EavAttribute) → State × Result E Cats
  keep_cats store cats (s, err e) = (s, err e)
  keep_cats store cats (s, ok meta) =
      let m = index_cats meta cats [] in
      (
        record {
          meta_done = s.meta_done;
          meta = s.meta;
          cache = insert store m s.cache;
          trees = s.trees;
        },
        ok m,
      )

  abbrev pub load_cats : Db E → ℕ → State → Result E (List Cat) → State × Result E Cats
  load_cats db store s (err e) = (s, err e)
  load_cats db store s (ok cats) = keep_cats store cats (load_category_attribute_meta db s)

  abbrev pub cats_or_load : Db E → ℕ → State → Option Cats → State × Result E Cats
  cats_or_load db store s (some cats) = (s, ok cats)
  cats_or_load db store s none = load_cats db store s (db.find_all store)

  unfoldable pub fetch_all_with_attributes_map : Db E → ℕ → State → State × Result E Cats
  unfolding load_category_attribute_meta
  fetch_all_with_attributes_map db store s = cats_or_load db store s (lookup store s.cache)

abbrev pub node_of : CategoryWithAttributes → Category CategoryWithAttributes
node_of c = record { entity_id = c.category.entity_id; parent_id = c.category.parent_id; value = c }

-- The values of a map, in an order of iteration.
abbrev pub values : Cats → List CategoryWithAttributes
values [] = []
values ((id, c) ∷ cats) = c ∷ values cats

abbrev pub cons_found :
    Option CategoryWithAttributes → List CategoryWithAttributes → List CategoryWithAttributes
cons_found none rest = rest
cons_found (some c) rest = c ∷ rest

-- The categories of the ids that a lookup finds, in the order of the ids.
abbrev pub found_in : (ℕ → Option CategoryWithAttributes) → List ℕ → List CategoryWithAttributes
found_in find [] = []
found_in find (id ∷ ids) = cons_found (find id) (found_in find ids)

-- The two loops over the ids: what the cache has, and the missing ids.
unfoldable pub split_cached :
    State → ℕ → List ℕ → List CategoryWithAttributes → List ℕ → List CategoryWithAttributes × List ℕ
split_cached s store [] hits missing = (hits, missing)
split_cached s store (id ∷ ids) hits missing = elim (get_cache_category s store id) [
  | some c ↦ split_cached s store ids (hits ++ c ∷ []) missing
  | none ↦ split_cached s store ids hits (missing ++ id ∷ [])
]

module _ {E : Type 0} where
  -- GetByIDsWithAttributes
  abbrev pub get_by_ids_with_attributes : Db E → List ℕ → ℕ → Result E (List Cat)
  get_by_ids_with_attributes db ids store = db.find_ids ids store

  abbrev pub add_missing :
      List CategoryWithAttributes
      → List ℕ
      → List Cat
      → State × Result E (Dict ℕ EavAttribute)
      → State × Result E (List CategoryWithAttributes)
  add_missing hits missing cats (s, err e) = (s, err e)
  add_missing hits missing cats (s, ok meta) =
      (s, ok (hits ++ found_in (λ id. lookup id (index_cats meta cats [])) missing))

  abbrev pub load_missing :
      Db E
      → List CategoryWithAttributes
      → List ℕ
      → State
      → Result E (List Cat)
      → State × Result E (List CategoryWithAttributes)
  load_missing db hits missing s (err e) = (s, err e)
  load_missing db hits missing s (ok cats) =
      add_missing hits missing cats (load_category_attribute_meta db s)

  -- GetByIDsWithAttributesAndFlat; its two slices are one list of pairs here.
  unfoldable pub get_by_ids_with_attributes_and_flat :
      Db E → List ℕ → ℕ → State → State × Result E (List CategoryWithAttributes)
  unfolding split_cached load_category_attribute_meta
  get_by_ids_with_attributes_and_flat db ids store s =
      let (hits, missing) = split_cached s store ids [] [] in
      if is_empty missing
      then (s, ok hits)
      else load_missing db hits missing s (get_by_ids_with_attributes db missing store)

  -- `&cats[0]`
  abbrev pub first_cat :
      Result E (List CategoryWithAttributes) → Run (Result E CategoryWithAttributes)
  first_cat (err e) = done (err e)
  first_cat (ok []) = panic "runtime error: index out of range [0] with length 0"
  first_cat (ok (c ∷ cs)) = done (ok c)

  unfoldable pub get_by_id_with_attributes_and_flat :
      Db E → ℕ → ℕ → State → State × Run (Result E CategoryWithAttributes)
  unfolding get_by_ids_with_attributes_and_flat
  get_by_id_with_attributes_and_flat db id store s =
      let (s1, r) = get_by_ids_with_attributes_and_flat db (id ∷ []) store s in (s1, first_cat r)

  abbrev pub keep_tree :
      ℕ → ℕ → ℕ → State × Result E Cats → State × Result E (Nodes CategoryWithAttributes)
  keep_tree fuel store parent (s, err e) = (s, err e)
  keep_tree fuel store parent (s, ok cats) =
      let tree = build fuel (map node_of (values cats)) 0 in
      (
        record {
          meta_done = s.meta_done;
          meta = s.meta;
          cache = s.cache;
          trees = insert store tree s.trees;
        },
        ok (subtree tree parent),
      )

  abbrev pub tree_or_build :
      Db E
      → ℕ
      → ℕ
      → ℕ
      → State
      → Option (Nodes CategoryWithAttributes)
      → State × Result E (Nodes CategoryWithAttributes)
  tree_or_build db fuel store parent s (some tree) = (s, ok (subtree tree parent))
  tree_or_build db fuel store parent s none =
      keep_tree fuel store parent (fetch_all_with_attributes_map db store s)

  -- BuildCategoryTree; the recursion that builds the tree runs on the fuel.
  unfoldable pub build_category_tree :
      Db E → ℕ → ℕ → ℕ → State → State × Result E (Nodes CategoryWithAttributes)
  unfolding fetch_all_with_attributes_map
  build_category_tree db fuel store parent s =
      tree_or_build db fuel store parent s (lookup store s.trees)
