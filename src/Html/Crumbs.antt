-- ===== src/Html/Crumbs.antt =====
-- html/product.go: the breadcrumbs of a product's page, and the category of the product that they are
-- those of. The id lists of a product have the types that the page's test for them names.
use magento_go.Prelude.{
  ℕ, ltb, Bool, String, Option, none, some, List, [], ◌∷◌, ◌==◌, string_eq, nat_eq, if◌then◌else◌,
}
use magento_go.Prelude.Dict.{Dict, lookup, insert}
use magento_go.Prelude.Fallible.{Result, err, ok}
use magento_go.Prelude.Int.{ℤ}
use magento_go.Prelude.Text.{split, parse_uint}
use magento_go.Product.Value.{Scalar, Value, uints, uint_of}
use magento_go.Category.Repo.{CategoryWithAttributes, get_by_ids_with_attributes_and_flat}
use magento_go.Category.Repo as CategoryRepo
use magento_go.Resolver.Categories.{text_of}
use magento_go.Resolver.Mapper.{or_empty}
use magento_go.Resolver.Uid.{unless_error}

-- `exclude := map[uint]bool{0: true, 1: true, 2: true}`
abbrev pub is_excluded : ℕ → Bool
is_excluded id = ltb id 3

abbrev pub add_crumb : Option ℕ → List ℕ → List ℕ
add_crumb none ids = ids
add_crumb (some id) ids = if is_excluded id then ids else id ∷ ids

-- The ids of a category's path, "1/2/20".
unfoldable pub crumb_ids : List String → List ℕ
crumb_ids [] = []
crumb_ids (piece ∷ pieces) =
    let rest = crumb_ids pieces in
    if piece == "" then rest else add_crumb (unless_error (parse_uint 64 piece)) rest

-- A breadcrumb: an id and a name.
abbrev pub Crumb : Type 0
Crumb = ℕ × String

abbrev pub crumb_of : CategoryWithAttributes → Crumb
crumb_of c = (c.category.entity_id, or_empty (text_of (lookup "name" c.attributes)))

abbrev pub crumb_map : List CategoryWithAttributes → Dict ℕ Crumb → Dict ℕ Crumb
crumb_map [] m = m
crumb_map (c ∷ cs) m = crumb_map cs (insert c.category.entity_id (crumb_of c) m)

-- In the order of the path.
abbrev pub crumbs_in : Dict ℕ Crumb → List ℕ → List Crumb
crumbs_in m [] = []
crumbs_in m (id ∷ ids) =
    let rest = crumbs_in m ids in elim (lookup id m) [ none ↦ rest | some c ↦ c ∷ rest ]

module _ {E : Type 0} where
  abbrev pub crumbs_found :
      List ℕ
      → CategoryRepo.State × Result E (List CategoryWithAttributes)
      → CategoryRepo.State × List Crumb
  crumbs_found ids (s, err e) = (s, [])
  crumbs_found ids (s, ok cats) = (s, crumbs_in (crumb_map cats []) ids)

  abbrev pub find_crumbs :
      CategoryRepo.Db E → List ℕ → ℕ → CategoryRepo.State → CategoryRepo.State × List Crumb
  find_crumbs db [] store s = (s, [])
  find_crumbs db (id ∷ ids) store s =
      crumbs_found (id ∷ ids) (get_by_ids_with_attributes_and_flat db (id ∷ ids) store s)

  -- buildCategoryBreadcrumbs; its caller ignores the error.
  unfoldable pub build_category_breadcrumbs :
      CategoryRepo.Db E → String → ℕ → CategoryRepo.State → CategoryRepo.State × List Crumb
  unfolding crumb_ids
  build_category_breadcrumbs db path store s = find_crumbs db (crumb_ids (split b'/' path)) store s

-- The slice types of getLastCategoryID.
pub data IdList (F T : Type 0) : Type 0 where
  int_list : List ℤ → IdList F T
  float_list : List F → IdList F T
  uint_list : List ℕ → IdList F T
  mixed_list : List (Scalar F T) → IdList F T
  no_list : IdList F T

abbrev pub last_of : {A : Type 0} → List A → Option A
last_of [] = none
last_of (x ∷ []) = some x
last_of (x ∷ y ∷ xs) = last_of (y ∷ xs)

abbrev pub map_some : {A B : Type 0} → (A → B) → Option A → Option B
map_some f none = none
map_some f (some a) = some (f a)

module _ {F T : Type 0} where
  abbrev pub id_of_scalar : (F → ℕ) → Option (Scalar F T) → Option ℕ
  id_of_scalar truncate (some (Scalar.int z)) = some (uint_of z)
  id_of_scalar truncate (some (Scalar.float x)) = some (truncate x)
  id_of_scalar truncate (some (Scalar.uint n)) = some n
  id_of_scalar truncate (some Scalar.nothing) = none
  id_of_scalar truncate (some (Scalar.str s)) = none
  id_of_scalar truncate (some (Scalar.uint16 n)) = none
  id_of_scalar truncate (some (Scalar.int64 z)) = none
  id_of_scalar truncate (some (Scalar.time t)) = none
  id_of_scalar truncate none = none

  unfoldable pub get_last_category_id : (F → ℕ) → IdList F T → Option ℕ
  get_last_category_id truncate (int_list ids) = map_some uint_of (last_of ids)
  get_last_category_id truncate (float_list ids) = map_some truncate (last_of ids)
  get_last_category_id truncate (uint_list ids) = last_of ids
  get_last_category_id truncate (mixed_list ids) = id_of_scalar truncate (last_of ids)
  get_last_category_id truncate no_list = none

  -- The value under category_ids in a product's map.
  abbrev pub id_list : Option (Value F T) → IdList F T
  id_list (some (uints ids)) = uint_list ids
  id_list (some (Value.scalar v)) = no_list
  id_list (some (Value.fields fs)) = no_list
  id_list (some (Value.rows rs)) = no_list
  id_list (some (Value.media_items items)) = no_list
  id_list none = no_list
