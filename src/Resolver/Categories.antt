-- ===== src/Resolver/Categories.antt =====
-- graphql/resolvers/category.go and MagentoCategories of magento_resolver.go: categories as GraphQL types.
-- The level, a column of 32 bits, is shown as it is.
pub mod Uids
mod Tests
use magento_go.Prelude.{
  ℕ, zero, suc, not, Bool, true, false, ◌||◌, ◌&&◌, String, Option, none, some, List, [], ◌∷◌, ◌++◌,
  map, ◌==◌, string_eq, nat_eq, if◌then◌else◌,
}
use magento_go.Prelude.Decimal.{format_uint}
use magento_go.Prelude.Dict.{Dict, lookup}
use magento_go.Prelude.Fallible.{Result, err, ok, map_ok}
use magento_go.Prelude.Int.{ℤ, to_int32}
use magento_go.Prelude.Text.{NumErr, parse_uint}
use magento_go.Category.Tree.{Node, Nodes, node, nil, cons}
use magento_go.Category.Flat.{Cat, AttributeRow, Info, Infos, InfoValue, int, str, uint}
use magento_go.Category.Repo.{
  Db, CategoryWithAttributes, Cats, State, values, fetch_all_with_attributes_map,
  get_by_ids_with_attributes, get_by_ids_with_attributes_and_flat, build_category_tree,
}
use magento_go.Resolver.Uid.{Base64, uid_encode, uid_decode, unless_error}

-- gqlmodels.Category, with its children apart.
pub record GqlCategory : Type 0 where
  pub entity_id : String
  pub name : Option String
  pub url_key : Option String
  pub path : String
  pub level : ℤ
  pub parent_id : String
  pub product_count : ℤ

-- `a["value"].(string)`
abbrev pub text_of : Option Info → Option String
text_of none = none
text_of (some info) = elim info.value [ str s ↦ some s | int z ↦ none | uint n ↦ none ]

-- A name and a URL key.
abbrev pub Labels : Type 0
Labels = Option String × Option String

-- The attributes 41 and 119 of the varchars; an empty value is skipped, and a later one overwrites.
abbrev pub take_label : AttributeRow String → Labels → Labels
take_label v (name, url_key) =
    if v.value == ""
    then (name, url_key)
    else if v.attribute_id == 41
    then (some v.value, url_key)
    else if v.attribute_id == 119
    then (name, some v.value)
    else (name, url_key)

unfoldable pub take_labels : List (AttributeRow String) → Labels → Labels
take_labels [] labels = labels
take_labels (v ∷ vs) labels = take_labels vs (take_label v labels)

-- `if cat.Name == nil || cat.URLKey == nil`
abbrev pub fill_labels : List (AttributeRow String) → Labels → Labels
fill_labels vs (some name, some url_key) = (some name, some url_key)
fill_labels vs (none, url_key) = take_labels vs (none, url_key)
fill_labels vs (some name, none) = take_labels vs (some name, none)

abbrev pub labels_in : Option Infos → Labels
labels_in none = (none, none)
labels_in (some attrs) = (text_of (lookup "name" attrs), text_of (lookup "url_key" attrs))

unfoldable pub category_to_graphql_with_attrs : Cat → Option Infos → GqlCategory
unfolding take_labels
category_to_graphql_with_attrs c attrs =
    let (name, url_key) = fill_labels c.value.varchars (labels_in attrs) in
    record {
      entity_id = format_uint c.entity_id;
      name = name;
      url_key = url_key;
      path = c.value.path;
      level = c.value.level;
      parent_id = format_uint c.parent_id;
      product_count = to_int32 c.value.product_count;
    }

abbrev pub category_to_graphql : Cat → GqlCategory
category_to_graphql c = category_to_graphql_with_attrs c none

-- A category with its children, where it has any.
mutual
  pub data GqlNode : Type 0 where
    gql_node : GqlCategory → GqlNodes → GqlNode

  pub data GqlNodes : Type 0 where
    gql_nil : GqlNodes
    gql_cons : GqlNode → GqlNodes → GqlNodes

unfoldable pub category_tree_to_graphql : Nodes CategoryWithAttributes → GqlNodes
category_tree_to_graphql nil = gql_nil
category_tree_to_graphql (cons (node c children) rest) =
    gql_cons
      (gql_node (category_to_graphql_with_attrs c.value.category (some c.value.attributes))
        (category_tree_to_graphql children))
      (category_tree_to_graphql rest)

module _ {E : Type 0} where
  -- Categories
  abbrev pub categories : Db E → ℕ → State → State × Result E (List GqlCategory)
  categories db store s =
      let (s1, r) = fetch_all_with_attributes_map db store s in
      (
        s1,
        map_ok
            (λ cats.
              map (λ (c : CategoryWithAttributes). category_to_graphql c.category) (values cats))
            r,
      )

  abbrev pub first_category : Result E (List Cat) → Option GqlCategory
  first_category (err e) = none
  first_category (ok []) = none
  first_category (ok (c ∷ cs)) = some (category_to_graphql c)

  abbrev pub category_of_id : Db E → ℕ → Option ℕ → Option GqlCategory
  category_of_id db store none = none
  category_of_id db store (some id) = first_category (get_by_ids_with_attributes db (id ∷ []) store)

  -- Category: the text must be a number of 64 bits.
  abbrev pub category : Db E → ℕ → String → Option GqlCategory
  category db store id = category_of_id db store (unless_error (parse_uint 64 id))

  -- CategoryTree
  abbrev pub category_tree : Db E → ℕ → ℕ → State → State × Result E GqlNodes
  category_tree db fuel store s =
      let (s1, r) = build_category_tree db fuel store 0 s in (s1, map_ok category_tree_to_graphql r)

-- gqlmodels.CategoryTree
pub record CategoryTree : Type 0 where
  pub uid : String
  pub meta_title : Option String
  pub meta_keywords : Option String
  pub meta_description : Option String
  pub url_path : Option String
  pub url_key : Option String

abbrev pub non_empty : Option String → Option String
non_empty none = none
non_empty (some s) = if s == "" then none else some s

-- The attribute 119 alone, where neither URL is set.
unfoldable pub url_key_in : List (AttributeRow String) → Option String → Option String
url_key_in [] url_key = url_key
url_key_in (v ∷ vs) url_key =
    url_key_in vs
      (if v.value == "" then url_key else if v.attribute_id == 119 then some v.value else url_key)

abbrev pub key_or_varchar :
    List (AttributeRow String) → Option String → Option String → Option String
key_or_varchar vs none none = url_key_in vs none
key_or_varchar vs (some k) path = some k
key_or_varchar vs none (some p) = none

abbrev pub path_or_key : Option String → Option String → Option String
path_or_key none url_key = url_key
path_or_key (some p) url_key = some p

module _ (b : Base64) where
  unfoldable pub category_to_category_tree : CategoryWithAttributes → CategoryTree
  unfolding url_key_in
  category_to_category_tree c =
      let get_str : String → Option String =
        λ code. non_empty (text_of (lookup code c.attributes)) in
      let url_path = get_str "url_path" in
      let url_key = key_or_varchar c.category.value.varchars (get_str "url_key") url_path in
      record {
        uid = uid_encode b c.category.entity_id;
        meta_title = get_str "meta_title";
        meta_keywords = get_str "meta_keywords";
        meta_description = get_str "meta_description";
        url_path = path_or_key url_path url_key;
        url_key = url_key;
      }

  abbrev pub id_or_none : Option ℕ → List ℕ → List ℕ
  id_or_none none ids = ids
  id_or_none (some id) ids = id ∷ ids

  -- `if uid != nil && *uid != ""`
  unfoldable pub ids_in : List (Option String) → List ℕ
  ids_in [] = []
  ids_in (none ∷ uids) = ids_in uids
  ids_in (some uid ∷ uids) =
      let rest = ids_in uids in if uid == "" then rest else id_or_none (uid_decode b uid) rest

  abbrev pub ids_of_list : Option (List (Option String)) → List ℕ
  ids_of_list none = []
  ids_of_list (some uids) = ids_in uids

  abbrev pub ids_of_eq : Option String → List ℕ
  ids_of_eq none = []
  ids_of_eq (some uid) = id_or_none (uid_decode b uid) []

module _ (b : Base64) {E : Type 0} where
  abbrev pub shown_categories :
      State × Result E (List CategoryWithAttributes) → State × List CategoryTree
  shown_categories (s, err e) = (s, [])
  shown_categories (s, ok cats) = (s, map (category_to_category_tree b) cats)

  abbrev pub ask_categories : Db E → List ℕ → ℕ → State → State × List CategoryTree
  ask_categories db [] store s = (s, [])
  ask_categories db (id ∷ ids) store s =
      shown_categories (get_by_ids_with_attributes_and_flat db (id ∷ ids) store s)

  -- MagentoCategories, with the lists `in` and `eq` of its filter.
  unfoldable pub magento_categories :
      Db E → Option (List (Option String)) → Option String → ℕ → State → State × List CategoryTree
  unfolding ids_in
  magento_categories db one_of eq store s =
      ask_categories db (ids_of_list b one_of ++ ids_of_eq b eq) store s
