-- ===== src/Html/Product.antt =====
-- html/product.go: the page of some products. The templates are a parameter, `none` where one fails, and the
-- conversion of a description to safe HTML is left out.
pub mod Tree
mod Tests
pub mod Unknown
use magento_go.Prelude.{
  ℕ, zero, suc, ◌+◌, ◌-◌, ◌*◌, not, ltb, Bool, true, false, ◌&&◌, ◌||◌, String, ◌<>◌, Option, none,
  some, List, [], ◌∷◌, ◌++◌, ◌==◌, any, string_eq, nat_eq, if◌then◌else◌,
}
use magento_go.Prelude.Dict.{Dict, lookup, insert}
use magento_go.Prelude.Fallible.{Result, err, ok}
use magento_go.Prelude.Int.{ℤ}
use magento_go.Prelude.Panic.{Run, done, panic}
use magento_go.Prelude.Text.{trim_space, split, parse_uint}
use magento_go.Product.Value.{Scalar, Value, uints, Flat, uint_of}
use magento_go.Product.Repo.{Flats, fetch_with_all_attributes_flat_by_ids}
use magento_go.Product.Repo
use magento_go.Category.Flat.{Info, Infos}
use magento_go.Category.Repo.{
  CategoryWithAttributes, get_by_ids_with_attributes_and_flat, get_by_id_with_attributes_and_flat,
}
use magento_go.Category.Repo as CategoryRepo
use magento_go.Resolver.Magento.{str_in}
use magento_go.Resolver.Categories.{text_of}
use magento_go.Resolver.Mapper.{or_empty}
use magento_go.Resolver.Uid.{unless_error}
use magento_go.Html.Crumbs.{
  Crumb, crumb_ids, build_category_breadcrumbs, get_last_category_id, id_list, last_of,
}

abbrev pub add_id : Option ℕ → List ℕ → List ℕ
add_id none ids = ids
add_id (some id) ids = id ∷ ids

-- The ids of the path `/product/:ids`; what is no number is skipped.
unfoldable pub ids_of_pieces : List String → List ℕ
ids_of_pieces [] = []
ids_of_pieces (piece ∷ pieces) =
    let rest = ids_of_pieces pieces in
    let text = trim_space piece in
    if text == "" then rest else add_id (unless_error (parse_uint 64 text)) rest

unfoldable pub ids_of_param : String → List ℕ
unfolding ids_of_pieces
ids_of_param param = if param == "" then [] else ids_of_pieces (split b',' param)

-- A product's map with what the page adds to it.
pub record PageProduct (F T : Type 0) : Type 0 where
  pub flat : Flat F T
  pub breadcrumbs : Option (List Crumb)

pub data Page (F T : Type 0) : Type 0 where
  server_error : String → Page F T
  page : String → List (PageProduct F T) → Page F T

abbrev pub plain_product : {F T : Type 0} → Flat F T → PageProduct F T
plain_product p = record { flat = p; breadcrumbs = none }

module _ {E F T : Type 0} (cats : CategoryRepo.Db E) where
  abbrev pub with_crumbs :
      Flat F T → CategoryRepo.State × List Crumb → CategoryRepo.State × Run (PageProduct F T)
  with_crumbs p (s, crumbs) = (s, done (record { flat = p; breadcrumbs = some crumbs }))

  abbrev pub crumbs_of_path :
      Flat F T → String → CategoryRepo.State → CategoryRepo.State × Run (PageProduct F T)
  crumbs_of_path p path s =
      if path == ""
      then (s, done (plain_product p))
      else with_crumbs p (build_category_breadcrumbs cats path 0 s)

  abbrev pub crumbs_of_category :
      Flat F T
      → CategoryRepo.State × Run (Result E CategoryWithAttributes)
      → CategoryRepo.State × Run (PageProduct F T)
  crumbs_of_category p (s, panic m) = (s, panic m)
  crumbs_of_category p (s, done (err e)) = (s, done (plain_product p))
  crumbs_of_category p (s, done (ok c)) = crumbs_of_path p c.category.value.path s

  -- `if lastCatID, ok := getLastCategoryID(idsVal); ok && lastCatID > 0`
  abbrev pub add_breadcrumbs :
      Flat F T → Option ℕ → CategoryRepo.State → CategoryRepo.State × Run (PageProduct F T)
  add_breadcrumbs p none s = (s, done (plain_product p))
  add_breadcrumbs p (some zero) s = (s, done (plain_product p))
  add_breadcrumbs p (some (suc id)) s =
      crumbs_of_category p (get_by_id_with_attributes_and_flat cats (suc id) 0 s)

-- `products[0]["name"].(string)` and the same of the SKU.
abbrev pub title_of : Option String → Option String → Run String
title_of none sku = panic "interface conversion"
title_of (some name) none = panic "interface conversion"
title_of (some name) (some sku) =
    done ("Product Page - " <> name <> " - " <> sku <> " - Magento.GO")

module _ {F T : Type 0} where
  abbrev pub cons_product :
      PageProduct F T
      → CategoryRepo.State × Run (List (PageProduct F T))
      → CategoryRepo.State × Run (List (PageProduct F T))
  cons_product p (s, panic m) = (s, panic m)
  cons_product p (s, done ps) = (s, done (p ∷ ps))

  abbrev pub page_title : List (PageProduct F T) → Run String
  page_title [] = panic "runtime error: index out of range [0] with length 0"
  page_title (p ∷ ps) = title_of (str_in (lookup "name" p.flat)) (str_in (lookup "sku" p.flat))

  abbrev pub titled : List (PageProduct F T) → Run String → Run (Page F T)
  titled ps (panic m) = panic m
  titled ps (done title) = done (page title ps)

  abbrev pub page_of : Run (List (PageProduct F T)) → Run (Page F T)
  page_of (panic m) = panic m
  page_of (done ps) = titled ps (page_title ps)

module _ {E F T : Type 0} (truncate : F → ℕ) (cats : CategoryRepo.Db E) where
  -- The loop over the ids: products that were found, until a call panics.
  unfoldable pub show_products :
      (ℕ → Option (Flat F T))
      → List ℕ
      → CategoryRepo.State
      → CategoryRepo.State × Run (List (PageProduct F T))
  unfolding get_last_category_id
  show_products find [] s = (s, done [])
  show_products find (id ∷ ids) s = elim (find id) [
    | none ↦ show_products find ids s
    | some p ↦
        (let (s1, r) =
            add_breadcrumbs cats p
              (get_last_category_id truncate (id_list (lookup "category_ids" p))) s in
          elim r [
            | panic m ↦ (s1, panic m)
            | done shown ↦ cons_product shown (show_products find ids s1)
          ])
  ]

  -- A panic ends the request before the tree is built.
  abbrev pub after_tree : ℕ → CategoryRepo.State × Run (List (PageProduct F T)) → CategoryRepo.State
  after_tree fuel (s, panic m) = s
  after_tree fuel (s, done ps) = (CategoryRepo.build_category_tree cats fuel 0 0 s).0

  -- The state of the category repository is also that after the tree of all categories was built, whose
  -- error is only logged.
  abbrev pub render :
      ℕ
      → List ℕ
      → CategoryRepo.State
      → Repo.State F T × Result E (Flats F T)
      → Repo.State F T × CategoryRepo.State × Run (Page F T)
  render fuel ids s (products, err e) = (products, s, done (server_error "Error fetching products"))
  render fuel ids s (products, ok flats) =
      let shown = show_products (λ id. lookup id flats) ids s in
      (products, after_tree fuel shown, page_of shown.1)

  unfoldable pub handle_product :
      Repo.Db E F T
      → Bool
      → ℕ
      → String
      → Repo.State F T
      → CategoryRepo.State
      → Repo.State F T × CategoryRepo.State × Run (Page F T)
  unfolding ids_of_param
  handle_product db disabled fuel param products s =
      let ids = ids_of_param param in
      render fuel ids s (fetch_with_all_attributes_flat_by_ids db disabled ids 0 products)

-- RenderCategoryTreeCached: the HTML with the time at which it was made, in nanoseconds.
pub record TreeHtml : Type 0 where
  pub html : String
  pub time : ℕ

abbrev pub thirty_minutes : ℕ
thirty_minutes = 30 * 60 * 1000000000

abbrev pub keep_html : ℕ → Option String → TreeHtml → TreeHtml × Option String
keep_html now none cached = (cached, none)
keep_html now (some html) cached = (record { html = html; time = now }, some html)

-- The template's result is asked for only where the cache is old or empty.
unfoldable pub render_category_tree_cached :
    {A : Type 0} → (A → Option String) → A → ℕ → TreeHtml → TreeHtml × Option String
render_category_tree_cached template tree now cached =
    if ltb (now - cached.time) thirty_minutes && not (cached.html == "")
    then (cached, some cached.html)
    else keep_html now (template tree) cached
