-- ===== src/Html/Product/Tests.antt =====
-- Requests to the page of html/product.go.
use magento_go.Prelude.{
  ℕ, ◌+◌, ◌≡◌, ◌≢◌, refl, ltb, true, String, ◌<>◌, Option, none, some, inl, [], ◌∷◌, nat_eq, arith,
  length, ◌<◌, if◌then◌else◌,
}
use text.Mathlib.TextEquality.{eq_iff}
use magento_go.Prelude.Dict.{lookup, insert, asked}
use magento_go.Prelude.Index.{index_by}
use magento_go.Prelude.Panic.{panic}
use magento_go.Prelude.Text.{trim_space, split, parse_uint}
use magento_go.Product.Repo.{code_map_once, index_products}
use magento_go.Product.Fixture.{db, table, db-Answers, start}
use magento_go.Category.Fixture as Shop
use magento_go.Html.Crumbs.{crumb_ids}
use magento_go.Html.Product.{TreeHtml, render_category_tree_cached, ids_of_param, handle_product}
use magento_go.Html.Product.Tree.{render_category_tree_cached-again}
use magento_go.Html.Product.Unknown.{handle_product-unknown}

param_runs : ids_of_param " 9, x,,9" ≡ 9 ∷ 9 ∷ []
unfolding ids_of_param split trim_space parse_uint
param_runs = refl

-- The root categories are left out.
crumbs_run : crumb_ids (split b'/' "1/2/20/21") ≡ 20 ∷ 21 ∷ []
unfolding crumb_ids split parse_uint
crumbs_run = refl

one_named : 0 < length (ids_of_param "9")
unfolding ids_of_param split trim_space parse_uint
one_named = omega arith

not_there :
    (id : ℕ)
    → (if asked id (ids_of_param "9")
        then lookup id (index_products (code_map_once db none) table [])
        else none)
      ≡ none
unfolding ids_of_param split trim_space parse_uint index_by insert lookup
not_there id = ground arith

handle_product-unknown_example :
    (handle_product (λ x. x) Shop.db db true 3 "9" start Shop.settled).2
    ≡ panic "runtime error: index out of range [0] with length 0"
handle_product-unknown_example =
    handle_product-unknown (λ x. x) Shop.db db 3 "9" start Shop.settled table (db-Answers 0)
      one_named not_there

abbrev template : String → Option String
template tree = some ("<ul>" <> tree)

abbrev fresh : TreeHtml
fresh = record { html = ""; time = 0 }

abbrev shown : String
shown = "<ul>a"

full : shown ≢ ""
full e = absurd (ground (arith, eq_iff "<ul>a" "", e))

-- Rendered at 5 and shown at 9.
render_category_tree_cached-again_example :
    ((render_category_tree_cached template "a" 5 fresh).1 ≡ some shown)
    × ((render_category_tree_cached template "b" 9
          (render_category_tree_cached template "a" 5 fresh).0).1
        ≡ (if ltb 9 (5 + 1800000000000) then some shown else template "b"))
render_category_tree_cached-again_example =
    render_category_tree_cached-again template template "a" "b" 5 9 fresh shown (inl refl) refl full
