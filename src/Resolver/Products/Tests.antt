-- ===== src/Resolver/Products/Tests.antt =====
-- A query for a SKU that no product has, and one for a product whose image is then asked for.
use magento_go.Prelude.{
  ℕ, ◌≡◌, refl, sym, ap, String, All, false, Option, none, some, [], ◌∷◌, string_eq, nat_eq,
}
use magento_go.Prelude.Dict.{lookup, insert, asked}
use magento_go.Prelude.Fallible.{ok, map_ok}
use magento_go.Prelude.Int.{pos}
use magento_go.Product.Value.{Flat}
use magento_go.Product.Flat.{flatten_product, attr_key}
use magento_go.Product.Repo.{
  State, Flats, fetch_with_all_attributes_flat, fetch_with_all_attributes_flat_with_limit,
}
use magento_go.Product.Fixture.{bag, cup, codes, db}
use magento_go.Resolver.Mapper.{or_empty}
use magento_go.Resolver.Magento.{str_in}
use magento_go.Resolver.Products.{ProductsArgs, products, product}
use magento_go.Resolver.Products.Unknown.{with_skus, HasNone, products-unknown_skus}
use magento_go.Resolver.Products.Image.{IsFirst, small_image_in, product-small_image}
use magento_go.Resolver.Tests.{plain, naturals}

abbrev flats : Flats ℕ ℕ
flats = (7, flatten_product codes bag) ∷ []

abbrev state : State ℕ ℕ
state = record { code_map = some codes; flat_cache = (0, flats) ∷ [] }

abbrev args : ProductsArgs
args = record { page_size = pos 0; current_page = pos 1; skus = none }

abbrev decode : Flat ℕ ℕ → Option (Flat ℕ ℕ)
decode p = some p

cached : fetch_with_all_attributes_flat db false 0 state ≡ (state, ok flats)
unfolding fetch_with_all_attributes_flat fetch_with_all_attributes_flat_with_limit lookup
cached = refl

none_match : All (λ (entry : ℕ × Flat ℕ ℕ). HasNone ("unknown" ∷ []) entry.1) flats
unfolding flatten_product attr_key lookup insert
none_match = (
  λ sku h.
      let same : ◌≡◌ {A = String} "hidden" sku = cc h in
      ap (λ k. asked k ("unknown" ∷ [])) (sym same),
  tt,
)

products-unknown_skus_example :
    products (λ x. x) decode db false (with_skus args (some ("unknown" ∷ []))) 0 state
    ≡ products (λ x. x) decode db false (with_skus args none) 0 state
products-unknown_skus_example =
    products-unknown_skus (λ x. x) decode db args 0 state state flats "unknown" [] cached none_match

-- The cup stands before the bag, and has another SKU.
abbrev two : State ℕ ℕ
two = record {
  code_map = some codes;
  flat_cache = (0, (8, flatten_product codes cup) ∷ (7, flatten_product codes bag) ∷ []) ∷ [];
}

has_sku :
    IsFirst (some "hidden") none ((8, flatten_product codes cup) ∷ []) (flatten_product codes bag)
unfolding flatten_product lookup insert attr_key
has_sku = ((refl, tt), refl)

kept :
    lookup 0 two.flat_cache
    ≡ some ((8, flatten_product codes cup) ∷ (7, flatten_product codes bag) ∷ [])
unfolding lookup
kept = refl

no_image : or_empty (str_in (lookup "image" (flatten_product codes bag))) ≡ ""
unfolding flatten_product lookup insert attr_key
no_image = refl

product-small_image_example :
    map_ok
      (λ m. small_image_in plain naturals (lookup 7 m))
      (fetch_with_all_attributes_flat db false 0
        (product (λ x. x) decode db false (some "hidden") none 0 two).0).1
    ≡ ok (some none)
product-small_image_example =
    product-small_image plain naturals decode db db (some "hidden") none 0 two 7
      (flatten_product codes bag) ((8, flatten_product codes cup) ∷ []) [] kept has_sku no_image
