-- ===== src/Resolver/Products/Unknown.antt =====
-- The query for products of graphql/resolvers/product.go by SKUs that no product has.
use magento_go.Prelude.{
  ℕ, ◌≡◌, refl, false, String, Option, none, some, List, [], ◌∷◌, All, string_eq,
}
use magento_go.Prelude.Dict.{lookup, asked}
use magento_go.Prelude.Fallible.{ok}
use magento_go.Product.Value.{Scalar, str, nothing, Value, scalar, Flat}
use magento_go.Product.Repo.{Db, State, Flats, fetch_with_all_attributes_flat}
use magento_go.Product.Repo.Again.{fetches, fetch_with_all_attributes_flat-again}
use magento_go.Resolver.Products.{ProductsArgs, sku_asked, matched_ids, products}
use magento_go.Resolver.Magento.{str_in}

abbrev pub with_skus : ProductsArgs → Option (List String) → ProductsArgs
with_skus args skus = record {
  page_size = args.page_size;
  current_page = args.current_page;
  skus = skus;
}

module _ {F T : Type 0} where
  -- A product's map has none of some SKUs.
  abbrev pub HasNone : List String → Flat F T → Type 0
  HasNone skus p =
      (sku : String) → lookup "sku" p ≡ some (scalar (str sku)) → asked sku skus ≡ false

  sku_asked-none :
      (skus : List String) (v : Option (Value F T))
      → ((sku : String) → v ≡ some (scalar (str sku)) → asked sku skus ≡ false)
      → sku_asked skus (str_in v) ≡ false
  sku_asked-none skus none h = refl
  sku_asked-none skus (some (scalar (str sku))) h = h sku refl
  sku_asked-none skus (some (scalar nothing)) h = refl
  sku_asked-none skus (some (scalar (Scalar.uint n))) h = refl
  sku_asked-none skus (some (scalar (Scalar.uint16 n))) h = refl
  sku_asked-none skus (some (scalar (Scalar.int z))) h = refl
  sku_asked-none skus (some (scalar (Scalar.int64 z))) h = refl
  sku_asked-none skus (some (scalar (Scalar.float x))) h = refl
  sku_asked-none skus (some (scalar (Scalar.time t))) h = refl
  sku_asked-none skus (some (Value.uints ids)) h = refl
  sku_asked-none skus (some (Value.fields fs)) h = refl
  sku_asked-none skus (some (Value.rows rs)) h = refl
  sku_asked-none skus (some (Value.media_items items)) h = refl

  matched_ids-none :
      (truncate : F → ℕ) (skus : List String) (flats : Flats F T)
      → All (λ (entry : ℕ × Flat F T). HasNone skus entry.1) flats
      → matched_ids truncate skus flats ≡ []
  unfolding matched_ids
  matched_ids-none truncate skus [] h = refl
  matched_ids-none truncate skus ((id, p) ∷ flats) h =
      rw (sku_asked-none skus (lookup "sku" p) h.0) (matched_ids-none truncate skus flats h.1)

module _ {E F T P : Type 0} (truncate : F → ℕ) (decode : Flat F T → Option P) where
  -- Where the products can be fetched and none of them has one of the SKUs asked for, the query answers
  -- as if no SKU had been given: it shows all products.
  pub products-unknown_skus :
      (db : Db E F T) (args : ProductsArgs) (store : ℕ) (s s1 : State F T) (flats : Flats F T)
      (sku : String) (skus : List String)
      → fetch_with_all_attributes_flat db false store s ≡ (s1, ok flats)
      → All (λ (entry : ℕ × Flat F T). HasNone (sku ∷ skus) entry.1) flats
      → products truncate decode db false (with_skus args (some (sku ∷ skus))) store s
        ≡ products truncate decode db false (with_skus args none) store s
  unfolding products
  products-unknown_skus db args store s s1 flats sku skus h none_match =
      let again : fetch_with_all_attributes_flat db false store s1 ≡ (s1, ok flats) =
        unfold fetches in fetch_with_all_attributes_flat-again db db store s s1 flats [] h in
      rw (h, matched_ids-none truncate (sku ∷ skus) flats none_match, again) refl
