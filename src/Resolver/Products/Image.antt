-- ===== src/Resolver/Products/Image.antt =====
-- What the query for one product of graphql/resolvers/product.go leaves in the cache, for the list of
-- products of graphql/resolvers/magento_resolver.go.
use magento_go.Prelude.{
  ℕ, ◌≡◌, ◌∙◌, refl, ap, Bool, true, false, ◌||◌, Bool-cases, inl, inr, String, Option, none, some,
  arith, List, [], ◌∷◌, ◌++◌, All, ◌==◌, string_eq, nat_eq,
}
use magento_go.Prelude.Dict.{lookup, insert, has, lookup-insert, ==_refl}
use magento_go.Prelude.Fallible.{Result, err, ok, map_ok}
use magento_go.Product.Value.{Fields, Flat, to_uint}
use magento_go.Product.Repo.{Db, State, Flats, fetch_with_all_attributes_flat}
use magento_go.Product.Repo.Cached.{fetch_with_all_attributes_flat_hit}
use magento_go.Resolver.Uid.{Base64}
use magento_go.Resolver.Mapper.{
  or_empty, price_from, filter_price_for_guest, flat_to_product, prepare, rows_in,
}
use magento_go.Resolver.Magento.{Floats, str_in, flat_to_magento_product}
use magento_go.Resolver.Magento.Stock.{small_image-prepare}
use magento_go.Resolver.Shared.{write_in, write_each, write_flats}
use magento_go.Resolver.Products.{is_wanted, find_product, found_of, product}

module _ {F T : Type 0} where
  image-price_from :
      (truncate : F → ℕ) (group : ℕ) (ips : List (Fields F T)) (p : Flat F T)
      → lookup "image" (price_from truncate group ips p) ≡ lookup "image" p
  unfolding price_from
  image-price_from truncate group [] p = refl
  image-price_from truncate group (ip ∷ ips) p =
      elim (Bool-cases (to_uint truncate (lookup "customer_group_id" ip) == group)) [
        | inl e ↦ rw (e, lookup-insert, lookup-insert) refl
        | inr e ↦ rw e (image-price_from truncate group ips p)
      ]

  -- The map of an id that stands in the iteration.
  has-among :
      (id : ℕ) (p : Flat F T) (before flats : Flats F T) → has id (before ++ (id, p) ∷ flats) ≡ true
  unfolding lookup
  has-among id p [] flats = rw (has, ==_refl id) refl
  has-among id p ((key, q) ∷ before) flats = elim (Bool-cases (key == id)) [
    | inl e ↦ rw (has, e) refl
    | inr e ↦ rw (has, e) (has-among id p before flats)
  ]

  lookup-write_each :
      (store id : ℕ) (p q : Flat F T) (before flats : Flats F T) (s : State F T)
      → lookup store s.flat_cache ≡ some (before ++ (id, p) ∷ flats)
      → lookup store (write_each store ((id, q) ∷ []) s).flat_cache
        ≡ some (insert id q (before ++ (id, p) ∷ flats))
  lookup-write_each store id p q before flats s h =
      rw (h, write_in, has-among id p before flats, lookup-insert, ==_refl store) refl

  -- Whether a product has the SKU or the URL key asked for.
  abbrev pub is_asked_for : Option String → Option String → Flat F T → Bool
  is_asked_for sku url_key p =
      is_wanted sku (str_in (lookup "sku" p)) || is_wanted url_key (str_in (lookup "url_key" p))

  abbrev pub IsFirst : Option String → Option String → Flats F T → Flat F T → Type 0
  IsFirst sku url_key before p =
      All (λ (entry : ℕ × Flat F T). is_asked_for sku url_key entry.1 ≡ false) before
      × (is_asked_for sku url_key p ≡ true)

  find_product-first :
      {P : Type 0} (truncate : F → ℕ) (decode : Flat F T → Option P) (sku url_key : Option String)
      (id : ℕ) (p : Flat F T) (before flats : Flats F T)
      → IsFirst sku url_key before p
      → (find_product truncate decode sku url_key (before ++ (id, p) ∷ flats)).1
        ≡ (id, prepare truncate (filter_price_for_guest truncate p 0)) ∷ []
  unfolding find_product flat_to_product
  find_product-first truncate decode sku url_key id p [] flats (none_before, h) = ground arith
  find_product-first truncate decode sku url_key id p ((key, q) ∷ before) flats
        ((other, none_before), h) =
      let rest =
        find_product-first truncate decode sku url_key id p before flats (none_before, h) in
      ground (arith, other, rest)

module _ {F T : Type 0} {E P : Type 0} (truncate : F → ℕ) (decode : Flat F T → Option P) where
  product-cached :
      (db later : Db E F T) (sku url_key : Option String) (store : ℕ) (s : State F T) (id : ℕ)
      (p : Flat F T) (before flats : Flats F T)
      → lookup store s.flat_cache ≡ some (before ++ (id, p) ∷ flats)
      → IsFirst sku url_key before p
      → map_ok
          (lookup id)
          (fetch_with_all_attributes_flat later false store
            (product truncate decode db false sku url_key store s).0).1
        ≡ ok (some (prepare truncate (filter_price_for_guest truncate p 0)))
  unfolding product write_flats
  product-cached db later sku url_key store s id p before flats h wanted =
      let q = prepare truncate (filter_price_for_guest truncate p 0) in
      let s1 = write_each store ((id, q) ∷ []) s in
      let cached = fetch_with_all_attributes_flat_hit db store s (before ++ (id, p) ∷ flats) h in
      rw
        (
          cached,
          found_of,
          find_product-first truncate decode sku url_key id p before flats wanted,
          cached,
          fetch_with_all_attributes_flat_hit later store s1
              (insert id q (before ++ (id, p) ∷ flats))
              (lookup-write_each store id p q before flats s h),
          lookup-insert,
          ==_refl id,
        )
        refl

-- The small image of a map in the list of products.
abbrev pub small_image_in :
    (b : Base64) (floats : Floats) {T : Type 0}
    → Option (Flat floats.Float T)
    → Option (Option String)
small_image_in b floats none = none
small_image_in b floats (some p) = some (flat_to_magento_product b floats p "").small_image

module _ (b : Base64) (floats : Floats) {E T P : Type 0} where
  open floats use {Float, truncate}

  -- Where the cache is on and holds the products of a store, and the first of them in the iteration that
  -- has the SKU or the URL key asked for has no image attribute, the query for one product leaves its
  -- map in the cache, where the list of products finds no small image for it any more, whatever the
  -- database holds.
  pub product-small_image :
      (decode : Flat Float T → Option P) (db later : Db E Float T) (sku url_key : Option String)
      (store : ℕ) (s : State Float T) (id : ℕ) (p : Flat Float T) (before flats : Flats Float T)
      → lookup store s.flat_cache ≡ some (before ++ (id, p) ∷ flats)
      → IsFirst sku url_key before p
      → or_empty (str_in (lookup "image" p)) ≡ ""
      → map_ok
          (λ m. small_image_in b floats (lookup id m))
          (fetch_with_all_attributes_flat later false store
            (product truncate decode db false sku url_key store s).0).1
        ≡ ok (some none)
  unfolding filter_price_for_guest
  product-small_image decode db later sku url_key store s id p before flats h wanted no_image =
      let p1 = filter_price_for_guest truncate p 0 in
      let after = product truncate decode db false sku url_key store s in
      let no_image1 : or_empty (str_in (lookup "image" p1)) ≡ "" =
        ap (λ v. or_empty (str_in v))
          (image-price_from truncate 0 (rows_in (lookup "index_prices" p)) p)
        ∙ no_image in
      map_ok-of (small_image_in b floats) id
        (fetch_with_all_attributes_flat later false store after.0).1
      ∙ ap (map_ok (small_image_in b floats))
          (product-cached truncate decode db later sku url_key store s id p before flats h wanted)
      ∙ ap (λ i. ok (some i)) (small_image-prepare b floats p1 "" no_image1)
    where
      map_ok-of :
          {A B : Type 0} (f : Option A → B) (id : ℕ) (r : Result E (List (ℕ × A)))
          → map_ok (λ m. f (lookup id m)) r ≡ map_ok f (map_ok (lookup id) r)
      map_ok-of f id (err e) = refl
      map_ok-of f id (ok m) = refl
