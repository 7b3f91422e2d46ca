-- ===== src/Product/Repo/Unchanged.antt =====
-- The queries of model/repository/product/product_repository.go that fetch products leave the cache of
-- flat products as it is, and a fetch through the cache leaves what it holds.
use magento_go.Prelude.{
  ℕ, ◌≡◌, ◌∙◌, refl, sym, ap, false, Bool-cases, Option-cases, inl, inr, ◌&&◌, ltb, leb, is_empty,
  length, some, List, [], ◌∷◌, ◌==◌, nat_eq,
}
use magento_go.Prelude.Dict.{lookup, lookup-insert}
use magento_go.Prelude.Fallible.{Result, err, ok}
use magento_go.Batch.{batches}
use magento_go.Product.Flat.{Product}
use magento_go.Product.Repo.{
  Db, State, Flats, batch_size, flatten_found, fetch_flat_products_batch, fetch_batches, add_all,
  fetch_flat_products_in_batches, fetch_listed, fetch_all_flat_products_in_batches,
  fetch_flat_products_with_limit, fetch_flat_products, keep_flats, split_by,
  fetch_with_all_attributes_flat_with_limit, fetch_with_all_attributes_flat,
  fetch_with_all_attributes_flat_by_ids,
}

module _ {E F T : Type 0} where
  flat_cache-flatten_found :
      (db : Db E F T) (s : State F T) (r : Result E (List (Product F T)))
      → (flatten_found db s r).0.flat_cache ≡ s.flat_cache
  flat_cache-flatten_found db s (err e) = refl
  flat_cache-flatten_found db s (ok products) = refl

  flat_cache-fetch_flat_products_batch :
      (db : Db E F T) (ids : List ℕ) (store : ℕ) (s : State F T)
      → (fetch_flat_products_batch db ids store s).0.flat_cache ≡ s.flat_cache
  unfolding fetch_flat_products_batch
  flat_cache-fetch_flat_products_batch db ids store s =
      flat_cache-flatten_found db s (db.find_products ids store)

  flat_cache-fetch_batches :
      (db : Db E F T) (store : ℕ) (bs : List (List ℕ)) (result : Flats F T) (s : State F T)
      → (fetch_batches db store bs result s).0.flat_cache ≡ s.flat_cache
  unfolding fetch_batches
  flat_cache-fetch_batches db store [] result s = refl
  flat_cache-fetch_batches db store (ids ∷ bs) result s =
      after (fetch_flat_products_batch db ids store s)
        (flat_cache-fetch_flat_products_batch db ids store s)
        (λ batch s1. flat_cache-fetch_batches db store bs (add_all batch result) s1)
    where
      after :
          (r : State F T × Result E (Flats F T))
          → r.0.flat_cache ≡ s.flat_cache
          → ((batch : Flats F T) (s1 : State F T)
              → (fetch_batches db store bs (add_all batch result) s1).0.flat_cache ≡ s1.flat_cache)
          → (elim r.1 as (λ _. State F T × Result E (Flats F T)) [
            | err e ↦ (r.0, err e)
            | ok batch ↦ fetch_batches db store bs (add_all batch result) r.0
          ]).0.flat_cache
            ≡ s.flat_cache
      after (s1, err e) h rest = h
      after (s1, ok batch) h rest = rest batch s1 ∙ h

  flat_cache-fetch_listed :
      (db : Db E F T) (store : ℕ) (s : State F T) (r : Result E (List ℕ))
      → (fetch_listed db store s r).0.flat_cache ≡ s.flat_cache
  unfolding fetch_flat_products_in_batches
  flat_cache-fetch_listed db store s (err e) = refl
  flat_cache-fetch_listed db store s (ok []) = refl
  flat_cache-fetch_listed db store s (ok (id ∷ ids)) =
      flat_cache-fetch_batches db store (batches batch_size (id ∷ ids)) [] s

  flat_cache-fetch_flat_products :
      (db : Db E F T) (ids : List ℕ) (store : ℕ) (s : State F T)
      → (fetch_flat_products db ids store s).0.flat_cache ≡ s.flat_cache
  unfolding fetch_flat_products fetch_flat_products_with_limit fetch_all_flat_products_in_batches
      fetch_flat_products_in_batches
  flat_cache-fetch_flat_products db ids store s =
      elim (Bool-cases (ltb 0 (length ids) && leb (length ids) batch_size)) [
        | inl e ↦ rw e (flat_cache-fetch_flat_products_batch db ids store s)
        | inr e ↦ elim (Bool-cases (ltb batch_size (length ids))) [
          | inl many ↦
              rw (e, many) (flat_cache-fetch_batches db store (batches batch_size ids) [] s)
          | inr few ↦ rw (e, few) (flat_cache-fetch_listed db store s (db.product_ids 0))
        ]
      ]

  -- A fetch for one store leaves what is cached for another one.
  lookup-keep_flats_other :
      (store other : ℕ) (found : State F T × Result E (Flats F T))
      → (other == store) ≡ false
      → lookup store (keep_flats other found).0.flat_cache ≡ lookup store found.0.flat_cache
  lookup-keep_flats_other store other (s, err e) h = refl
  lookup-keep_flats_other store other (s, ok flats) h =
      rw (lookup-insert other store flats s.flat_cache, h) refl

  pub cached-fetch_all :
      (db : Db E F T) (store other : ℕ) (s : State F T) (flats : Flats F T)
      → lookup store s.flat_cache ≡ some flats
      → lookup store (fetch_with_all_attributes_flat db false other s).0.flat_cache ≡ some flats
  unfolding fetch_with_all_attributes_flat fetch_with_all_attributes_flat_with_limit
  cached-fetch_all db store other s flats h = elim (Option-cases (lookup other s.flat_cache)) [
    | inl e ↦
        let differ : (other == store) ≡ false = elim (Bool-cases (other == store)) [
          | inl same ↦
              let here : other ≡ store = (nat_eq.same_iff other store).0 same in
              absurd (cc (sym e ∙ ap (λ k. lookup k s.flat_cache) here ∙ h))
          | inr d ↦ d
        ] in
        rw e (
          lookup-keep_flats_other store other (fetch_flat_products db [] other s) differ
          ∙ ap (lookup store) (flat_cache-fetch_flat_products db [] other s)
          ∙ h)
    | inr (held, e) ↦ rw e h
  ]

  pub cached-fetch_by_ids :
      (db : Db E F T) (ids : List ℕ) (store other : ℕ) (s : State F T) (flats : Flats F T)
      → lookup store s.flat_cache ≡ some flats
      → lookup store (fetch_with_all_attributes_flat_by_ids db false ids other s).0.flat_cache
        ≡ some flats
  unfolding fetch_with_all_attributes_flat_by_ids
  cached-fetch_by_ids db ids store other s flats h =
      let (result, missing) = split_by (lookup other s.flat_cache) ids in
      elim (Bool-cases (is_empty ids)) [
        | inl e ↦ rw e (cached-fetch_all db store other s flats h)
        | inr e ↦ elim (Bool-cases (is_empty missing)) [
          | inl hit ↦ rw (e, hit) h
          | inr miss ↦
              rw (e, miss)
                (ap (lookup store) (flat_cache-fetch_flat_products db missing other s) ∙ h)
        ]
      ]
