-- ===== src/Category/Repo/Stale.antt =====
-- How long the caches of model/repository/category/category_repository.go answer, and what a failure to
-- load the metadata of attributes leaves behind.
use magento_go.Prelude.{
  ℕ, ◌≡◌, ◌∙◌, refl, sym, ap, false, Option-cases, inl, inr, none, some, List, [], ◌∷◌, string_eq,
  nat_eq,
}
use magento_go.Prelude.Dict.{Dict, lookup, insert, lookup-insert, lookup-nil, ==_refl}
use magento_go.Prelude.Fallible.{Result, err, ok}
use magento_go.Category.Flat.{
  Cat, AttributeRow, EavAttribute, Infos, InfoValue, uint, put_infos, flatten_category,
}
use magento_go.Category.Repo.{
  Db, Cats, State, index_cats, load_category_attribute_meta, keep_cats, load_cats,
  fetch_all_with_attributes_map, invalidate_cache,
}

module _ {E : Type 0} where
  fetch_all_with_attributes_map_hit :
      (db : Db E) (store : ℕ) (s : State) (cats : Cats)
      → lookup store s.cache ≡ some cats
      → fetch_all_with_attributes_map db store s ≡ (s, ok cats)
  unfolding fetch_all_with_attributes_map
  fetch_all_with_attributes_map_hit db store s cats h = rw h refl

  fetch_all_with_attributes_map_miss :
      (db : Db E) (store : ℕ) (s : State)
      → lookup store s.cache ≡ none
      → fetch_all_with_attributes_map db store s ≡ load_cats db store s (db.find_all store)
  unfolding fetch_all_with_attributes_map
  fetch_all_with_attributes_map_miss db store s h = rw h refl

  lookup-keep_cats :
      (store : ℕ) (found : List Cat) (loaded : State × Result E (Dict ℕ EavAttribute)) (s1 : State)
      (cats : Cats)
      → keep_cats store found loaded ≡ (s1, ok cats)
      → lookup store s1.cache ≡ some cats
  lookup-keep_cats store found (s, err e) s1 cats h = absurd (cc)
  lookup-keep_cats store found (s, ok meta) s1 cats h =
      let m = index_cats meta found [] in
      let same : m ≡ cats = cc in
      let stored : insert store m s.cache ≡ s1.cache = ap (λ r. r.0.cache) h in
      rw (← stored, lookup-insert store store m s.cache, ==_refl store) (ap some same)

  lookup-load_cats :
      (db : Db E) (store : ℕ) (s : State) (found : Result E (List Cat)) (s1 : State) (cats : Cats)
      → load_cats db store s found ≡ (s1, ok cats)
      → lookup store s1.cache ≡ some cats
  lookup-load_cats db store s (err e) s1 cats h = absurd (cc)
  lookup-load_cats db store s (ok found) s1 cats h =
      lookup-keep_cats store found (load_category_attribute_meta db s) s1 cats h

  cached_after :
      (db : Db E) (store : ℕ) (s s1 : State) (cats : Cats)
      → fetch_all_with_attributes_map db store s ≡ (s1, ok cats)
      → lookup store s1.cache ≡ some cats
  cached_after db store s s1 cats h = elim (Option-cases (lookup store s.cache)) [
    | inl e ↦
        lookup-load_cats db store s (db.find_all store) s1 cats
          (sym (fetch_all_with_attributes_map_miss db store s e) ∙ h)
    | inr (held, e) ↦
        let back : ◌≡◌ {A = State × Result E Cats} (s, ok held) (s1, ok cats) =
          sym (fetch_all_with_attributes_map_hit db store s held e) ∙ h in
        let same : held ≡ cats = cc in
        ap (λ r. lookup store r.0.cache) (sym back) ∙ e ∙ ap some same
  ]

  -- Categories that were fetched are answered from the cache whatever the database says later, until the
  -- cache is invalidated: then the database is asked again, and its error is returned.
  fetch_all_with_attributes_map-again :
      (db later : Db E) (store : ℕ) (s s1 : State) (cats : Cats) (e : E)
      → fetch_all_with_attributes_map db store s ≡ (s1, ok cats)
      → later.find_all store ≡ err e
      → (fetch_all_with_attributes_map later store s1 ≡ (s1, ok cats))
        × (fetch_all_with_attributes_map later store (invalidate_cache s1)
            ≡ (invalidate_cache s1, err e))
  fetch_all_with_attributes_map-again db later store s s1 cats e h k = (
    fetch_all_with_attributes_map_hit later store s1 cats (cached_after db store s s1 cats h),
    fetch_all_with_attributes_map_miss later store (invalidate_cache s1) (lookup-nil store)
        ∙ ap (load_cats later store (invalidate_cache s1)) k,
  )

put_infos_nil :
    {V : Type 0} (as_value : V → InfoValue) (vs : List (AttributeRow V)) (flat : Infos)
    → put_infos [] as_value vs flat ≡ flat
unfolding put_infos lookup
put_infos_nil as_value [] flat = refl
put_infos_nil as_value (v ∷ vs) flat = put_infos_nil as_value vs flat

flatten_category_nil :
    (c : Cat)
    → flatten_category c []
      ≡ ("entity_id", record { value = uint c.entity_id; label = "Entity ID"; store_id = 0 }) ∷ []
unfolding flatten_category insert
flatten_category_nil c =
    rw
      (
        put_infos_nil InfoValue.int c.value.ints [],
        put_infos_nil InfoValue.str c.value.varchars [],
        put_infos_nil InfoValue.str c.value.texts [],
      )
      refl

module _ {E : Type 0} where
  -- If the first load of the metadata fails, that call returns the error. The next one returns none: it
  -- answers with the categories without any attribute, each with its id alone, and caches them for the store.
  pub fetch_all_with_attributes_map-without_meta :
      (db later : Db E) (store : ℕ) (s : State) (found cats : List Cat) (e : E)
      → s.meta_done ≡ false
      → s.meta ≡ none
      → lookup store s.cache ≡ none
      → db.find_all store ≡ ok found
      → db.attributes ≡ err e
      → later.find_all store ≡ ok cats
      → ((fetch_all_with_attributes_map db store s).1 ≡ err e)
        × ((fetch_all_with_attributes_map later store
              (fetch_all_with_attributes_map db store s).0).1
            ≡ ok (index_cats [] cats []))
        × (lookup store
              (fetch_all_with_attributes_map later store
                (fetch_all_with_attributes_map db store s).0).0.cache
            ≡ some (index_cats [] cats []))
        × ((c : Cat)
            → flatten_category c []
              ≡ (
                "entity_id",
                record { value = uint c.entity_id; label = "Entity ID"; store_id = 0 },
              )
                ∷ [])
  unfolding fetch_all_with_attributes_map load_category_attribute_meta
  fetch_all_with_attributes_map-without_meta db later store s found cats e d m h k l f = (
    rw (h, k, d, l) refl,
    rw (h, k, d, l, h, f, m) refl,
    rw
        (
          h,
          k,
          d,
          l,
          h,
          f,
          m,
          lookup-insert store store (index_cats [] cats []) s.cache,
          ==_refl store,
        )
        refl,
    flatten_category_nil,
  )
