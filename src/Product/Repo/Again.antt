-- ===== src/Product/Repo/Again.antt =====
-- How long the cache of flat products of model/repository/product/product_repository.go answers.
use magento_go.Prelude.{
  ℕ, ◌≡◌, ◌∙◌, sym, ap, false, Option-cases, inl, inr, some, List, [], ◌∷◌, nat_eq,
}
use magento_go.Prelude.Dict.{lookup}
use magento_go.Prelude.Fallible.{Result, ok}
use magento_go.Product.Repo.{
  Db, State, Flats, fetch_flat_products, fetch_with_all_attributes_flat,
  fetch_with_all_attributes_flat_by_ids,
}
use magento_go.Product.Repo.Unchanged.{cached-fetch_all, cached-fetch_by_ids}
use magento_go.Product.Repo.Cached.{
  lookup-keep_flats, fetch_with_all_attributes_flat_hit, fetch_with_all_attributes_flat_miss,
}

-- A fetch through the cache, with what the database says then.
pub data Fetch (E F T : Type 0) : Type 0 where
  all : Db E F T → ℕ → Fetch E F T
  by_ids : Db E F T → List ℕ → ℕ → Fetch E F T

module _ {E F T : Type 0} where
  cached_after :
      (db : Db E F T) (store : ℕ) (s s1 : State F T) (flats : Flats F T)
      → fetch_with_all_attributes_flat db false store s ≡ (s1, ok flats)
      → lookup store s1.flat_cache ≡ some flats
  cached_after db store s s1 flats h = elim (Option-cases (lookup store s.flat_cache)) [
    | inl e ↦
        lookup-keep_flats store (fetch_flat_products db [] store s) s1 flats
          (sym (fetch_with_all_attributes_flat_miss db store s e) ∙ h)
    | inr (cached, e) ↦
        let back : ◌≡◌ {A = State F T × Result E (Flats F T)} (s, ok cached) (s1, ok flats) =
          sym (fetch_with_all_attributes_flat_hit db store s cached e) ∙ h in
        let same : cached ≡ flats = cc in
        ap (λ r. lookup store r.0.flat_cache) (sym back) ∙ e ∙ ap some same
  ]

  -- The state after some fetches with the cache on.
  unfoldable pub fetches : State F T → List (Fetch E F T) → State F T
  fetches s [] = s
  fetches s (all db store ∷ fs) = fetches (fetch_with_all_attributes_flat db false store s).0 fs
  fetches s (by_ids db ids store ∷ fs) =
      fetches (fetch_with_all_attributes_flat_by_ids db false ids store s).0 fs

  cached-fetches :
      (store : ℕ) (flats : Flats F T) (fs : List (Fetch E F T)) (s : State F T)
      → lookup store s.flat_cache ≡ some flats
      → lookup store (fetches s fs).flat_cache ≡ some flats
  unfolding fetches
  cached-fetches store flats [] s h = h
  cached-fetches store flats (all db other ∷ fs) s h =
      cached-fetches store flats fs _ (cached-fetch_all db store other s flats h)
  cached-fetches store flats (by_ids db ids other ∷ fs) s h =
      cached-fetches store flats fs _ (cached-fetch_by_ids db ids store other s flats h)

  -- With the cache on, a fetch of all products of a store that succeeded is answered from the cache after
  -- any later fetches, of all products or by ids and for any stores, whatever the database says by then.
  pub fetch_with_all_attributes_flat-again :
      (db later : Db E F T) (store : ℕ) (s s1 : State F T) (flats : Flats F T)
      (fs : List (Fetch E F T))
      → fetch_with_all_attributes_flat db false store s ≡ (s1, ok flats)
      → fetch_with_all_attributes_flat later false store (fetches s1 fs) ≡ (fetches s1 fs, ok flats)
  fetch_with_all_attributes_flat-again db later store s s1 flats fs h =
      fetch_with_all_attributes_flat_hit later store (fetches s1 fs) flats
        (cached-fetches store flats fs s1 (cached_after db store s s1 flats h))
