-- ===== src/Resolver/Categories/Uids.antt =====
-- MagentoCategories of graphql/resolvers/magento_resolver.go finds the categories whose UIDs it is given.
use magento_go.Prelude.{
  ℕ, ◌<◌, ◌≡◌, refl, ap, true, false, String, Option, none, some, List, [], ◌∷◌, ◌++◌, map, All,
  ◌==◌, string_eq, nat_eq, arith,
}
use mathlib.Core.List.{append-nil}
use text.Mathlib.TextEquality.{eq_iff}
use magento_go.Prelude.Dict.{Dict, lookup}
use magento_go.Prelude.Int.{two_64}
use magento_go.Category.Flat.{Cat, EavAttribute}
use magento_go.Category.Repo.{Db, State, index_cats, get_cache_category, found_in}
use magento_go.Category.Repo.Found.{Answers, missing_in, get_by_ids_with_attributes_and_flat-found}
use magento_go.Resolver.Uid.{Base64, Lawful, uid_encode, uid_decode-uid_encode, uid_encode-ne-empty}
use magento_go.Resolver.Categories.{
  category_to_category_tree, ids_in, shown_categories, ask_categories, magento_categories,
}

module _ (b : Base64) (law : Lawful b) where
  -- The UIDs of some ids, as a client lists them.
  abbrev pub uids_of : List ℕ → List (Option String)
  uids_of ids = map (λ id. some (uid_encode b id)) ids

  ids_in-uids_of : (ids : List ℕ) → All (λ id. id < two_64) ids → ids_in b (uids_of ids) ≡ ids
  unfolding ids_in
  ids_in-uids_of [] h = refl
  ids_in-uids_of (id ∷ ids) h =
      let given : (uid_encode b id == "") ≡ false =
        ground (arith, eq_iff (uid_encode b id) "", uid_encode-ne-empty b law id h.0) in
      rw (given, uid_decode-uid_encode b law id h.0, ids_in-uids_of ids h.1) refl

  -- With the metadata loaded, a query for the UIDs of some ids shows the categories of these ids: those
  -- that the cache has, and then those that the database has, each group in the order of the query.
  pub magento_categories-uids :
      {E : Type 0} (db : Db E) (store : ℕ) (table : List Cat) (s : State)
      (meta : Dict ℕ EavAttribute) (ids : List ℕ)
      → Answers db store table
      → s.meta_done ≡ true
      → s.meta ≡ some meta
      → All (λ id. id < two_64) ids
      → magento_categories b db (some (uids_of ids)) none store s ≡ (
        s,
        map (category_to_category_tree b) (
            found_in (get_cache_category s store) ids
            ++ found_in (λ id. lookup id (index_cats meta table [])) (missing_in s store ids)),
      )
  unfolding magento_categories
  magento_categories-uids db store table s meta ids ans d e h =
      rw (ids_in-uids_of ids h, append-nil ids) (asked_for ids)
    where
      asked_for :
          (some_ids : List ℕ)
          → ask_categories b db some_ids store s ≡ (
            s,
            map (category_to_category_tree b) (
                found_in (get_cache_category s store) some_ids
                ++ found_in
                    (λ id. lookup id (index_cats meta table []))
                    (missing_in s store some_ids)),
          )
      asked_for [] = refl
      asked_for (id ∷ more) =
          ap (shown_categories b)
            (get_by_ids_with_attributes_and_flat-found db store table ans s meta (id ∷ more) d e)
