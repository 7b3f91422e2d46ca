-- ===== src/Product/Repo/Cached.antt =====
-- What the caches beside model/repository/product/product_repository.go do to the answers.
use magento_go.Prelude.{
  ℕ, ◌<◌, ◌≡◌, ◌∙◌, refl, sym, ap, Bool, true, false, Bool-cases, Option-cases, inl, inr, Option,
  none, some, List, [], ◌∷◌, ◌++◌, is_empty, is_empty_of, length_pos, length, nat_eq, select, arith,
  if◌then◌else◌,
}
use mathlib.Core.List.{append_assoc, append-nil}
use magento_go.Prelude.Dict.{
  lookup, insert, lookup-insert, lookup-nil, asked, or_else, or_else-none, ==_refl,
}
use magento_go.Prelude.Index.{keys_of, lookup-keys_of}
use magento_go.Prelude.Fallible.{Result, err, ok, map_ok}
use magento_go.Product.Value.{Flat}
use magento_go.Product.Flat.{Product, flatten_product}
use magento_go.Product.Repo.{
  Db, State, Flats, id_of, code_map_once, index_products, keep_flats, fetch_listed,
  fetch_flat_products, fetch_flat_products_with_limit, fetch_all_flat_products_in_batches,
  fetch_with_all_attributes_flat, fetch_with_all_attributes_flat_with_limit, split_cached,
  fetch_with_all_attributes_flat_by_ids,
}
use magento_go.Product.Repo.Exact.{
  Answers, expected, fetch_flat_products-exact, fetch_flat_products_in_batches-exact,
}

module _ {F T : Type 0} where
  abbrev is_none : Option (Flat F T) → Bool
  is_none none = true
  is_none (some v) = false

  abbrev pub missing_in : Flats F T → List ℕ → List ℕ
  missing_in cached ids = select (λ id. is_none (lookup id cached)) ids

  split_cached-missing :
      (cached : Flats F T) (ids : List ℕ) (result : Flats F T) (missing : List ℕ)
      → (split_cached cached ids result missing).1 ≡ missing ++ missing_in cached ids
  unfolding split_cached
  split_cached-missing cached [] result missing = sym (append-nil missing)
  split_cached-missing cached (id ∷ ids) result missing = elim (Option-cases (lookup id cached)) [
    | inl e ↦
        rw (e, split_cached)
          (split_cached-missing cached ids result (missing ++ id ∷ [])
            ∙ append_assoc missing (id ∷ []) (missing_in cached ids))
    | inr (prod, e) ↦
        rw (e, split_cached) (split_cached-missing cached ids (insert id prod result) missing)
  ]

  lookup-split_cached :
      (k : ℕ) (cached : Flats F T) (ids : List ℕ) (result : Flats F T) (missing : List ℕ)
      → lookup k (split_cached cached ids result missing).0
        ≡ or_else (if asked k ids then lookup k cached else none) (lookup k result)
  unfolding split_cached
  lookup-split_cached k cached [] result missing = refl
  lookup-split_cached k cached (id ∷ ids) result missing = elim (Option-cases (lookup id cached)) [
    | inl e ↦
        rw (e, split_cached)
          (lookup-split_cached k cached ids result (missing ++ id ∷ []) ∙ ground (arith, e))
    | inr (prod, e) ↦
        rw (e, split_cached)
          (lookup-split_cached k cached ids (insert id prod result) missing
            ∙ rw (lookup-insert id k prod result) (ground (arith, e)))
  ]

module _ {E F T : Type 0} where
  pub lookup-keep_flats :
      (store : ℕ) (found : State F T × Result E (Flats F T)) (s1 : State F T) (flats : Flats F T)
      → keep_flats store found ≡ (s1, ok flats)
      → lookup store s1.flat_cache ≡ some flats
  lookup-keep_flats store (s, err e) s1 flats h = absurd (cc)
  lookup-keep_flats store (s, ok found) s1 flats h =
      let same : found ≡ flats = cc in
      let stored : insert store found s.flat_cache ≡ s1.flat_cache = ap (λ r. r.0.flat_cache) h in
      rw (← stored, lookup-insert store store found s.flat_cache, ==_refl store) (ap some same)

  pub fetch_with_all_attributes_flat_hit :
      (db : Db E F T) (store : ℕ) (s : State F T) (cached : Flats F T)
      → lookup store s.flat_cache ≡ some cached
      → fetch_with_all_attributes_flat db false store s ≡ (s, ok cached)
  unfolding fetch_with_all_attributes_flat fetch_with_all_attributes_flat_with_limit
  fetch_with_all_attributes_flat_hit db store s cached e = rw e refl

  pub fetch_with_all_attributes_flat_miss :
      (db : Db E F T) (store : ℕ) (s : State F T)
      → lookup store s.flat_cache ≡ none
      → fetch_with_all_attributes_flat db false store s
        ≡ keep_flats store (fetch_flat_products db [] store s)
  unfolding fetch_with_all_attributes_flat fetch_with_all_attributes_flat_with_limit
  fetch_with_all_attributes_flat_miss db store s e = rw e refl

  map_ok-keep_flats :
      (id store : ℕ) (found : State F T × Result E (Flats F T))
      → map_ok (lookup id) (keep_flats store found).1 ≡ map_ok (lookup id) found.1
  map_ok-keep_flats id store (s, err e) = refl
  map_ok-keep_flats id store (s, ok flats) = refl

module _ {E F T : Type 0} (db : Db E F T) (store : ℕ) (table : List (Product F T))
    (ans : Answers db store table) where
  fetch_listed-exact :
      (s : State F T) (id : ℕ) (ids : List ℕ)
      → map_ok (lookup id) (fetch_listed db store s (ok ids)).1
        ≡ ok (expected db store table ans s ids id)
  fetch_listed-exact s id [] = ap ok (lookup-nil id)
  fetch_listed-exact s id (i ∷ ids) =
      fetch_flat_products_in_batches-exact db store table ans (i ∷ ids) s id

  fetch_flat_products_nil :
      (s : State F T)
      → fetch_flat_products db [] store s ≡ fetch_listed db store s (db.product_ids 0)
  unfolding fetch_flat_products fetch_flat_products_with_limit fetch_all_flat_products_in_batches
  fetch_flat_products_nil s = refl

  -- The products of the first fetch are those of the table, each under its id.
  pub fetch_with_all_attributes_flat-exact :
      (s : State F T) (id : ℕ)
      → db.product_ids 0 ≡ ok (keys_of id_of table)
      → lookup store s.flat_cache ≡ none
      → map_ok (lookup id) (fetch_with_all_attributes_flat db false store s).1
        ≡ ok (lookup id (index_products (code_map_once db s.code_map) table []))
  fetch_with_all_attributes_flat-exact s id listed e =
      rw
        (
          fetch_with_all_attributes_flat_miss db store s e,
          map_ok-keep_flats id store (fetch_flat_products db [] store s),
          fetch_flat_products_nil s,
        )
        (rw listed (
          fetch_listed-exact s id (keys_of id_of table)
          ∙ ap ok (lookup-keys_of id_of (flatten_product (code_map_once db s.code_map)) id table)))

  -- With the store's products cached: if all ids are cached, the cache is the answer; otherwise the
  -- answer is that of the database for the other ids, and the cached products are left out.
  pub fetch_with_all_attributes_flat_by_ids-cached :
      (s : State F T) (cached : Flats F T) (ids : List ℕ) (id : ℕ)
      → lookup store s.flat_cache ≡ some cached
      → 0 < length ids
      → map_ok (lookup id) (fetch_with_all_attributes_flat_by_ids db false ids store s).1
        ≡ ok (
            if is_empty (missing_in cached ids)
            then (if asked id ids then lookup id cached else none)
            else expected db store table ans s (missing_in cached ids) id)
  unfolding fetch_with_all_attributes_flat_by_ids
  fetch_with_all_attributes_flat_by_ids-cached s cached ids id e h =
      let missing = missing_in cached ids in
      let split : (split_cached cached ids [] []).1 ≡ missing =
        split_cached-missing cached ids [] [] in
      elim (Bool-cases (is_empty missing)) [
        | inl none_left ↦
            rw (is_empty_of ids h, e, split, none_left)
              (ap ok (lookup-split_cached id cached ids [] [] ∙ rw (lookup-nil) (or_else-none _)))
        | inr left ↦
            rw (is_empty_of ids h, e, split, left)
              (fetch_flat_products-exact db store table ans missing s id (length_pos missing left))
      ]
