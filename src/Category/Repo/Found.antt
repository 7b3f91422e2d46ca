-- ===== src/Category/Repo/Found.antt =====
-- Which categories GetByIDsWithAttributesAndFlat and GetByIDWithAttributesAndFlat of
-- model/repository/category/category_repository.go find.
use magento_go.Prelude.{
  ℕ, ◌<◌, ◌≡◌, ◌∙◌, refl, sym, ap, Bool, true, false, Bool-cases, Option-cases, inl, inr, Option,
  none, some, List, [], ◌∷◌, ◌++◌, is_empty, length_pos, length, nat_eq, select, arith,
  if◌then◌else◌,
}
use mathlib.Core.List.{append_assoc, append-nil}
use magento_go.Prelude.Dict.{Dict, lookup, asked, ==_refl}
use magento_go.Prelude.Index.{rows_of, lookup-rows_of}
use magento_go.Prelude.Fallible.{Result, ok}
use magento_go.Prelude.Panic.{Run, done, panic}
use magento_go.Category.Flat.{Cat, EavAttribute}
use magento_go.Category.Repo.{
  Db, CategoryWithAttributes, State, with_attributes, index_cats, get_cache_category,
  load_category_attribute_meta, found_in, split_cached, get_by_ids_with_attributes_and_flat,
  get_by_id_with_attributes_and_flat, first_cat, cons_found, meta_or_nil, keep_meta,
}

abbrev is_none : Option CategoryWithAttributes → Bool
is_none none = true
is_none (some c) = false

-- The ids that the cache lacks, in order.
abbrev pub missing_in : State → ℕ → List ℕ → List ℕ
missing_in s store ids = select (λ id. is_none (get_cache_category s store id)) ids

split_cached_lem :
    (s : State) (store : ℕ) (ids : List ℕ) (hits : List CategoryWithAttributes) (missing : List ℕ)
    → split_cached s store ids hits missing
      ≡ (hits ++ found_in (get_cache_category s store) ids, missing ++ missing_in s store ids)
unfolding split_cached
split_cached_lem s store [] hits missing = rw (append-nil hits, append-nil missing) refl
split_cached_lem s store (id ∷ ids) hits missing =
    elim (Option-cases (get_cache_category s store id)) [
      | inl e ↦
          rw (e, split_cached)
            (split_cached_lem s store ids hits (missing ++ id ∷ [])
              ∙ rw (append_assoc missing) refl)
      | inr (c, e) ↦
          rw (e, split_cached)
            (split_cached_lem s store ids (hits ++ c ∷ []) missing ∙ rw (append_assoc hits) refl)
    ]

-- The query for some ids returns the categories of a table with one of these ids.
pub record Answers {E : Type 0} (db : Db E) (store : ℕ) (table : List Cat) : Type 0 where
  pub exact :
      (ids : List ℕ)
      → 0 < length ids
      → db.find_ids ids store ≡ ok (rows_of (λ (c : Cat). c.entity_id) table ids)

found_in-ext :
    (find found : ℕ → Option CategoryWithAttributes) (ids : List ℕ)
    → ((id : ℕ) → asked id ids ≡ true → find id ≡ found id)
    → found_in find ids ≡ found_in found ids
found_in-ext find found [] h = refl
found_in-ext find found (id ∷ ids) h =
    rw
      (
        h id (ground (arith, ==_refl id)),
        found_in-ext find found ids (λ k a. h k (ground (arith, a))),
      )
      refl

found_in-empty :
    (find : ℕ → Option CategoryWithAttributes) (ids : List ℕ)
    → is_empty ids ≡ true
    → found_in find ids ≡ []
found_in-empty find [] h = refl
found_in-empty find (id ∷ ids) h = absurd (cc)

rows_found :
    (meta : Dict ℕ EavAttribute) (table : List Cat) (ids : List ℕ)
    → found_in
        (λ id. lookup id (index_cats meta (rows_of (λ (c : Cat). c.entity_id) table ids) []))
        ids
      ≡ found_in (λ id. lookup id (index_cats meta table [])) ids
rows_found meta table ids = found_in-ext _ _ ids (λ id a.
    lookup-rows_of (λ (c : Cat). c.entity_id) (with_attributes meta) id ids table ∙ rw a refl)

module _ {E : Type 0} where
  abbrev pub first_found :
      Option CategoryWithAttributes
      → Option CategoryWithAttributes
      → Run (Result E CategoryWithAttributes)
  first_found (some c) o = done (ok c)
  first_found none (some c) = done (ok c)
  first_found none none = panic "runtime error: index out of range [0] with length 0"

  first_cat_found :
      (find : ℕ → Option CategoryWithAttributes) (id : ℕ) (hit : Option CategoryWithAttributes)
      → first_cat {E = E}
          (ok (cons_found hit [] ++ found_in find (if is_none hit then id ∷ [] else [])))
        ≡ first_found hit (find id)
  first_cat_found find id (some c) = refl
  first_cat_found find id none = elim (Option-cases (find id)) [
    | inl e ↦ rw e refl
    | inr (c, e) ↦ rw e refl
  ]

  load_category_attribute_meta_settled :
      (db : Db E) (s : State) (meta : Dict ℕ EavAttribute)
      → s.meta_done ≡ true
      → s.meta ≡ some meta
      → load_category_attribute_meta db s ≡ (s, ok meta)
  unfolding load_category_attribute_meta
  load_category_attribute_meta_settled db s meta d e =
      ap (λ t. if t then (s, meta_or_nil s.meta) else keep_meta s db.attributes) d
      ∙ ap (λ m. (s, meta_or_nil m)) e

module _ {E : Type 0} (db : Db E) (store : ℕ) (table : List Cat)
    (ans : Answers db store table) where
  -- With the metadata loaded: first the categories that the cache has, in the order of the ids, then
  -- those of the other ids that the database has, in their order; an id that is asked for twice is
  -- answered twice, and one that nobody knows is left out.
  pub get_by_ids_with_attributes_and_flat-found :
      (s : State) (meta : Dict ℕ EavAttribute) (ids : List ℕ)
      → s.meta_done ≡ true
      → s.meta ≡ some meta
      → get_by_ids_with_attributes_and_flat db ids store s ≡ (
        s,
        ok (
            found_in (get_cache_category s store) ids
            ++ found_in (λ id. lookup id (index_cats meta table [])) (missing_in s store ids)),
      )
  unfolding get_by_ids_with_attributes_and_flat
  get_by_ids_with_attributes_and_flat-found s meta ids d e =
      let missing = missing_in s store ids in
      elim (Bool-cases (is_empty missing)) [
        | inl none_left ↦
            rw (split_cached_lem s store ids [] [], none_left)
              (ap (λ cs. (s, ok cs))
                (sym (append-nil _)
                  ∙ ap (λ cs. found_in (get_cache_category s store) ids ++ cs)
                      (sym (found_in-empty _ missing none_left))))
        | inr left ↦
            rw
              (
                split_cached_lem s store ids [] [],
                left,
                ans.exact missing (length_pos missing left),
                load_category_attribute_meta_settled db s meta d e,
              )
              (ap (λ cs. (s, ok (found_in (get_cache_category s store) ids ++ cs)))
                (rows_found meta table missing))
      ]

  -- With the metadata loaded: a single category comes from the cache or else from the database, and
  -- where neither has it the call panics.
  pub get_by_id_with_attributes_and_flat-found :
      (s : State) (meta : Dict ℕ EavAttribute) (id : ℕ)
      → s.meta_done ≡ true
      → s.meta ≡ some meta
      → get_by_id_with_attributes_and_flat db id store s
        ≡ (s, first_found (get_cache_category s store id) (lookup id (index_cats meta table [])))
  unfolding get_by_id_with_attributes_and_flat
  get_by_id_with_attributes_and_flat-found s meta id d e =
      rw (get_by_ids_with_attributes_and_flat-found s meta (id ∷ []) d e) (
        ap (λ r. (s, r))
          (first_cat_found (λ k. lookup k (index_cats meta table [])) id
            (get_cache_category s store id)))
