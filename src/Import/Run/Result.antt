-- ===== src/Import/Run/Result.antt =====
-- What ImportProducts of service/product/import_service.go reports.
use magento_go.Prelude.{
  ℕ, ◌+◌, ◌≡◌, refl, ap, String, Bool, true, false, Option, none, some, List, [], ◌∷◌, ◌⊎◌, inl,
  inr, length, arith,
}
use magento_go.Prelude.Dict.{Dict}
use magento_go.Prelude.Int.{pos}
use magento_go.Import.Std.{Std}
use magento_go.Import.Entity.{
  NewProduct, Arg, plan_products, insert_products_row_id_schema, insert_planned,
  insert_new_entities,
}
use magento_go.Import.Entity.Create.{count_known, length-plan_products}
use magento_go.Import.Stock.Json.{batch_size_or_default, reply}
use magento_go.Import.Run.{
  ImportOptions, ImportResult, ImportError, flush, Prepared, Db, Schedule, attribute_set_or_default,
  int_sub, Collections, result_of, prepare, known_ids, collect_all, finish_import, because,
  from_prepared, import_prepared, import_products,
}
use magento_go.Import.Run.Quiet.{QuietDb, Keeps, flush_all-Quiet}

int_sub_known : (a b c : ℕ) → a ≡ b + c → int_sub a b ≡ pos c
unfolding int_sub
int_sub_known a b c h = ground arith

module _ {ℓ} {S : Type ℓ} (exec : List String → List Arg → S → S) (last_insert_id : S → ℕ)
    (create : List NewProduct → S → S × List ℕ) where
  created-insert_planned :
      (is_enterprise : Bool) (size : ℕ) (nps : List NewProduct) (sm : S × Dict String ℕ)
      → (insert_planned exec last_insert_id create is_enterprise size nps sm).1 ≡ length nps
  unfolding insert_planned insert_products_row_id_schema
  created-insert_planned e size [] sm = refl
  created-insert_planned true size (np ∷ nps) sm = refl
  created-insert_planned false size (np ∷ nps) (s, m) = refl

  -- Every row is created, skipped or known.
  counts-insert_new_entities :
      (is_enterprise : Bool) (size sku_col : ℕ) (col_index : Dict String ℕ) (attribute_set : ℕ)
      (rows : List (List String)) (s : S) (m : Dict String ℕ)
      → let (sm, created, skipped) =
          insert_new_entities exec last_insert_id create is_enterprise size sku_col col_index
            attribute_set rows
            (s, m) in
        length rows ≡ skipped + created + count_known m sku_col rows
  unfolding insert_new_entities
  counts-insert_new_entities e size sku_col col_index attribute_set rows s m = omega (
    arith,
    length-plan_products sku_col col_index m attribute_set 0 rows,
    created-insert_planned e size (plan_products sku_col col_index m attribute_set 0 rows).0 (s, m),
  )

abbrev pub is_flush {ℓ} : {E : Type ℓ} → ImportError E → Bool
is_flush (flush e) = true
is_flush _ = false

module _ {ℓ κ} (std : Std) {S : Type ℓ} {E : Type κ} (db : Db std S E) (schedule : Schedule S E)
    (opts : ImportOptions) where
  module _ (q : QuietDb std db) (eav_keeps : Keeps schedule.eav_jobs)
      (modules_keeps : Keeps schedule.modules) where
    finish_import-Quiet :
        (p : Prepared) (c : Collections std) (created skipped : ℕ) (s : S)
        → (finish_import std db schedule opts p c created skipped s).1
          ≡ inr (result_of std p c created skipped)
    unfolding finish_import
    finish_import-Quiet p c created skipped s =
        ap (λ err. because flush (reply err (result_of std p c created skipped)))
          (flush_all-Quiet std db q schedule eav_keeps modules_keeps opts c.eav_data
            c.stock_data.rows c.gallery_rows c.price_data.rows s)

    -- On a database where the attributes load and no flush fails, a file with a `sku` column and
    -- readable rows is imported without an error, in whatever order the goroutines finish. The result
    -- counts each row once: as created, as skipped, or as updated, which are the rows whose SKU the
    -- lookup found. So the number of updated rows is never negative.
    pub import_products-counts :
        (header : E ⊎ List String) (body : E ⊎ List (List String)) (s : S) (p : Prepared)
        → prepare std db header body s ≡ inr p
        → let known = count_known (known_ids std db schedule opts p s) p.sku_col p.rows in
          (r : ImportResult) × ((import_products std db schedule opts header body s).1 ≡ inr r)
          × (r.total_rows ≡ length p.rows)
          × (r.updated ≡ pos known)
          × (r.created + r.skipped + known ≡ r.total_rows)
    unfolding import_products import_prepared result_of
    import_products-counts header body s p h =
        let out =
          insert_new_entities db.exec db.last_insert_id db.create db.is_enterprise
            (batch_size_or_default opts.batch_size) p.sku_col p.col_index
            (attribute_set_or_default opts.attribute_set) p.rows
            (s, known_ids std db schedule opts p s) in
        let sums =
          counts-insert_new_entities db.exec db.last_insert_id db.create db.is_enterprise
            (batch_size_or_default opts.batch_size) p.sku_col p.col_index
            (attribute_set_or_default opts.attribute_set) p.rows s
            (known_ids std db schedule opts p s) in
        let c = collect_all std db schedule opts p out.0.1 in
        (
          result_of std p c out.1 out.2,
          rw (h, import_products) (finish_import-Quiet p c out.1 out.2 out.0.0),
          refl,
          int_sub_known (length p.rows) (out.2 + out.1) _ sums,
          omega (arith, sums),
        )

  flush-because :
      (o : Option E) (r : ImportResult) (e : ImportError E)
      → because flush (reply o r) ≡ inl e
      → is_flush e ≡ true
  flush-because none r e h = absurd (ground (arith, h))
  flush-because (some f) r e h = ground (arith, h)

  flush-import_prepared :
      (p : Prepared) (s : S) (e : ImportError E)
      → (import_prepared std db schedule opts p s).1 ≡ inl e
      → is_flush e ≡ true
  unfolding import_prepared finish_import
  flush-import_prepared p s e h = flush-because _ _ e h

  -- An import that ends with another error than one of a flush has not changed the database.
  pub import_products-untouched :
      (header : E ⊎ List String) (body : E ⊎ List (List String)) (s : S) (e : ImportError E)
      → let out = import_products std db schedule opts header body s in
        out.1 ≡ inl e → is_flush e ≡ false → out.0 ≡ s
  unfolding import_products
  import_products-untouched header body s e h k = go (prepare std db header body s) h
    where
      go :
          (prepared : ImportError E ⊎ Prepared)
          → (from_prepared std db schedule opts prepared s).1 ≡ inl e
          → (from_prepared std db schedule opts prepared s).0 ≡ s
      go (inl f) t = refl
      go (inr p) t = absurd (ground (arith, k, flush-import_prepared p s e t))
