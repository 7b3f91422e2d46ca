-- ===== src/Import/Entity/Assign.antt =====
-- After insertNewEntities of service/product/import_service.go every row that names a SKU has an id.
use magento_go.Prelude.{
  ℕ, ◌+◌, ◌<◌, ◌≡◌, ◌∙◌, sym, refl, ap, String, Bool, true, false, ◌||◌, List, [], ◌∷◌, ◌++◌, ◌==◌,
  string_eq, length, any, arith, All, All-imp,
}
use mathlib.Core.List.{flatten}
use text.Mathlib.TextEquality.{eq_iff}
use magento_go.Prelude.Dict.{Dict, lookup, insert, has, lookup-insert}
use magento_go.Batch.{batches}
use magento_go.Batch.Cover.{batches-cover}
use magento_go.Import.Row.{row_sku}
use magento_go.Import.Entity.{
  NewProduct, Arg, plan_products, assign_ids, row_ids, insert_batch, insert_batches,
  insert_products_row_id_schema, insert_planned, insert_new_entities,
}

abbrev planned : String → List NewProduct → Bool
planned sku nps = any (λ np. np.sku == sku) nps

or-false : (p q : Bool) → (p || q) ≡ false → (p ≡ false) × (q ≡ false)
or-false false q h = (refl, h)
or-false true q h = absurd (ground arith)

planned-append :
    (sku : String) (xs ys : List NewProduct)
    → planned sku (xs ++ ys) ≡ (planned sku xs || planned sku ys)
planned-append sku [] ys = refl
planned-append sku (x ∷ xs) ys = ground (arith, planned-append sku xs ys)

length-row_ids : (first j : ℕ) (nps : List NewProduct) → length (row_ids first j nps) ≡ length nps
unfolding row_ids
length-row_ids first j [] = refl
length-row_ids first j (np ∷ nps) = omega (arith, length-row_ids first (j + 1) nps)

-- What a map holds for a SKU after new ids: a new one exactly if the SKU is planned.
has-assign_ids :
    (sku : String) (nps : List NewProduct) (ids : List ℕ) (m : Dict String ℕ)
    → length ids ≡ length nps
    → has sku (assign_ids nps ids m) ≡ (planned sku nps || has sku m)
unfolding assign_ids
has-assign_ids sku [] ids m h = refl
has-assign_ids sku (np ∷ nps) [] m h = absurd (omega arith)
has-assign_ids sku (np ∷ nps) (id ∷ ids) m h = ground (
  arith,
  lookup-insert np.sku sku id m,
  has-assign_ids sku nps ids (insert np.sku id m) (omega arith),
)

lookup-assign_ids :
    (sku : String) (nps : List NewProduct) (ids : List ℕ) (m : Dict String ℕ)
    → planned sku nps ≡ false
    → lookup sku (assign_ids nps ids m) ≡ lookup sku m
unfolding assign_ids
lookup-assign_ids sku [] ids m h = refl
lookup-assign_ids sku (np ∷ nps) [] m h = refl
lookup-assign_ids sku (np ∷ nps) (id ∷ ids) m h =
    ground
      (arith, lookup-insert np.sku sku id m, lookup-assign_ids sku nps ids (insert np.sku id m))

module _ (sku_col : ℕ) (col_index m : Dict String ℕ) (attribute_set : ℕ) where
  -- Every row is blank, known or planned; what is known is not planned.
  covered-plan_products :
      (ri : ℕ) (rows : List (List String))
      → All
          (λ row.
            (row_sku sku_col row == ""
              || (planned
                    (row_sku sku_col row)
                    (plan_products sku_col col_index m attribute_set ri rows).0
                  || has (row_sku sku_col row) m))
            ≡ true)
          rows
  unfolding plan_products
  covered-plan_products ri [] = tt
  covered-plan_products ri (row ∷ rows) =
      let s = row_sku sku_col row in
      (
        ground (arith, eq_iff s s),
        All-imp _ _ (λ r h. ground arith) rows (covered-plan_products (ri + 1) rows),
      )

  planned-plan_products :
      (sku : String) (ri : ℕ) (rows : List (List String))
      → has sku m ≡ true
      → planned sku (plan_products sku_col col_index m attribute_set ri rows).0 ≡ false
  unfolding plan_products
  planned-plan_products sku ri [] h = refl
  planned-plan_products sku ri (row ∷ rows) h =
      ground (arith, eq_iff (row_sku sku_col row) sku, planned-plan_products sku (ri + 1) rows)

module _ {ℓ} {S : Type ℓ} (exec : List String → List Arg → S → S) (last_insert_id : S → ℕ) where
  has-insert_batch :
      (sku : String) (b : List NewProduct) (sm : S × Dict String ℕ)
      → has sku (insert_batch exec last_insert_id b sm).1 ≡ (planned sku b || has sku sm.1)
  unfolding insert_batch
  has-insert_batch sku b (s, m) = has-assign_ids sku b _ m (length-row_ids _ 0 b)

  lookup-insert_batch :
      (sku : String) (b : List NewProduct) (sm : S × Dict String ℕ)
      → planned sku b ≡ false
      → lookup sku (insert_batch exec last_insert_id b sm).1 ≡ lookup sku sm.1
  unfolding insert_batch
  lookup-insert_batch sku b (s, m) h = lookup-assign_ids sku b _ m h

  has-insert_batches :
      (sku : String) (bs : List (List NewProduct)) (sm : S × Dict String ℕ)
      → has sku (insert_batches exec last_insert_id bs sm).1
        ≡ (planned sku (flatten bs) || has sku sm.1)
  unfolding insert_batches flatten
  has-insert_batches sku [] sm = refl
  has-insert_batches sku (b ∷ bs) sm =
      let next = insert_batch exec last_insert_id b sm in
      grind (
        arith,
        has-insert_batches sku bs next,
        has-insert_batch sku b sm,
        planned-append sku b (flatten bs),
      )

  lookup-insert_batches :
      (sku : String) (bs : List (List NewProduct)) (sm : S × Dict String ℕ)
      → planned sku (flatten bs) ≡ false
      → lookup sku (insert_batches exec last_insert_id bs sm).1 ≡ lookup sku sm.1
  unfolding insert_batches flatten
  lookup-insert_batches sku [] sm h = refl
  lookup-insert_batches sku (b ∷ bs) sm h =
      let e = or-false _ _ (sym (planned-append sku b (flatten bs)) ∙ h) in
      lookup-insert_batches sku bs (insert_batch exec last_insert_id b sm) e.1
      ∙ lookup-insert_batch sku b sm e.0

  module _ (create : List NewProduct → S → S × List ℕ) where
    -- The ids of both ways to create products, where the batches cover the plan and `Create` writes an
    -- id back to each product.
    has-insert_planned :
        (sku : String) (is_enterprise : Bool) (batch_size : ℕ) (nps : List NewProduct)
        (sm : S × Dict String ℕ)
        → 0 < batch_size
        → ((nps : List NewProduct) (s : S) → length (create nps s).1 ≡ length nps)
        → has sku (insert_planned exec last_insert_id create is_enterprise batch_size nps sm).0.1
          ≡ (planned sku nps || has sku sm.1)
    unfolding insert_planned insert_products_row_id_schema
    has-insert_planned sku e b [] sm p h = refl
    has-insert_planned sku true b (np ∷ nps) sm p h =
        has-insert_batches sku (batches b (np ∷ nps)) sm
        ∙ ap (λ xs. planned sku xs || has sku sm.1) (batches-cover b (np ∷ nps) p).0
    has-insert_planned sku false b (np ∷ nps) (s, m) p h =
        has-assign_ids sku (np ∷ nps) _ m (h (np ∷ nps) s)

    lookup-insert_planned :
        (sku : String) (is_enterprise : Bool) (batch_size : ℕ) (nps : List NewProduct)
        (sm : S × Dict String ℕ)
        → 0 < batch_size
        → planned sku nps ≡ false
        → lookup sku (insert_planned exec last_insert_id create is_enterprise batch_size nps sm).0.1
          ≡ lookup sku sm.1
    unfolding insert_planned insert_products_row_id_schema
    lookup-insert_planned sku e b [] sm p h = refl
    lookup-insert_planned sku true b (np ∷ nps) sm p h =
        lookup-insert_batches sku (batches b (np ∷ nps)) sm
          (ap (λ xs. planned sku xs) (batches-cover b (np ∷ nps) p).0 ∙ h)
    lookup-insert_planned sku false b (np ∷ nps) (s, m) p h = lookup-assign_ids sku (np ∷ nps) _ m h

    -- Where the batch size is positive and `Create` writes one id back to each product, after
    -- insertNewEntities every row whose SKU is not blank has its SKU in the map, whichever edition it
    -- ran for, and every SKU that was in the map before keeps its id.
    pub insert_new_entities-assigned :
        (is_enterprise : Bool) (batch_size sku_col : ℕ) (col_index : Dict String ℕ)
        (attribute_set : ℕ) (rows : List (List String)) (s : S) (m : Dict String ℕ)
        → 0 < batch_size
        → ((nps : List NewProduct) (s : S) → length (create nps s).1 ≡ length nps)
        → let out =
            insert_new_entities exec last_insert_id create is_enterprise batch_size sku_col
              col_index attribute_set rows
              (s, m) in
          All (λ row. (row_sku sku_col row == "" || has (row_sku sku_col row) out.0.1) ≡ true) rows
          × ((sku : String) → has sku m ≡ true → lookup sku out.0.1 ≡ lookup sku m)
    unfolding insert_new_entities
    insert_new_entities-assigned e b sku_col col_index attribute_set rows s m p h =
        let nps = (plan_products sku_col col_index m attribute_set 0 rows).0 in
        (
          All-imp _ _
              (λ row c.
                ap (λ t. row_sku sku_col row == "" || t)
                  (has-insert_planned (row_sku sku_col row) e b nps (s, m) p h)
                ∙ c)
              rows (covered-plan_products sku_col col_index m attribute_set 0 rows),
          λ sku k.
              lookup-insert_planned sku e b nps (s, m) p
                (planned-plan_products sku_col col_index m attribute_set sku 0 rows k),
        )
