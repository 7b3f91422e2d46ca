-- ===== src/Import/Entity.antt =====
-- service/product/import_service.go: the lookup of SKUs and the creation of the products that a CSV
-- names for the first time. The errors of these statements are dropped in the source.
pub mod Lookup
pub mod Create
pub mod Assign
mod Tests
use Prim.Native.Nat.{◌≤◌}
use magento_go.Prelude.{
  ℕ, ◌+◌, ◌%◌, String, Bool, true, false, Option, none, some, List, [], ◌∷◌, ◌++◌, ◌==◌, not, ◌&&◌,
  string_eq, get_elem?, length, ltb, map, if◌then◌else◌,
}
use mathlib.Core.List.{flat_map}
use magento_go.Prelude.Dict.{Dict, lookup, insert, has}
use magento_go.Prelude.Int.{two_64}
use magento_go.Prelude.Text.{NumErr, trim_space, parse_uint}
use magento_go.Batch.{batches}
use magento_go.Import.Row.{row_sku, cell_at, cell}

-- skuRow
pub record SkuRow : Type 0 where
  pub link_id : ℕ
  pub sku : String

-- `if skuCol < len(row) && row[skuCol] != "" { skus = append(skus, row[skuCol]) }`: not trimmed
unfoldable pub raw_skus : ℕ → List (List String) → List String
raw_skus sku_col [] = []
raw_skus sku_col (row ∷ rows) =
    let rest = raw_skus sku_col rows in
    elim (get_elem? row sku_col) [ none ↦ rest | some c ↦ if c == "" then rest else c ∷ rest ]

-- `for _, e := range existing { m[e.SKU] = e.LinkID }`
unfoldable pub index_rows : List SkuRow → Dict String ℕ → Dict String ℕ
index_rows [] m = m
index_rows (e ∷ es) m = index_rows es (insert e.sku e.link_id m)

-- lookupSKUs: `find` is the query `WHERE sku IN ?` on one batch.
unfoldable pub lookup_skus : (List String → List SkuRow) → List String → ℕ → Dict String ℕ
lookup_skus find skus batch_size = index_rows (flat_map find (batches batch_size skus)) []

pub record NewProduct : Type 0 where
  pub sku : String
  pub type_id : String
  pub attr_set_id : ℕ
  pub row_index : ℕ

-- `np.typeID`: the cell, "simple" if it is blank or missing.
unfoldable pub type_of : Option String → String
type_of none = "simple"
type_of (some v) = v

-- `if v, err := ParseUint(…, 10, 16); err == nil && v > 0 { np.attrSetID = uint16(v) }`, with the
-- option of the import otherwise. A blank cell does not parse.
unfoldable pub attr_set_of : ℕ → Option String → ℕ
attr_set_of default none = default
attr_set_of default (some c) =
    let (v, err) = parse_uint 16 c in
    elim err [ none ↦ if ltb 0 v then v else default | some e ↦ default ]

-- The loop over the rows: the products to create, in order, and the number of rows skipped.
unfoldable pub plan_products :
    ℕ → Dict String ℕ → Dict String ℕ → ℕ → ℕ → List (List String) → List NewProduct × ℕ
plan_products sku_col col_index sku_to_id attribute_set ri [] = ([], 0)
plan_products sku_col col_index sku_to_id attribute_set ri (row ∷ rows) =
    let (to_create, skipped) =
      plan_products sku_col col_index sku_to_id attribute_set (ri + 1) rows in
    let sku = row_sku sku_col row in
    if sku == ""
    then (to_create, skipped + 1)
    else if has sku sku_to_id
    then (to_create, skipped)
    else (
      record {
        sku = sku;
        type_id = type_of (cell "type_id" col_index row);
        attr_set_id = attr_set_of attribute_set (cell "attribute_set_id" col_index row);
        row_index = ri;
      }
          ∷ to_create,
      skipped,
    )

-- `skuToID[toCreate[i].sku] = p.EntityID`
unfoldable pub assign_ids : List NewProduct → List ℕ → Dict String ℕ → Dict String ℕ
assign_ids [] ids m = m
assign_ids (np ∷ nps) [] m = m
assign_ids (np ∷ nps) (id ∷ ids) m = assign_ids nps ids (insert np.sku id m)

-- `firstRowID + uint(j)`, a 64-bit sum, for the products of a batch from index `j` on.
unfoldable pub row_ids : ℕ → ℕ → List NewProduct → List ℕ
row_ids first j [] = []
row_ids first j (np ∷ nps) = (first + j) % two_64 ∷ row_ids first (j + 1) nps

pub data Arg : Type 0 where
  number : ℕ → Arg
  text : String → Arg

-- The two statements of a batch, by their pieces and arguments.
unfoldable pub tuples : String → ℕ → List NewProduct → List String
tuples t j [] = []
tuples t j (np ∷ nps) = (if ltb 0 j then "," ∷ t ∷ [] else t ∷ []) ++ tuples t (j + 1) nps

unfoldable pub product_args : ℕ → ℕ → List NewProduct → List Arg
product_args first j [] = []
product_args first j (np ∷ nps) =
    number ((first + j) % two_64)
    ∷ number np.attr_set_id
    ∷ text np.type_id
    ∷ text np.sku
    ∷ product_args first (j + 1) nps

abbrev pub sequence_head : String
sequence_head = "INSERT INTO sequence_product VALUES "

abbrev pub product_head : String
product_head =
    "INSERT INTO catalog_product_entity (entity_id, attribute_set_id, type_id, sku, created_in, updated_in) VALUES "

module _ {ℓ} {S : Type ℓ} (exec : List String → List Arg → S → S) (last_insert_id : S → ℕ) where
  -- insertProductsRowIDSchema, one batch.
  unfoldable pub insert_batch : List NewProduct → S × Dict String ℕ → S × Dict String ℕ
  insert_batch batch (s, m) =
      let s1 = exec (sequence_head ∷ tuples "(NULL)" 0 batch) [] s in
      let s2 =
        exec (product_head ∷ tuples "(?,?,?,?,1,2147483647)" 0 batch)
          (product_args (last_insert_id s1) 0 batch) s1 in
      (s2, assign_ids batch (row_ids (last_insert_id s2) 0 batch) m)

  unfoldable pub insert_batches : List (List NewProduct) → S × Dict String ℕ → S × Dict String ℕ
  insert_batches [] sm = sm
  insert_batches (b ∷ bs) sm = insert_batches bs (insert_batch b sm)

  unfoldable pub insert_products_row_id_schema :
      List NewProduct → ℕ → S × Dict String ℕ → (S × Dict String ℕ) × ℕ
  insert_products_row_id_schema [] batch_size sm = (sm, 0)
  insert_products_row_id_schema (np ∷ nps) batch_size sm =
      (insert_batches (batches batch_size (np ∷ nps)) sm, length (np ∷ nps))

  -- The ids that `Create` writes back are a parameter: `create` returns the state and one id for each
  -- product, 0 where nothing was inserted.
  module _ (create : List NewProduct → S → S × List ℕ) where
    unfoldable pub insert_planned :
        Bool → ℕ → List NewProduct → S × Dict String ℕ → (S × Dict String ℕ) × ℕ
    insert_planned is_enterprise batch_size [] sm = (sm, 0)
    insert_planned true batch_size (np ∷ nps) sm =
        insert_products_row_id_schema (np ∷ nps) batch_size sm
    insert_planned false batch_size (np ∷ nps) (s, m) =
        let (s', ids) = create (np ∷ nps) s in
        ((s', assign_ids (np ∷ nps) ids m), length (np ∷ nps))

    -- insertNewEntities: the state with the map `skuToID`, then `created` and `skipped`.
    unfoldable pub insert_new_entities :
        Bool
        → ℕ
        → ℕ
        → Dict String ℕ
        → ℕ
        → List (List String)
        → S × Dict String ℕ
        → (S × Dict String ℕ) × ℕ × ℕ
    insert_new_entities is_enterprise batch_size sku_col col_index attribute_set rows (s, m) =
        let (to_create, skipped) = plan_products sku_col col_index m attribute_set 0 rows in
        let (sm, created) = insert_planned is_enterprise batch_size to_create (s, m) in
        (sm, created, skipped)
