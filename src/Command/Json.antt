-- ===== src/Command/Json.antt =====
-- cmd/product_json.go: the command that writes each product as JSON into a table, new products by batches
-- of inserts and known ones by batches of updates. Times and the report are left out, but for the
-- division in it. `marshal` is json.Marshal, `none` where it fails; the statements are a parameter.
pub mod Batches
pub mod Entries
pub mod Written
use magento_go.Prelude.{
  ℕ, zero, suc, ◌+◌, leb, Bool, String, ◌<>◌, Option, none, some, List, [], ◌∷◌, ◌++◌, map, length,
  is_empty, get_elem?, string_eq, if◌then◌else◌,
}
use magento_go.Prelude.Decimal.{format_uint}
use magento_go.Prelude.Dict.{Dict, lookup, insert}
use magento_go.Prelude.Panic.{Run, done, panic}
use magento_go.Batch.{batches}
use magento_go.Product.Value.{Flat}
use magento_go.Product.Repo.{Flats}

-- product.ProductJson; its times are left out.
pub record ProductJson : Type 0 where
  pub id : ℕ
  pub entity_id : ℕ
  pub store_id : ℕ
  pub attributes : String

-- A row of an update: the id with the JSON.
pub record Update : Type 0 where
  pub id : ℕ
  pub attribute_json : String

-- CreateInBatches, and the upsert of one chunk.
pub record Db (S E : Type 0) : Type 0 where
  pub create_in_batches : List ProductJson → ℕ → S → S × Option E
  pub upsert : List Update → S → S × Option E

abbrev pub batch_size : ℕ
batch_size = 100

-- `fmt.Sprintf("%d_%d", entry.EntityID, entry.StoreID)`
abbrev pub entry_key : ℕ → ℕ → String
entry_key entity_id store_id = format_uint entity_id <> "_" <> format_uint store_id

-- `existingEntries[key] = index`, from an index on
unfoldable pub existing_entries : ℕ → List ProductJson → Dict String ℕ → Dict String ℕ
existing_entries index [] m = m
existing_entries index (entry ∷ entries) m =
    existing_entries (suc index) entries (insert (entry_key entry.entity_id entry.store_id) index m)

-- The entry of a product, by its place in the list of entries.
abbrev pub entry_at : List ProductJson → Option ℕ → Option ProductJson
entry_at entries none = none
entry_at entries (some index) = get_elem? entries index

abbrev pub update_of : ProductJson → Update
update_of item = record { id = item.id; attribute_json = item.attributes }

module _ {S E : Type 0} (db : Db S E) where
  -- An error is printed and nothing else.
  unfoldable pub bulk_insert : List ProductJson → S → S
  bulk_insert batch s = (db.create_in_batches batch batch_size s).0

  abbrev pub commit : S → S × Option E → S
  commit before (s, none) = s
  commit before (s, some e) = before

  unfoldable pub update_chunks : List (List ProductJson) → S → S × Option E
  update_chunks [] s = (s, none)
  update_chunks (chunk ∷ chunks) s =
      let (s1, failed) = db.upsert (map update_of chunk) s in
      elim failed [ none ↦ update_chunks chunks s1 | some e ↦ (s1, some e) ]

  -- All chunks in one transaction, which an error rolls back.
  unfoldable pub bulk_update : List ProductJson → S → S
  unfolding update_chunks
  bulk_update batch s = commit s (update_chunks (batches batch_size batch) s)

-- The loop's variables, and the database.
pub record Progress (S : Type 0) : Type 0 where
  pub inserts : List ProductJson
  pub updates : List ProductJson
  pub success : ℕ
  pub db : S

module _ {S E : Type 0} (db : Db S E) where
  abbrev pub add_update : ProductJson → Progress S → Progress S
  add_update item p =
      let longer = p.updates ++ item ∷ [] in
      if leb batch_size (length longer)
      then record {
        inserts = p.inserts;
        updates = [];
        success = p.success + 1;
        db = bulk_update db longer p.db;
      }
      else record { inserts = p.inserts; updates = longer; success = p.success + 1; db = p.db }

  abbrev pub add_insert : ProductJson → Progress S → Progress S
  add_insert item p =
      let longer = p.inserts ++ item ∷ [] in
      if leb batch_size (length longer)
      then record {
        inserts = [];
        updates = p.updates;
        success = p.success + 1;
        db = bulk_insert db longer p.db;
      }
      else record { inserts = longer; updates = p.updates; success = p.success + 1; db = p.db }

  -- The entry with its new JSON, or a new one for store 0.
  abbrev pub add_json : ℕ → Option ProductJson → String → Progress S → Progress S
  add_json id (some entry) json p =
      add_update
        (record {
          id = entry.id;
          entity_id = entry.entity_id;
          store_id = entry.store_id;
          attributes = json;
        })
        p
  add_json id none json p =
      add_insert (record { id = 0; entity_id = id; store_id = 0; attributes = json }) p

  abbrev pub add_product : ℕ → Option ProductJson → Option String → Progress S → Progress S
  add_product id entry none p = p
  add_product id entry (some json) p = add_json id entry json p

  -- What is left in the two batches after the loop.
  abbrev pub flush_updates : Progress S → S
  flush_updates p = if is_empty p.updates then p.db else bulk_update db p.updates p.db

  abbrev pub flush_inserts : Progress S → S → S
  flush_inserts p s = if is_empty p.inserts then s else bulk_insert db p.inserts s

  abbrev pub flush_rest : Progress S → S
  flush_rest p = flush_inserts p (flush_updates p)

-- `totalProcessing/time.Duration(len(flatProducts))`
abbrev pub report : {S F T : Type 0} → Flats F T → S × ℕ → Run (S × ℕ)
report [] r = panic "runtime error: integer divide by zero"
report (f ∷ flats) r = done r

module _ {S E F T : Type 0} (db : Db S E) (marshal : Flat F T → Option String) where
  unfoldable pub process_products : (ℕ → Option ProductJson) → Flats F T → Progress S → Progress S
  process_products entry [] p = p
  process_products entry ((id, flat) ∷ flats) p =
      process_products entry flats (add_product db id (entry id) (marshal flat) p)

  -- The database after the run with the number of products processed.
  unfoldable pub run_index : List ProductJson → Flats F T → S → Run (S × ℕ)
  unfolding process_products
  run_index entries flats s =
      let keys = existing_entries 0 entries [] in
      let p =
        process_products (λ id. entry_at entries (lookup (entry_key id 0) keys)) flats
          (record { inserts = []; updates = []; success = 0; db = s }) in
      report flats (flush_rest db p, p.success)
