-- ===== src/Command/Json/Written.antt =====
-- What the command of cmd/product_json.go writes.
use magento_go.Prelude.{
  ℕ, ◌+◌, ◌≡◌, ◌∙◌, refl, sym, ap, String, Option, none, some, List, [], ◌∷◌, ◌++◌, map, length,
  is_empty, string_eq, arith, if◌then◌else◌,
}
use mathlib.Core.List.{append-nil}
use magento_go.Prelude.Dict.{lookup}
use magento_go.Product.Value.{Flat}
use magento_go.Product.Repo.{Flats}
use magento_go.Command.Json.Entries.{entry_of, entry_at-entry_of}
use magento_go.Command.Json.Batches.{
  Notes, IsUpdated, bulk_update-IsUpdated, Adds, Adds-trans, add_insert-Adds, add_update-Adds,
}
use magento_go.Command.Json.{
  ProductJson, Update, Db, batch_size, entry_key, existing_entries, entry_at, update_of,
  bulk_insert, bulk_update, Progress, add_product, process_products, flush_updates, flush_rest,
  report, run_index,
}

-- The entries that a product gives: a new one where the table has none, and otherwise the one of the
-- table with its new JSON.
abbrev pub new_entry : ℕ → Option ProductJson → Option String → List ProductJson
new_entry id entry none = []
new_entry id none (some json) =
    record { id = 0; entity_id = id; store_id = 0; attributes = json } ∷ []
new_entry id (some entry) (some json) = []

abbrev pub known_entry : Option ProductJson → Option String → List ProductJson
known_entry entry none = []
known_entry none (some json) = []
known_entry (some entry) (some json) =
    record {
      id = entry.id;
      entity_id = entry.entity_id;
      store_id = entry.store_id;
      attributes = json;
    }
    ∷ []

-- The entry that the code looks up.
abbrev entry_in : List ProductJson → ℕ → Option ProductJson
entry_in entries id = entry_at entries (lookup (entry_key id 0) (existing_entries 0 entries []))

module _ {F T : Type 0} (marshal : Flat F T → Option String) (entry : ℕ → Option ProductJson) where
  abbrev pub new_entries : Flats F T → List ProductJson
  new_entries [] = []
  new_entries ((id, flat) ∷ flats) = new_entry id (entry id) (marshal flat) ++ new_entries flats

  abbrev pub known_entries : Flats F T → List ProductJson
  known_entries [] = []
  known_entries ((id, flat) ∷ flats) = known_entry (entry id) (marshal flat) ++ known_entries flats

module _ {S E : Type 0} (db : Db S E) (inserted : S → List ProductJson) (updated : S → List Update)
    (notes : Notes db inserted updated) where
  add_product-Adds :
      (id : ℕ) (entry : Option ProductJson) (json : Option String) (p : Progress S)
      → Adds db inserted updated notes p
          (new_entry id entry json)
          (known_entry entry json)
          (add_product db id entry json p)
  add_product-Adds id entry none p = (sym (append-nil _), sym (append-nil _), omega arith)
  add_product-Adds id none (some json) p = add_insert-Adds db inserted updated notes _ p
  add_product-Adds id (some entry) (some json) p = add_update-Adds db inserted updated notes _ p

  module _ {F T : Type 0} (marshal : Flat F T → Option String)
      (entry : ℕ → Option ProductJson) where
    process_products-Adds :
        (flats : Flats F T) (p : Progress S)
        → Adds db inserted updated notes p
            (new_entries marshal entry flats)
            (known_entries marshal entry flats)
            (process_products db marshal entry flats p)
    unfolding process_products
    process_products-Adds [] p = (sym (append-nil _), sym (append-nil _), omega arith)
    process_products-Adds ((id, flat) ∷ flats) p =
        Adds-trans db inserted updated notes p _ _ (new_entry id (entry id) (marshal flat))
          (new_entries marshal entry flats) (known_entry (entry id) (marshal flat))
          (known_entries marshal entry flats) (add_product-Adds id (entry id) (marshal flat) p)
          (process_products-Adds flats (add_product db id (entry id) (marshal flat) p))

  flush_updates_lem :
      (rows : List ProductJson) (s : S)
      → IsUpdated db inserted updated notes s
          (map update_of rows)
          (if is_empty rows then s else bulk_update db rows s)
  flush_updates_lem [] s = (sym (append-nil (updated s)), refl)
  flush_updates_lem (r ∷ rows) s = bulk_update-IsUpdated db inserted updated notes (r ∷ rows) s

  flush_inserts_lem :
      (rows : List ProductJson) (s : S)
      → (inserted (if is_empty rows then s else bulk_insert db rows s) ≡ inserted s ++ rows)
        × (updated (if is_empty rows then s else bulk_insert db rows s) ≡ updated s)
  unfolding bulk_insert
  flush_inserts_lem [] s = (sym (append-nil (inserted s)), refl)
  flush_inserts_lem (r ∷ rows) s =
      (notes.insert-inserted (r ∷ rows) batch_size s, notes.insert-updated (r ∷ rows) batch_size s)

  flush_rest_lem :
      (p : Progress S)
      → (inserted (flush_rest db p) ≡ inserted p.db ++ p.inserts)
        × (updated (flush_rest db p) ≡ updated p.db ++ map update_of p.updates)
  flush_rest_lem p =
      let (more, kept) = flush_updates_lem p.updates p.db in
      let (added, same) = flush_inserts_lem p.inserts (flush_updates db p) in
      (added ∙ ap (λ l. l ++ p.inserts) kept, same ∙ more)

  -- Where the statements succeed, each product whose JSON can be made is written once, in the order of
  -- the products: an insert if the table has no entry for it in store 0, and otherwise an update of the
  -- last such entry; the count is that of the products written. Without any product the command panics.
  pub run_index-written :
      {F T : Type 0} (marshal : Flat F T → Option String) (entries : List ProductJson)
      (flats : Flats F T) (s : S)
      → (result : S × ℕ) × (run_index db marshal entries flats s ≡ report flats result)
        × (inserted result.0 ≡ inserted s ++ new_entries marshal (entry_of entries) flats)
        × (updated result.0
            ≡ updated s ++ map update_of (known_entries marshal (entry_of entries) flats))
        × (result.1
            ≡ length (new_entries marshal (entry_of entries) flats)
              + length (known_entries marshal (entry_of entries) flats))
  unfolding run_index
  run_index-written marshal entries flats s =
      let same : (entry_in entries) ≡ (entry_of entries) = λ i id. entry_at-entry_of entries id i in
      let start : Progress S = record { inserts = []; updates = []; success = 0; db = s } in
      let p = process_products db marshal (entry_of entries) flats start in
      let (new, known, count) = process_products-Adds marshal (entry_of entries) flats start in
      let (added, changed) = flush_rest_lem p in
      (
        (flush_rest db p, p.success),
        ap
            (λ f.
              let q = process_products db marshal f flats start in
              report flats (flush_rest db q, q.success))
            same,
        added ∙ new ∙ ap (λ l. l ++ new_entries marshal (entry_of entries) flats) (append-nil _),
        changed
            ∙ known
            ∙ ap (λ l. l ++ map update_of (known_entries marshal (entry_of entries) flats))
                (append-nil _),
        count ∙ omega arith,
      )
