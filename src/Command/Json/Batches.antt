-- ===== src/Command/Json/Batches.antt =====
-- What one step of the command of cmd/product_json.go writes, or adds to a batch that is written later.
use magento_go.Prelude.{
  ℕ, ◌+◌, ◌≡◌, ◌∙◌, refl, sym, ap, Bool-cases, inl, inr, Option, none, some, List, [], ◌∷◌, ◌++◌,
  map, length, length-append, leb, string_eq, arith,
}
use mathlib.Core.List.{flatten, append_assoc, append-nil, map-append}
use magento_go.Batch.{batches}
use magento_go.Batch.Cover.{batches-cover}
use magento_go.Command.Json.{
  ProductJson, Update, Db, batch_size, update_of, bulk_insert, commit, update_chunks, bulk_update,
  Progress, add_update, add_insert,
}

-- Statements that succeed, and whose rows can be read back: the rows inserted and the rows updated, in
-- the order of the statements.
pub record Notes {S E : Type 0} (db : Db S E) (inserted : S → List ProductJson)
    (updated : S → List Update) : Type 0 where
  pub insert-inserted :
      (rows : List ProductJson) (n : ℕ) (s : S)
      → inserted (db.create_in_batches rows n s).0 ≡ inserted s ++ rows
  pub insert-updated :
      (rows : List ProductJson) (n : ℕ) (s : S)
      → updated (db.create_in_batches rows n s).0 ≡ updated s
  pub upsert-updated :
      (rows : List Update) (s : S) → updated (db.upsert rows s).0 ≡ updated s ++ rows
  pub upsert-inserted : (rows : List Update) (s : S) → inserted (db.upsert rows s).0 ≡ inserted s
  pub upsert_succeeds : (rows : List Update) (s : S) → (db.upsert rows s).1 ≡ none

module _ {S E : Type 0} (db : Db S E) (inserted : S → List ProductJson) (updated : S → List Update)
    (notes : Notes db inserted updated) where
  -- A state after some updates: the rows are added, the inserted ones stay.
  abbrev pub IsUpdated : S → List Update → S → Type 0
  IsUpdated s rows s1 = (updated s1 ≡ updated s ++ rows) × (inserted s1 ≡ inserted s)

  update_chunks-IsUpdated :
      (chunks : List (List ProductJson)) (s : S)
      → IsUpdated s (map update_of (flatten chunks)) (update_chunks db chunks s).0
        × ((update_chunks db chunks s).1 ≡ none)
  unfolding update_chunks flatten
  update_chunks-IsUpdated [] s = ((sym (append-nil (updated s)), refl), refl)
  update_chunks-IsUpdated (chunk ∷ chunks) s =
      let rows = map update_of chunk in
      let s1 = (db.upsert rows s).0 in
      let ((more, kept), fine) = update_chunks-IsUpdated chunks s1 in
      rw (notes.upsert_succeeds rows s, update_chunks)
        (
          (
            more
                ∙ rw (notes.upsert-updated rows s, append_assoc (updated s))
                    (ap (λ us. updated s ++ us)
                      (sym (map-append update_of chunk (flatten chunks)))),
            kept ∙ notes.upsert-inserted rows s,
          ),
          fine,
        )

  commit-IsUpdated :
      (s : S) (rows : List Update) (r : S × Option E)
      → r.1 ≡ none
      → IsUpdated s rows r.0
      → IsUpdated s rows (commit db s r)
  commit-IsUpdated s rows (s1, none) e h = h
  commit-IsUpdated s rows (s1, some f) e h = absurd (cc)

  pub bulk_update-IsUpdated :
      (rows : List ProductJson) (s : S) → IsUpdated s (map update_of rows) (bulk_update db rows s)
  unfolding bulk_update
  bulk_update-IsUpdated rows s =
      let ((more, kept), fine) = update_chunks-IsUpdated (batches batch_size rows) s in
      let whole = (batches-cover batch_size rows (omega arith)).0 in
      commit-IsUpdated s (map update_of rows) (update_chunks db (batches batch_size rows) s) fine
        (more ∙ ap (λ r. updated s ++ map update_of r) whole, kept)

  -- The rows written so far, with those that wait in a batch.
  abbrev all_inserts : Progress S → List ProductJson
  all_inserts p = inserted p.db ++ p.inserts

  abbrev all_updates : Progress S → List Update
  all_updates p = updated p.db ++ map update_of p.updates

  -- What a step adds to both, and to the count.
  abbrev pub Adds : Progress S → List ProductJson → List ProductJson → Progress S → Type 0
  Adds p new known q =
      (all_inserts q ≡ all_inserts p ++ new)
      × (all_updates q ≡ all_updates p ++ map update_of known)
      × (q.success ≡ p.success + (length new + length known))

  pub Adds-trans :
      (p q r : Progress S) (new1 new2 known1 known2 : List ProductJson)
      → Adds p new1 known1 q
      → Adds q new2 known2 r
      → Adds p (new1 ++ new2) (known1 ++ known2) r
  Adds-trans p q r new1 new2 known1 known2 (i1, u1, n1) (i2, u2, n2) = (
    i2 ∙ ap (λ l. l ++ new2) i1 ∙ append_assoc (all_inserts p) new1 new2,
    u2
        ∙ ap (λ l. l ++ map update_of known2) u1
        ∙ append_assoc (all_updates p) (map update_of known1) (map update_of known2)
        ∙ ap (λ l. all_updates p ++ l) (sym (map-append update_of known1 known2)),
    omega (arith, n1, n2, length-append new1 new2, length-append known1 known2),
  )

  pub add_insert-Adds :
      (item : ProductJson) (p : Progress S) → Adds p (item ∷ []) [] (add_insert db item p)
  unfolding bulk_insert
  add_insert-Adds item p =
      let longer = p.inserts ++ item ∷ [] in
      elim (Bool-cases (leb batch_size (length longer))) [
        | inl e ↦ rw e (
          append-nil _
              ∙ notes.insert-inserted longer batch_size p.db
              ∙ sym (append_assoc (inserted p.db) p.inserts (item ∷ [])),
          ap (λ us. us ++ map update_of p.updates) (notes.insert-updated longer batch_size p.db)
              ∙ sym (append-nil _),
          refl,
        )
        | inr e ↦
            rw e
              (sym (append_assoc (inserted p.db) p.inserts (item ∷ [])), sym (append-nil _), refl)
      ]

  longer_updates :
      (item : ProductJson) (p : Progress S)
      → updated p.db ++ map update_of (p.updates ++ item ∷ [])
        ≡ all_updates p ++ map update_of (item ∷ [])
  longer_updates item p =
      ap (λ r. updated p.db ++ r) (map-append update_of p.updates (item ∷ []))
      ∙ sym (append_assoc (updated p.db) (map update_of p.updates) (update_of item ∷ []))

  pub add_update-Adds :
      (item : ProductJson) (p : Progress S) → Adds p [] (item ∷ []) (add_update db item p)
  add_update-Adds item p =
      let longer = p.updates ++ item ∷ [] in
      elim (Bool-cases (leb batch_size (length longer))) [
        | inl e ↦ rw e (
          ap (λ r. r ++ p.inserts) (bulk_update-IsUpdated longer p.db).1 ∙ sym (append-nil _),
          append-nil _ ∙ (bulk_update-IsUpdated longer p.db).0 ∙ longer_updates item p,
          refl,
        )
        | inr e ↦ rw e (sym (append-nil _), longer_updates item p, refl)
      ]
