-- ===== src/Import/Eav/Sql.antt =====
-- rawBatchUpsert of service/product/import_eav.go: one INSERT statement for each batch, as the pieces
-- that go to the builder, with the arguments for its placeholders.
pub mod Placeholders
pub mod Executed
use Prim.Native.Char.{code}
use magento_go.Prelude.{
  ℕ, zero, suc, ◌+◌, String, Bool, true, false, Option, none, some, List, [], ◌∷◌, ◌++◌, ◌==◌,
  string_eq, ltb, eqb, if◌then◌else◌,
}
use magento_go.Batch.{batches}
use magento_go.Import.Jobs.{Job}
use magento_go.Import.Eav.{EavRow}

pub data Arg : Type 0 where
  number : ℕ → Arg
  text : String → Arg

-- The loop over the chunk: a comma from the second row on.
unfoldable pub value_tuples : ℕ → List EavRow → List String
value_tuples j [] = []
value_tuples j (r ∷ rs) =
    (if ltb 0 j then "," ∷ "(?,?,?,?)" ∷ [] else "(?,?,?,?)" ∷ []) ++ value_tuples (j + 1) rs

unfoldable pub value_args : List EavRow → List Arg
value_args [] = []
value_args (r ∷ rs) =
    number r.link_id ∷ number r.attribute_id ∷ number r.store_id ∷ text r.value ∷ value_args rs

unfoldable pub conflict_clause : String → String → List String
conflict_clause link_column dialect =
    if dialect == "mysql"
    then " ON DUPLICATE KEY UPDATE value=VALUES(value)" ∷ []
    else " ON CONFLICT(" ∷ link_column
      ∷ ", attribute_id, store_id) DO UPDATE SET value=excluded.value" ∷ []

unfoldable pub upsert_statement : String → String → String → List EavRow → List String
upsert_statement table link_column dialect chunk =
    ("INSERT INTO " ∷ table ∷ " (" ∷ link_column ∷ ", attribute_id, store_id, value) VALUES " ∷ [])
    ++ value_tuples 0 chunk
    ++ conflict_clause link_column dialect

-- `if db.Dialector.Name() == "mysql"`
unfoldable pub detect_dialect : String → String
detect_dialect name = if name == "mysql" then "mysql" else "sqlite"

module _ {ℓ κ} {S : Type ℓ} {E : Type κ} (exec : List String → List Arg → Job S E) where
  -- The batches are executed in order; the first error ends the loop.
  unfoldable pub exec_chunks : (List EavRow → List String) → List (List EavRow) → Job S E
  exec_chunks statement [] s = (s, none)
  exec_chunks statement (chunk ∷ chunks) s =
      let (s', err) = exec (statement chunk) (value_args chunk) s in
      let rest = exec_chunks statement chunks s' in elim err [ none ↦ rest | some e ↦ (s', some e) ]

  unfoldable pub raw_batch_upsert : String → List EavRow → ℕ → String → String → Job S E
  raw_batch_upsert table rows batch_size link_column dialect s =
      exec_chunks (upsert_statement table link_column dialect) (batches batch_size rows) s
