-- ===== src/Import/Eav/Sql/Placeholders.antt =====
-- The placeholders and the arguments of the statements that rawBatchUpsert builds.
use Prim.Native.Char.{code}
use magento_go.Prelude.{
  ℕ, ◌+◌, ◌*◌, ◌≤◌, ◌<◌, ◌≡◌, refl, String, List, [], ◌∷◌, ◌++◌, string_eq, eqb, if◌then◌else◌,
  arith, length, All, All-imp,
}
use magento_go.Batch.{batches}
use magento_go.Batch.Cover.{FitsBatch, batches-cover}
use magento_go.Import.Eav.{EavRow}
use magento_go.Import.Eav.Sql.{value_tuples, value_args, conflict_clause, upsert_statement}

-- How often a text holds `?`, and how often the pieces of a statement do.
abbrev pub marks : String → ℕ
marks String.[] = 0
marks (String.◌∷◌ c s) = (if eqb (code c) b'?' then 1 else 0) + marks s

abbrev pub all_marks : List String → ℕ
all_marks [] = 0
all_marks (p ∷ ps) = marks p + all_marks ps

all_marks-append : (ps qs : List String) → all_marks (ps ++ qs) ≡ all_marks ps + all_marks qs
all_marks-append [] qs = omega arith
all_marks-append (p ∷ ps) qs = omega (arith, all_marks-append ps qs)

all_marks-value_tuples : (j : ℕ) (rs : List EavRow) → all_marks (value_tuples j rs) ≡ 4 * length rs
unfolding value_tuples
all_marks-value_tuples j [] = refl
all_marks-value_tuples j (r ∷ rs) = ground (arith, all_marks-value_tuples (j + 1) rs)

pub length-value_args : (rs : List EavRow) → length (value_args rs) ≡ 4 * length rs
unfolding value_args
length-value_args [] = refl
length-value_args (r ∷ rs) = omega (arith, length-value_args rs)

all_marks-conflict_clause :
    (link_column dialect : String)
    → marks link_column ≡ 0
    → all_marks (conflict_clause link_column dialect) ≡ 0
unfolding conflict_clause
all_marks-conflict_clause link_column dialect h = ground arith

pub all_marks-upsert_statement :
    (table link_column dialect : String) (chunk : List EavRow)
    → marks table ≡ 0
    → marks link_column ≡ 0
    → all_marks (upsert_statement table link_column dialect chunk) ≡ 4 * length chunk
unfolding upsert_statement
all_marks-upsert_statement table link_column dialect chunk t l =
    simp all_marks-append (
      omega
        (arith, all_marks-value_tuples 0 chunk, all_marks-conflict_clause link_column dialect l))

-- A statement has as many placeholders as arguments, if the names of table and column hold none, and
-- that is four for each row. So no statement of an import has more than four times the batch size.
upsert_statement-marks :
    (table link_column dialect : String) (batch_size : ℕ) (rows : List EavRow)
    → marks table ≡ 0
    → marks link_column ≡ 0
    → 0 < batch_size
    → All
        (λ chunk.
          (all_marks (upsert_statement table link_column dialect chunk) ≡ length (value_args chunk))
          × (length (value_args chunk) ≡ 4 * length chunk)
          × (length (value_args chunk) ≤ 4 * batch_size))
        (batches batch_size rows)
upsert_statement-marks table link_column dialect batch_size rows t l p =
    All-imp (FitsBatch batch_size) _
      (λ chunk fits.
        let marked = all_marks-upsert_statement table link_column dialect chunk t l in
        let args = length-value_args chunk in (omega arith, args, omega arith))
      (batches batch_size rows) (batches-cover batch_size rows p).1
