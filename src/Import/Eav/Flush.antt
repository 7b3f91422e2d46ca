-- ===== src/Import/Eav/Flush.antt =====
-- flushEAV of service/product/import_eav.go with its two ways, flushEAVRaw and flushEAVGorm. The
-- goroutines of a flush run one after the other, in an order that the caller of the definitions
-- chooses: `order` is the order of the tables, `finish` that of the jobs.
use magento_go.Prelude.{ℕ, String, Bool, none, some, List, [], ◌∷◌, is_empty, ◌||◌, if◌then◌else◌}
use magento_go.Prelude.Int.{ℤ}
use magento_go.Import.Std.{Std}
use magento_go.Import.Jobs.{Job, run_all}
use magento_go.Import.Eav.{EavValue, EavData, bucket}
use magento_go.Import.Eav.Sql.{Arg, detect_dialect, raw_batch_upsert}

abbrev pub eav_tables : List (String × String)
eav_tables =
    ("varchar", "catalog_product_entity_varchar")
    ∷ ("int", "catalog_product_entity_int")
    ∷ ("decimal", "catalog_product_entity_decimal")
    ∷ ("text", "catalog_product_entity_text")
    ∷ ("datetime", "catalog_product_entity_datetime")
    ∷ []

unfoldable pub link_column_of : Bool → String
link_column_of is_enterprise = if is_enterprise then "row_id" else "entity_id"

module _ {ℓ κ} {S : Type ℓ} {E : Type κ} where
  -- `if len(rows) == 0 { return nil }`, and else one call with all the rows.
  unfoldable pub unless_empty {μ} : {A : Type μ} → (List A → ℕ → Job S E) → List A → ℕ → Job S E
  unless_empty create [] batch_size s = (s, none)
  unless_empty create (r ∷ rs) batch_size s = create (r ∷ rs) batch_size s

  -- `fmt.Errorf("%s: %w", j.name, err)`
  unfoldable pub wrap {μ} : {F : Type μ} → (E → F) → Job S E → Job S F
  wrap f j s = let (s', err) = j s in (s', elim err [ none ↦ none | some e ↦ some (f e) ])

module _ {ℓ κ} (std : Std) {S : Type ℓ} {E : Type κ} (exec : List String → List Arg → Job S E) where
  -- The goroutines of flushEAVRaw: none for an empty bucket.
  unfoldable pub raw_jobs :
      Bool → String → ℕ → EavData std → List (String × String) → List (Job S E)
  raw_jobs is_enterprise dialect batch_size d [] = []
  raw_jobs is_enterprise dialect batch_size d ((bt, table) ∷ order) =
      let rest = raw_jobs is_enterprise dialect batch_size d order in
      if is_empty (bucket std bt d)
      then rest
      else raw_batch_upsert exec table (bucket std bt d) batch_size (link_column_of is_enterprise)
          dialect
        ∷ rest

  unfoldable pub flush_eav_raw : Bool → String → ℕ → List (String × String) → EavData std → Job S E
  flush_eav_raw is_enterprise dialect_name batch_size order d =
      run_all (raw_jobs is_enterprise (detect_dialect dialect_name) batch_size d order)

-- `CreateInBatches` for each of the five row types.
pub record Gorm {ℓ κ} (std : Std) (S : Type ℓ) (E : Type κ) : Type (ℓ ⊔ κ) where
  pub varchars : List (EavValue String) → ℕ → Job S E
  pub ints : List (EavValue ℤ) → ℕ → Job S E
  pub decimals : List (EavValue std.Float) → ℕ → Job S E
  pub texts : List (EavValue String) → ℕ → Job S E
  pub datetimes : List (EavValue std.Time) → ℕ → Job S E
  -- The error with the name of its job.
  pub named : String → E → E

module _ {ℓ κ} (std : Std) {S : Type ℓ} {E : Type κ} (gorm : Gorm std S E) where
  unfoldable pub gorm_jobs : EavData std → ℕ → List (Job S E)
  gorm_jobs d batch_size =
      wrap (gorm.named "varchar") (unless_empty gorm.varchars d.varchar_rows batch_size)
      ∷ wrap (gorm.named "int") (unless_empty gorm.ints d.int_rows batch_size)
      ∷ wrap (gorm.named "decimal") (unless_empty gorm.decimals d.decimal_rows batch_size)
      ∷ wrap (gorm.named "text") (unless_empty gorm.texts d.text_rows batch_size)
      ∷ wrap (gorm.named "datetime") (unless_empty gorm.datetimes d.datetime_rows batch_size)
      ∷ []

  unfoldable pub flush_eav_gorm : (List (Job S E) → List (Job S E)) → EavData std → ℕ → Job S E
  flush_eav_gorm finish d batch_size = run_all (finish (gorm_jobs d batch_size))

  unfoldable pub flush_eav :
      (List String → List Arg → Job S E)
      → Bool
      → Bool
      → String
      → ℕ
      → List (String × String)
      → (List (Job S E) → List (Job S E))
      → EavData std
      → Job S E
  flush_eav exec raw_sql is_enterprise dialect_name batch_size order finish d =
      if raw_sql || is_enterprise
      then flush_eav_raw std exec is_enterprise dialect_name batch_size order d
      else flush_eav_gorm finish d batch_size
