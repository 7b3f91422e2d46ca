-- ===== src/Import/Run/Quiet.antt =====
-- The flushes of service/product on a database where no statement fails: no order of the goroutines
-- makes them report an error.
use magento_go.Prelude.{
  ℕ, ◌≡◌, refl, String, Bool, none, List, [], ◌∷◌, ◌||◌, is_empty, arith, All, Bool-cases, inl, inr,
}
use magento_go.Batch.{batches}
use magento_go.Import.Std.{Std}
use magento_go.Import.Jobs.{Job, run_all}
use magento_go.Import.Eav.{EavRow, EavValue, EavData, bucket}
use magento_go.Import.Eav.Sql.{
  Arg, value_args, upsert_statement, detect_dialect, exec_chunks, raw_batch_upsert,
}
use magento_go.Import.Eav.Flush.{
  link_column_of, unless_empty, wrap, raw_jobs, flush_eav_raw, gorm_jobs, flush_eav_gorm, flush_eav,
}
use magento_go.Import.Stock.{StockItem}
use magento_go.Import.Price.{ProductIndexPrice}
use magento_go.Import.Gallery.{ProductMediaGallery}
use magento_go.Import.Run.{ImportOptions, Db, Schedule, flush_all}

module _ {ℓ κ} {S : Type ℓ} {E : Type κ} where
  abbrev pub Quiet : Job S E → Type (ℓ ⊔ κ)
  Quiet j = (s : S) → (j s).1 ≡ none

  run_all-Quiet : (js : List (Job S E)) → All Quiet js → Quiet (run_all js)
  unfolding run_all
  run_all-Quiet [] h s = refl
  run_all-Quiet (j ∷ js) h s = ground (arith, h.0 s, run_all-Quiet js h.1 (j s).0)

  unless_empty-Quiet {μ} :
      {A : Type μ} (create : List A → ℕ → Job S E)
      → ((rows : List A) (size : ℕ) → Quiet (create rows size))
      → (rows : List A) (size : ℕ) → Quiet (unless_empty create rows size)
  unfolding unless_empty
  unless_empty-Quiet create h [] size s = refl
  unless_empty-Quiet create h (r ∷ rs) size s = h (r ∷ rs) size s

  wrap-Quiet {μ} :
      {F : Type μ} (f : E → F) (j : Job S E) → Quiet j → (s : S) → (wrap f j s).1 ≡ none
  unfolding wrap
  wrap-Quiet f j h s = rw (h s) refl

-- The goroutines that finish are those that were started.
pub record Keeps {ℓ κ} {S : Type ℓ} {E : Type κ} (finish : List (Job S E) → List (Job S E))
    : Type (ℓ ⊔ κ) where
  pub quiet : (js : List (Job S E)) → All Quiet js → All Quiet (finish js)

module _ {ℓ κ} (std : Std) {S : Type ℓ} {E : Type κ} where
  module _ (exec : List String → List Arg → Job S E)
      (h : (statement : List String) (args : List Arg) → Quiet (exec statement args)) where
    exec_chunks-Quiet :
        (f : List EavRow → List String) (chunks : List (List EavRow))
        → Quiet (exec_chunks exec f chunks)
    unfolding exec_chunks
    exec_chunks-Quiet f [] s = refl
    exec_chunks-Quiet f (c ∷ cs) s =
        rw (h (f c) (value_args c) s, exec_chunks)
          (exec_chunks-Quiet f cs (exec (f c) (value_args c) s).0)

    raw_jobs-Quiet :
        (is_enterprise : Bool) (dialect : String) (size : ℕ) (d : EavData std)
        (order : List (String × String))
        → All Quiet (raw_jobs std exec is_enterprise dialect size d order)
    unfolding raw_jobs raw_batch_upsert
    raw_jobs-Quiet e dialect size d [] = tt
    raw_jobs-Quiet e dialect size d ((bt, table) ∷ order) =
        elim (Bool-cases (is_empty (bucket std bt d))) [
          | inl b ↦ rw b (raw_jobs-Quiet e dialect size d order)
          | inr b ↦ rw b (
            λ s.
                exec_chunks-Quiet (upsert_statement table (link_column_of e) dialect)
                  (batches size (bucket std bt d)) s,
            raw_jobs-Quiet e dialect size d order,
          )
        ]

-- No statement of a flush fails.
pub record QuietDb {ℓ κ} (std : Std) {S : Type ℓ} {E : Type κ} (db : Db std S E)
    : Type (ℓ ⊔ κ) where
  pub eav : (statement : List String) (args : List Arg) → Quiet (db.upsert_eav statement args)
  pub varchars : (rows : List (EavValue String)) (size : ℕ) → Quiet (db.gorm.varchars rows size)
  pub ints : (rows : List (EavValue _)) (size : ℕ) → Quiet (db.gorm.ints rows size)
  pub decimals : (rows : List (EavValue _)) (size : ℕ) → Quiet (db.gorm.decimals rows size)
  pub texts : (rows : List (EavValue String)) (size : ℕ) → Quiet (db.gorm.texts rows size)
  pub datetimes : (rows : List (EavValue _)) (size : ℕ) → Quiet (db.gorm.datetimes rows size)
  pub stock : (rows : List (StockItem _)) (size : ℕ) → Quiet (db.upsert_stock rows size)
  pub gallery : (rows : List ProductMediaGallery) (size : ℕ) → Quiet (db.create_gallery rows size)
  pub price : (rows : List (ProductIndexPrice _)) (size : ℕ) → Quiet (db.upsert_price rows size)

module _ {ℓ κ} (std : Std) {S : Type ℓ} {E : Type κ} (db : Db std S E) (q : QuietDb std db)
    (schedule : Schedule S E) (eav_keeps : Keeps schedule.eav_jobs)
    (modules_keeps : Keeps schedule.modules) (opts : ImportOptions) where
  gorm_jobs-Quiet : (d : EavData std) (size : ℕ) → All Quiet (gorm_jobs std db.gorm d size)
  unfolding gorm_jobs
  gorm_jobs-Quiet d size = (
    wrap-Quiet _ _ (unless_empty-Quiet _ q.varchars d.varchar_rows size),
    (
      wrap-Quiet _ _ (unless_empty-Quiet _ q.ints d.int_rows size),
      (
        wrap-Quiet _ _ (unless_empty-Quiet _ q.decimals d.decimal_rows size),
        (
          wrap-Quiet _ _ (unless_empty-Quiet _ q.texts d.text_rows size),
          (wrap-Quiet _ _ (unless_empty-Quiet _ q.datetimes d.datetime_rows size), tt),
        ),
      ),
    ),
  )

  flush_eav-Quiet :
      (size : ℕ) (d : EavData std)
      → Quiet (
          flush_eav std db.gorm db.upsert_eav opts.raw_sql db.is_enterprise db.dialect size
            schedule.tables schedule.eav_jobs d)
  unfolding flush_eav flush_eav_raw flush_eav_gorm
  flush_eav-Quiet size d = elim (Bool-cases (opts.raw_sql || db.is_enterprise)) [
    | inl b ↦ rw b (λ s.
        run_all-Quiet _
          (raw_jobs-Quiet std db.upsert_eav q.eav db.is_enterprise (detect_dialect db.dialect) size
            d schedule.tables)
          s)
    | inr b ↦ rw b (λ s. run_all-Quiet _ (eav_keeps.quiet _ (gorm_jobs-Quiet d size)) s)
  ]

  pub flush_all-Quiet :
      (d : EavData std) (stock_rows : List (StockItem std.Float))
      (gallery_rows : List ProductMediaGallery) (price_rows : List (ProductIndexPrice std.Float))
      → Quiet (flush_all std db schedule opts d stock_rows gallery_rows price_rows)
  unfolding flush_all
  flush_all-Quiet d stock_rows gallery_rows price_rows = run_all-Quiet _ (
      modules_keeps.quiet _ (
        flush_eav-Quiet _ d,
        (
          unless_empty-Quiet _ q.stock stock_rows _,
          (
            unless_empty-Quiet _ q.gallery gallery_rows _,
            (unless_empty-Quiet _ q.price price_rows _, tt),
          ),
        ),
      ))
