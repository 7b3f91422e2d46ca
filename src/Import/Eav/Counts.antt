-- ===== src/Import/Eav/Counts.antt =====
-- The two modes of service/product/import_eav.go, raw SQL and GORM: the counts and the warnings do not
-- depend on the mode.
pub mod Modes
use magento_go.Prelude.{
  ℕ, ◌+◌, ◌≡◌, ◌∙◌, sym, refl, ap, String, Bool, none, some, List, [], ◌∷◌, ◌++◌, arith, length,
  length-append, ◌==◌, string_eq, if◌then◌else◌, Bool-cases, Option-cases, inl, inr,
}
use text.Mathlib.TextEquality.{eq_iff}
use magento_go.Prelude.Dict.{Dict, lookup, lookup-insert}
use magento_go.Prelude.Text.{atoi}
use magento_go.Import.Std.{Std}
use magento_go.Import.Row.{row_sku, sku_column, cell}
use magento_go.Import.Eav.{
  AttrMeta, EavRow, EavColMapping, Warning, invalid_int, invalid_decimal, invalid_datetime, EavData,
  eav_mappings, empty_data, bucket, push_bucket, counts, push_warning, parse_datetime, push_varchar,
  push_int, push_decimal, push_text, push_datetime, push_value, push_cell, push_cells, push_row,
  push_rows, collect_eav,
}

-- What a run reports of the EAV data.
record Report : Type 0 where
  varchar : ℕ
  int : ℕ
  decimal : ℕ
  text : ℕ
  datetime : ℕ
  warnings : List Warning

abbrev warned : Warning → Report → Report
warned w r = record r { warnings = r.warnings ++ w ∷ [] }

counts_of : Report → Dict String ℕ
counts_of r =
    ("varchar", r.varchar)
    ∷ ("int", r.int)
    ∷ ("decimal", r.decimal)
    ∷ ("text", r.text)
    ∷ ("datetime", r.datetime)
    ∷ []

module _ (std : Std) where
  open std use {parse_float}

  report : EavData std → Report
  report d = record {
    varchar = length (bucket std "varchar" d) + length d.varchar_rows;
    int = length (bucket std "int" d) + length d.int_rows;
    decimal = length (bucket std "decimal" d) + length d.decimal_rows;
    text = length (bucket std "text" d) + length d.text_rows;
    datetime = length (bucket std "datetime" d) + length d.datetime_rows;
    warnings = d.warnings;
  }

  pub bucket-push_bucket :
      (name name' : String) (r : EavRow) (d : EavData std)
      → bucket std name' (push_bucket std name r d)
        ≡ (if name == name' then bucket std name d ++ r ∷ [] else bucket std name' d)
  unfolding bucket push_bucket
  bucket-push_bucket name name' r d =
      ground (arith, lookup-insert name name' (bucket std name d ++ r ∷ []) d.buckets)

  -- One more value in the bucket `name`.
  abbrev grown : String → String → ℕ → ℕ
  grown name name' n = if name == name' then n + 1 else n

  length-bucket :
      (name name' : String) (r : EavRow) (d : EavData std)
      → length (bucket std name' (push_bucket std name r d))
        ≡ grown name name' (length (bucket std name' d))
  length-bucket name name' r d = ground (
    arith,
    eq_iff name name',
    bucket-push_bucket name name' r d,
    length-append (bucket std name d) (r ∷ []),
  )

  abbrev int_report : String → String → String → Report → Report
  int_report val sku code r = elim (atoi val) [
    | none ↦ warned (invalid_int sku code val) r
    | some v ↦ record r { int = r.int + 1 }
  ]

  abbrev datetime_report : String → String → String → Report → Report
  datetime_report val sku code r = elim (parse_datetime std val) [
    | none ↦ warned (invalid_datetime sku code val) r
    | some v ↦ record r { datetime = r.datetime + 1 }
  ]

  abbrev decimal_report : String → String → String → Report → Report
  decimal_report val sku code r =
      if (parse_float val).1
      then record r { decimal = r.decimal + 1 }
      else warned (invalid_decimal sku code val) r

  abbrev value_report : String → EavColMapping → String → Report → Report
  value_report sku m val r =
      if m.backend_type == "varchar"
      then record r { varchar = r.varchar + 1 }
      else if m.backend_type == "int"
      then int_report val sku m.code r
      else if m.backend_type == "decimal"
      then decimal_report val sku m.code r
      else if m.backend_type == "text"
      then record r { text = r.text + 1 }
      else if m.backend_type == "datetime"
      then datetime_report val sku m.code r
      else r

  module _ (use_raw : Bool) (store link attr : ℕ) (val : String) where
    report-push_varchar :
        (d : EavData std)
        → report (push_varchar std use_raw store link attr val d)
          ≡ record (report d) { varchar = (report d).varchar + 1 }
    unfolding report push_varchar
    report-push_varchar d = elim (Bool-cases use_raw) [
      | inl e ↦ rw e (unfold push_bucket in simp length-bucket (ground arith))
      | inr e ↦ rw e (unfold bucket in simp length-append (ground arith))
    ]

    report-push_text :
        (d : EavData std)
        → report (push_text std use_raw store link attr val d)
          ≡ record (report d) { text = (report d).text + 1 }
    unfolding report push_text
    report-push_text d = elim (Bool-cases use_raw) [
      | inl e ↦ rw e (unfold push_bucket in simp length-bucket (ground arith))
      | inr e ↦ rw e (unfold bucket in simp length-append (ground arith))
    ]

    report-push_int :
        (sku code : String) (d : EavData std)
        → report (push_int std use_raw store link attr val sku code d)
          ≡ int_report val sku code (report d)
    unfolding report push_int
    report-push_int sku code d = elim (Option-cases (atoi val)) [
      | inl n ↦ rw (n, push_int, int_report) (unfold push_warning bucket in refl)
      | inr (v, s) ↦
          rw (s, push_int, int_report)
            (elim (Bool-cases use_raw) [
              | inl e ↦ rw e (unfold push_bucket in simp length-bucket (ground arith))
              | inr e ↦ rw e (unfold bucket in simp length-append (ground arith))
            ])
    ]

    report-push_datetime :
        (sku code : String) (d : EavData std)
        → report (push_datetime std use_raw store link attr val sku code d)
          ≡ datetime_report val sku code (report d)
    unfolding report push_datetime
    report-push_datetime sku code d = elim (Option-cases (parse_datetime std val)) [
      | inl n ↦ rw (n, push_datetime, datetime_report) (unfold push_warning bucket in refl)
      | inr (v, s) ↦
          rw (s, push_datetime, datetime_report)
            (elim (Bool-cases use_raw) [
              | inl e ↦ rw e (unfold push_bucket in simp length-bucket (ground arith))
              | inr e ↦ rw e (unfold bucket in simp length-append (ground arith))
            ])
    ]

    report-push_decimal :
        (sku code : String) (d : EavData std)
        → report (push_decimal std use_raw store link attr val sku code d)
          ≡ decimal_report val sku code (report d)
    unfolding report push_decimal
    report-push_decimal sku code d = elim (Bool-cases (parse_float val).1) [
      | inr n ↦ rw n (unfold push_warning bucket in refl)
      | inl s ↦ rw s (elim (Bool-cases use_raw) [
        | inl e ↦ rw e (unfold push_bucket in simp length-bucket (ground arith))
        | inr e ↦ rw e (unfold bucket in simp length-append (ground arith))
      ])
    ]
