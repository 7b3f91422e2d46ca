-- ===== src/Import/Eav/Counts/Modes.antt =====
-- The rows of a CSV in the two modes of service/product/import_eav.go.
use magento_go.Prelude.{
  ◌+◌, ℕ, ◌≡◌, ◌∙◌, sym, refl, ap, String, Bool, List, [], ◌∷◌, arith, ◌==◌, string_eq, Bool-cases,
  Option-cases, inl, inr,
}
use magento_go.Prelude.Dict.{Dict, lookup}
use magento_go.Import.Std.{Std}
use magento_go.Import.Row.{row_sku, sku_column, cell}
use magento_go.Import.Eav.{
  AttrMeta, EavColMapping, RangeOrder, EavData, eav_mappings, empty_data, counts, push_value,
  push_cell, push_cells, push_row, push_rows, collect_eav,
}
use magento_go.Import.Eav.Counts.{
  report, report-push_varchar, report-push_text, report-push_int, report-push_datetime,
  report-push_decimal, value_report, Report, counts_of,
}

module _ (std : Std) where
  module _ (use_raw : Bool) (store : ℕ) where
    report-push_value :
        (sku : String) (link : ℕ) (m : EavColMapping) (val : String) (d : EavData std)
        → report std (push_value std use_raw store sku link m val d)
          ≡ value_report std sku m val (report std d)
    unfolding push_value
    report-push_value sku link m val d = ground (
      arith,
      report-push_varchar std use_raw store link m.attr_id val d,
      report-push_int std use_raw store link m.attr_id val sku m.code d,
      report-push_decimal std use_raw store link m.attr_id val sku m.code d,
      report-push_text std use_raw store link m.attr_id val d,
      report-push_datetime std use_raw store link m.attr_id val sku m.code d,
    )

  -- In two modes, from data with one report std.
  module _ (a b : Bool) (store : ℕ) (col_index sku_to_id : Dict String ℕ) where
    push_cell_modes :
        (sku : String) (link : ℕ) (row : List String) (cm : String × EavColMapping)
        (d d' : EavData std)
        → report std d ≡ report std d'
        → report std (push_cell std a store col_index sku link row cm d)
          ≡ report std (push_cell std b store col_index sku link row cm d')
    unfolding push_cell
    push_cell_modes sku link row (col, m) d d' h = elim (Option-cases (cell col col_index row)) [
      | inl n ↦ rw (n, push_cell) h
      | inr (v, s) ↦
          rw (s, push_cell)
            (report-push_value a store sku link m v d
              ∙ ap (value_report std sku m v) h
              ∙ sym (report-push_value b store sku link m v d'))
    ]

    push_cells_modes :
        (sku : String) (link : ℕ) (row : List String) (cms : Dict String EavColMapping)
        (d d' : EavData std)
        → report std d ≡ report std d'
        → report std (push_cells std a store col_index sku link row cms d)
          ≡ report std (push_cells std b store col_index sku link row cms d')
    unfolding push_cells
    push_cells_modes sku link row [] d d' h = h
    push_cells_modes sku link row (cm ∷ cms) d d' h =
        push_cells_modes sku link row cms (push_cell std a store col_index sku link row cm d)
          (push_cell std b store col_index sku link row cm d')
          (push_cell_modes sku link row cm d d' h)

    push_row_modes :
        (mappings : Dict String EavColMapping) (row : List String) (d d' : EavData std)
        → report std d ≡ report std d'
        → report std (push_row std a store col_index sku_to_id mappings row d)
          ≡ report std (push_row std b store col_index sku_to_id mappings row d')
    unfolding push_row
    push_row_modes mappings row d d' h =
        let sku = row_sku (sku_column col_index) row in
        elim (Bool-cases (sku == "")) [
          | inl e ↦ rw e h
          | inr e ↦ rw e (elim (Option-cases (lookup sku sku_to_id)) [
            | inl n ↦ rw n h
            | inr (id, s) ↦ rw s (push_cells_modes sku id row mappings d d' h)
          ])
        ]

    push_rows_modes :
        (order : RangeOrder) (mappings : Dict String EavColMapping) (n : ℕ)
        (rows : List (List String)) (d d' : EavData std)
        → report std d ≡ report std d'
        → report std (push_rows std a store order col_index sku_to_id mappings n rows d)
          ≡ report std (push_rows std b store order col_index sku_to_id mappings n rows d')
    unfolding push_rows
    push_rows_modes order mappings n [] d d' h = h
    push_rows_modes order mappings n (row ∷ rows) d d' h =
        push_rows_modes order mappings (n + 1) rows
          (push_row std a store col_index sku_to_id (order n mappings) row d)
          (push_row std b store col_index sku_to_id (order n mappings) row d')
          (push_row_modes (order n mappings) row d d' h)

  counts-report : (d : EavData std) → counts std d ≡ counts_of (report std d)
  unfolding counts counts_of report
  counts-report d = refl

  -- Raw SQL or GORM: the same CSV, its columns ranged over in the same order, gives the same counts by type and the same warnings.
  pub collect_eav_modes :
      (order : RangeOrder) (a b : Bool) (store : ℕ) (rows : List (List String))
      (col_index sku_to_id : Dict String ℕ) (attr_map : Dict String AttrMeta)
      (headers : List String)
      → let run = λ (use_raw : Bool).
        collect_eav std order use_raw store rows col_index sku_to_id attr_map headers in
        (counts std (run a) ≡ counts std (run b)) × ((run a).warnings ≡ (run b).warnings)
  unfolding collect_eav
  collect_eav_modes order a b store rows col_index sku_to_id attr_map headers =
      let same =
        push_rows_modes a b store col_index sku_to_id order (eav_mappings attr_map headers) 0 rows
          (empty_data std) (empty_data std) refl in
      (
        counts-report _ ∙ ap counts_of same ∙ sym (counts-report _),
        unfold report in ap (λ (r : Report). r.warnings) same,
      )
