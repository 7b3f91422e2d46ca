-- ===== src/Import/Eav/Valid/Rows.antt =====
-- The rows of a CSV keep what service/product/import_eav.go has buffered valid.
use magento_go.Prelude.{
  ◌+◌, ℕ, String, Bool, List, [], ◌∷◌, ◌==◌, string_eq, Bool-cases, Option-cases, inl, inr,
}
use magento_go.Prelude.Dict.{Dict, lookup}
use magento_go.Import.Std.{Std}
use magento_go.Import.Row.{row_sku, sku_column, cell}
use magento_go.Import.Eav.{
  AttrMeta, EavColMapping, RangeOrder, EavData, eav_mappings, empty_data, push_value, push_cell,
  push_cells, push_row, push_rows, collect_eav,
}
use magento_go.Import.Eav.Valid.{
  IsValid-if, push_varchar-IsValid, push_text-IsValid, push_int-IsValid, push_datetime-IsValid,
  push_decimal-IsValid, empty-IsValid, IsValid, IsKnown,
}

module _ (std : Std) (sku_to_id : Dict String ℕ) (store : ℕ) where
  module _ (use_raw : Bool) where
    push_value-IsValid :
        (sku : String) (link : ℕ) (m : EavColMapping) (val : String) (d : EavData std)
        → IsKnown std sku_to_id store link
        → IsValid std sku_to_id store d
        → IsValid std sku_to_id store (push_value std use_raw store sku link m val d)
    unfolding push_value
    push_value-IsValid sku link m val d known v =
        IsValid-if std sku_to_id store (m.backend_type == "varchar") _ _
          (push_varchar-IsValid std sku_to_id store use_raw link m.attr_id val known d v)
          (IsValid-if std sku_to_id store (m.backend_type == "int") _ _
            (push_int-IsValid std sku_to_id store use_raw link m.attr_id val known sku m.code d v)
            (IsValid-if std sku_to_id store (m.backend_type == "decimal") _ _
              (push_decimal-IsValid std sku_to_id store use_raw link m.attr_id val known sku m.code
                d v)
              (IsValid-if std sku_to_id store (m.backend_type == "text") _ _
                (push_text-IsValid std sku_to_id store use_raw link m.attr_id val known d v)
                (IsValid-if std sku_to_id store (m.backend_type == "datetime") _ _
                  (push_datetime-IsValid std sku_to_id store use_raw link m.attr_id val known sku
                    m.code d v)
                  v))))

    module _ (col_index : Dict String ℕ) where
      push_cell-IsValid :
          (sku : String) (link : ℕ) (row : List String) (cm : String × EavColMapping)
          (d : EavData std)
          → IsKnown std sku_to_id store link
          → IsValid std sku_to_id store d
          → IsValid std sku_to_id store (push_cell std use_raw store col_index sku link row cm d)
      unfolding push_cell
      push_cell-IsValid sku link row (col, m) d known v =
          elim (Option-cases (cell col col_index row)) [
            | inl n ↦ rw (n, push_cell) v
            | inr (val, s) ↦ rw (s, push_cell) (push_value-IsValid sku link m val d known v)
          ]

      push_cells-IsValid :
          (sku : String) (link : ℕ) (row : List String) (cms : Dict String EavColMapping)
          (d : EavData std)
          → IsKnown std sku_to_id store link
          → IsValid std sku_to_id store d
          → IsValid std sku_to_id store (push_cells std use_raw store col_index sku link row cms d)
      unfolding push_cells
      push_cells-IsValid sku link row [] d known v = v
      push_cells-IsValid sku link row (cm ∷ cms) d known v =
          push_cells-IsValid sku link row cms
            (push_cell std use_raw store col_index sku link row cm d) known
            (push_cell-IsValid sku link row cm d known v)

      push_row-IsValid :
          (mappings : Dict String EavColMapping) (row : List String) (d : EavData std)
          → IsValid std sku_to_id store d
          → IsValid std sku_to_id store
              (push_row std use_raw store col_index sku_to_id mappings row d)
      unfolding push_row
      push_row-IsValid mappings row d v =
          let sku = row_sku (sku_column col_index) row in
          elim (Bool-cases (sku == "")) [
            | inl e ↦ rw e v
            | inr e ↦ rw e (elim (Option-cases (lookup sku sku_to_id)) [
              | inl n ↦ rw (n, push_row) v
              | inr (id, s) ↦ rw (s, push_row) (push_cells-IsValid sku id row mappings d (sku, s) v)
            ])
          ]

      push_rows-IsValid :
          (order : RangeOrder) (mappings : Dict String EavColMapping) (n : ℕ)
          (rows : List (List String)) (d : EavData std)
          → IsValid std sku_to_id store d
          → IsValid std sku_to_id store
              (push_rows std use_raw store order col_index sku_to_id mappings n rows d)
      unfolding push_rows
      push_rows-IsValid order mappings n [] d v = v
      push_rows-IsValid order mappings n (row ∷ rows) d v =
          push_rows-IsValid order mappings (n + 1) rows
            (push_row std use_raw store col_index sku_to_id (order n mappings) row d)
            (push_row-IsValid (order n mappings) row d v)

    -- Whatever the CSV, the mode and the order of the columns, what is collected is valid: every value belongs to a known
    -- product and to the store of the import, and every text that goes to raw SQL in the bucket of
    -- integers, decimals or times was accepted by the parser of that type.
    pub collect_eav-IsValid :
        (order : RangeOrder) (rows : List (List String)) (col_index : Dict String ℕ)
        (attr_map : Dict String AttrMeta) (headers : List String)
        → IsValid std sku_to_id store
            (collect_eav std order use_raw store rows col_index sku_to_id attr_map headers)
    unfolding collect_eav
    collect_eav-IsValid order rows col_index attr_map headers =
        push_rows-IsValid col_index order (eav_mappings attr_map headers) 0 rows (empty_data std)
          (empty-IsValid std sku_to_id store)
