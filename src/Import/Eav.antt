-- ===== src/Import/Eav.antt =====
-- service/product/import_eav.go: the columns that are EAV attributes, collected from the CSV rows.
pub mod Counts
pub mod Valid
pub mod Flush
pub mod Sql
mod Tests
use magento_go.Prelude.{
  ℕ, ◌+◌, String, Bool, true, false, Option, none, some, List, [], ◌∷◌, ◌++◌, ◌==◌, not, ◌||◌,
  string_eq, length, any, if◌then◌else◌,
}
use magento_go.Prelude.Dict.{Dict, lookup, insert, has}
use magento_go.Prelude.Int.{ℤ}
use magento_go.Prelude.Text.{atoi}
use magento_go.Import.Std.{Std}
use magento_go.Import.Row.{row_sku, sku_column, cell}

-- import_service.go: attrMeta
pub record AttrMeta : Type 0 where
  pub id : ℕ
  pub backend_type : String

abbrev pub static_fields : List String
static_fields = "sku" ∷ "type_id" ∷ "attribute_set_id" ∷ []

unfoldable pub is_static : String → Bool
is_static h = any (λ f. f == h) static_fields

pub record EavRow : Type 0 where
  pub link_id : ℕ
  pub attribute_id : ℕ
  pub store_id : ℕ
  pub value : String

-- productEntity.ProductVarchar, ProductInt, ProductDecimal, ProductText and ProductDatetime
pub record EavValue {ℓ} (A : Type ℓ) : Type ℓ where
  pub attribute_id : ℕ
  pub store_id : ℕ
  pub entity_id : ℕ
  pub value : A

pub record EavColMapping : Type 0 where
  pub code : String
  pub attr_id : ℕ
  pub backend_type : String

-- The warnings: the format, then the SKU, the attribute and the value.
pub data Warning : Type 0 where
  invalid_int : String → String → String → Warning
  invalid_decimal : String → String → String → Warning
  invalid_datetime : String → String → String → Warning

pub record EavData (std : Std) : Type 0 where
  pub buckets : Dict String (List EavRow)
  pub warnings : List Warning
  pub varchar_rows : List (EavValue String)
  pub int_rows : List (EavValue ℤ)
  pub decimal_rows : List (EavValue std.Float)
  pub text_rows : List (EavValue String)
  pub datetime_rows : List (EavValue std.Time)

-- The order in which the loop of a row, by its number, ranges over the map of its columns.
abbrev pub RangeOrder : Type 0
RangeOrder = ℕ → Dict String EavColMapping → Dict String EavColMapping

-- The columns of the header that are attributes.
unfoldable pub eav_mappings : Dict String AttrMeta → List String → Dict String EavColMapping
eav_mappings attr_map [] = []
eav_mappings attr_map (h ∷ hs) =
    let rest = eav_mappings attr_map hs in
    if is_static h then rest else elim (lookup h attr_map) [
      | none ↦ rest
      | some meta ↦
          if meta.backend_type == "static"
          then rest
          else insert h (record { code = h; attr_id = meta.id; backend_type = meta.backend_type })
              rest
    ]

abbrev pub datetime_layout : String
datetime_layout = "2006-01-02 15:04:05"

abbrev pub date_layout : String
date_layout = "2006-01-02"

module _ (std : Std) where
  open std use {Float, parse_float, Time, parse_time}

  abbrev pub Data : Type 0
  Data = EavData std

  unfoldable pub empty_data : Data
  empty_data = record {
    buckets =
        ("varchar", []) ∷ ("int", []) ∷ ("decimal", []) ∷ ("text", []) ∷ ("datetime", []) ∷ [];
    warnings = [];
    varchar_rows = [];
    int_rows = [];
    decimal_rows = [];
    text_rows = [];
    datetime_rows = [];
  }

  -- `d.buckets[name]`, nil if it is missing.
  unfoldable pub bucket : String → Data → List EavRow
  bucket name d = elim (lookup name d.buckets) [ none ↦ [] | some l ↦ l ]

  unfoldable pub push_bucket : String → EavRow → Data → Data
  push_bucket name r d = record d { buckets = insert name (bucket name d ++ r ∷ []) d.buckets }

  unfoldable pub counts : Data → Dict String ℕ
  counts d =
      ("varchar", length (bucket "varchar" d) + length d.varchar_rows)
      ∷ ("int", length (bucket "int" d) + length d.int_rows)
      ∷ ("decimal", length (bucket "decimal" d) + length d.decimal_rows)
      ∷ ("text", length (bucket "text" d) + length d.text_rows)
      ∷ ("datetime", length (bucket "datetime" d) + length d.datetime_rows)
      ∷ []

  unfoldable pub push_warning : Warning → Data → Data
  push_warning w d = record d { warnings = d.warnings ++ w ∷ [] }

  -- The time that `time.Parse` gives in the first layout, or else in the second.
  unfoldable pub parse_datetime : String → Option Time
  parse_datetime val = elim (parse_time datetime_layout val) [
    | some t ↦ some t
    | none ↦ parse_time date_layout val
  ]

  module _ (use_raw : Bool) (store : ℕ) (link attr : ℕ) (val : String) where
    abbrev pub raw_row : EavRow
    raw_row = record { link_id = link; attribute_id = attr; store_id = store; value = val }

    abbrev pub typed_row {ℓ} : {A : Type ℓ} → A → EavValue A
    typed_row a = record { attribute_id = attr; store_id = store; entity_id = link; value = a }

    -- One function for each case of the `switch`.
    unfoldable pub push_varchar : Data → Data
    push_varchar d =
        if use_raw
        then push_bucket "varchar" raw_row d
        else record d { varchar_rows = d.varchar_rows ++ typed_row val ∷ [] }

    unfoldable pub push_int : String → String → Data → Data
    push_int sku code d = elim (atoi val) [
      | none ↦ push_warning (invalid_int sku code val) d
      | some iv ↦
          if use_raw
          then push_bucket "int" raw_row d
          else record d { int_rows = d.int_rows ++ typed_row iv ∷ [] }
    ]

    unfoldable pub push_decimal : String → String → Data → Data
    push_decimal sku code d =
        let (dv, parsed) = parse_float val in
        if parsed
        then (if use_raw
            then push_bucket "decimal" raw_row d
            else record d { decimal_rows = d.decimal_rows ++ typed_row dv ∷ [] })
        else push_warning (invalid_decimal sku code val) d

    unfoldable pub push_text : Data → Data
    push_text d =
        if use_raw
        then push_bucket "text" raw_row d
        else record d { text_rows = d.text_rows ++ typed_row val ∷ [] }

    unfoldable pub push_datetime : String → String → Data → Data
    push_datetime sku code d = elim (parse_datetime val) [
      | none ↦ push_warning (invalid_datetime sku code val) d
      | some t ↦
          if use_raw
          then push_bucket "datetime" raw_row d
          else record d { datetime_rows = d.datetime_rows ++ typed_row t ∷ [] }
    ]

  module _ (use_raw : Bool) (store : ℕ) where
    -- The `switch m.BackendType`.
    unfoldable pub push_value : String → ℕ → EavColMapping → String → Data → Data
    push_value sku link m val d =
        if m.backend_type == "varchar"
        then push_varchar use_raw store link m.attr_id val d
        else if m.backend_type == "int"
        then push_int use_raw store link m.attr_id val sku m.code d
        else if m.backend_type == "decimal"
        then push_decimal use_raw store link m.attr_id val sku m.code d
        else if m.backend_type == "text"
        then push_text use_raw store link m.attr_id val d
        else if m.backend_type == "datetime"
        then push_datetime use_raw store link m.attr_id val sku m.code d
        else d

    -- The body of the loop over the mappings.
    unfoldable pub push_cell :
        Dict String ℕ → String → ℕ → List String → String × EavColMapping → Data → Data
    push_cell col_index sku link row (col, m) d = elim (cell col col_index row) [
      | none ↦ d
      | some val ↦ push_value sku link m val d
    ]

    unfoldable pub push_cells :
        Dict String ℕ → String → ℕ → List String → Dict String EavColMapping → Data → Data
    push_cells col_index sku link row [] d = d
    push_cells col_index sku link row (cm ∷ cms) d =
        push_cells col_index sku link row cms (push_cell col_index sku link row cm d)

    -- The body of the loop over the rows.
    unfoldable pub push_row :
        Dict String ℕ → Dict String ℕ → Dict String EavColMapping → List String → Data → Data
    push_row col_index sku_to_id mappings row d =
        let sku = row_sku (sku_column col_index) row in
        if sku == "" then d else elim (lookup sku sku_to_id) [
          | none ↦ d
          | some id ↦ push_cells col_index sku id row mappings d
        ]

    -- From the row with the number `n` on.
    unfoldable pub push_rows :
        RangeOrder
        → Dict String ℕ
        → Dict String ℕ
        → Dict String EavColMapping
        → ℕ
        → List (List String)
        → Data
        → Data
    push_rows order col_index sku_to_id mappings n [] d = d
    push_rows order col_index sku_to_id mappings n (row ∷ rows) d =
        push_rows order col_index sku_to_id mappings (n + 1) rows
          (push_row col_index sku_to_id (order n mappings) row d)

  unfoldable pub collect_eav :
      RangeOrder
      → Bool
      → ℕ
      → List (List String)
      → Dict String ℕ
      → Dict String ℕ
      → Dict String AttrMeta
      → List String
      → Data
  collect_eav order use_raw store rows col_index sku_to_id attr_map headers =
      push_rows use_raw store order col_index sku_to_id (eav_mappings attr_map headers) 0 rows
        empty_data
