-- ===== src/Import/Schema.antt =====
-- service/product/schema.go: which of Magento's two EAV schemas the database has, found once for a
-- process; and what magento.go's checkMagentoEdition logs of it.
pub mod Once
mod Tests
use magento_go.Prelude.{
  String, Bool, true, false, Option, none, some, List, [], ◌∷◌, ◌==◌, string_eq, not, ◌&&◌, any,
  if◌then◌else◌,
}

pub data SchemaType : Type 0 where
  unknown entity_id row_id : SchemaType

-- The method String.
unfoldable pub to_string : SchemaType → String
to_string entity_id = "entity_id"
to_string row_id = "row_id"
to_string unknown = "unknown"

unfoldable pub eav_link_column : SchemaType → String
eav_link_column row_id = "row_id"
eav_link_column s = "entity_id"

abbrev pub has_column : String → List String → Bool
has_column name cols = any (λ c. c == name) cols

-- `hasEntityID` before `hasRowID`.
abbrev pub schema_of : List String → SchemaType
schema_of cols =
    if has_column "entity_id" cols
    then entity_id
    else if has_column "row_id" cols
    then row_id
    else unknown

-- detectSchemaImpl: the dialect's name, and the columns that DESCRIBE lists, `none` for its error.
unfoldable pub detect_schema_impl : String → Option (List String) → SchemaType
detect_schema_impl dialect cols =
    if dialect == "sqlite" then entity_id else elim cols [ none ↦ unknown | some cs ↦ schema_of cs ]

-- `schemaDetectOnce`, `schemaDetectResult` and `productEntity.IsEnterprise`.
pub record State : Type 0 where
  pub detected : Bool
  pub result : SchemaType
  pub is_enterprise : Bool

abbrev pub initial : State
initial = record { detected = false; result = unknown; is_enterprise = false }

abbrev pub is_row_id : SchemaType → Bool
is_row_id row_id = true
is_row_id s = false

unfoldable pub detect_schema : String → Option (List String) → State → State × SchemaType
detect_schema dialect cols s =
    if s.detected
    then (s, s.result)
    else let found = detect_schema_impl dialect cols in
      (record { detected = true; result = found; is_enterprise = is_row_id found }, found)

-- ResetSchemaDetection leaves `IsEnterprise` as it is.
unfoldable pub reset_schema_detection : State → State
reset_schema_detection s = record s { detected = false; result = unknown }

-- What checkMagentoEdition of magento.go logs.
pub data Edition : Type 0 where
  not_detected staging standard unknown_columns : Edition

unfoldable pub check_magento_edition : Option (List String) → Edition
check_magento_edition cols = elim cols [
  | none ↦ not_detected
  | some cs ↦
      if has_column "row_id" cs && not (has_column "entity_id" cs)
      then staging
      else if has_column "entity_id" cs
      then standard
      else unknown_columns
]
