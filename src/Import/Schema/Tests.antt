-- ===== src/Import/Schema/Tests.antt =====
-- The schema detection on the two editions of Magento.
use magento_go.Prelude.{
  ◌≡◌, ◌↔◌, ◌≢◌, refl, String, true, Option, none, some, List, [], ◌∷◌, arith, if◌then◌else◌,
}
use text.Mathlib.TextEquality.{eq_iff}
use magento_go.Import.Schema.{
  initial, staging, detect_schema, check_magento_edition, eav_link_column,
}
use magento_go.Import.Schema.Once.{detect_schema-staging_iff}

abbrev enterprise_columns : Option (List String)
enterprise_columns = some ("value_id" ∷ "row_id" ∷ [])

abbrev mysql : String
mysql = "mysql"

not_sqlite : mysql ≢ "sqlite"
not_sqlite p = ground (arith, eq_iff mysql "sqlite")

detect_schema-staging_iff_example :
    let (s', found) = detect_schema "mysql" enterprise_columns initial in
    ((s'.is_enterprise ≡ true) ↔ (check_magento_edition enterprise_columns ≡ staging))
    × (eav_link_column found ≡ (if s'.is_enterprise then "row_id" else "entity_id"))
    × (detect_schema "sqlite" none s' ≡ (s', found))
detect_schema-staging_iff_example =
    detect_schema-staging_iff initial mysql "sqlite" enterprise_columns none refl not_sqlite
