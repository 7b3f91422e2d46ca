-- ===== src/Import/Schema/Once.antt =====
-- The two looks at the schema agree, and the first one of a process stays.
use magento_go.Prelude.{
  ◌≡◌, ◌↔◌, ◌≢◌, String, true, false, Option, List, arith, string_eq, if◌then◌else◌,
}
use text.Mathlib.TextEquality.{eq_iff}
use magento_go.Import.Schema.{
  State, staging, detect_schema_impl, detect_schema, check_magento_edition, eav_link_column,
}

-- A first detection on MySQL turns the enterprise schema on exactly where magento.go reports the
-- staging schema, which is a table with `row_id` and without `entity_id`; the column that the EAV
-- tables are linked by is then `row_id`, and `entity_id` otherwise. A second detection changes nothing and has the same result,
-- whatever the database says then.
pub detect_schema-staging_iff :
    (s : State) (dialect dialect' : String) (cols cols' : Option (List String))
    → s.detected ≡ false
    → dialect ≢ "sqlite"
    → let (s', found) = detect_schema dialect cols s in
      ((s'.is_enterprise ≡ true) ↔ (check_magento_edition cols ≡ staging))
      × (eav_link_column found ≡ (if s'.is_enterprise then "row_id" else "entity_id"))
      × (detect_schema dialect' cols' s' ≡ (s', found))
unfolding detect_schema detect_schema_impl check_magento_edition eav_link_column
detect_schema-staging_iff s dialect dialect' cols cols' d n = (
  ground (arith, eq_iff dialect "sqlite"),
  ground (arith, eq_iff dialect "sqlite"),
  ground (arith, eq_iff dialect "sqlite"),
)
