-- ===== src/Import/Eav/Tests.antt =====
-- The collector and the statements of the EAV import at small inputs.
use magento_go.Prelude.{
  ℕ, ◌≡◌, nat_eq, string_eq, String, Bool, true, false, none, List, [], ◌∷◌, ◌==◌, if◌then◌else◌,
}
use mathlib.Core.List.{reverse}
use magento_go.Prelude.Dict.{Dict}
use magento_go.Import.Fixture.{whole}
use magento_go.Import.Eav.{AttrMeta, RangeOrder, EavRow, counts, collect_eav}
use magento_go.Import.Eav.Counts.Modes.{collect_eav_modes}
use magento_go.Import.Eav.Valid.{IsValid}
use magento_go.Import.Eav.Valid.Rows.{collect_eav-IsValid}
use magento_go.Import.Eav.Sql.Executed.{Values}

abbrev attr_map : Dict String AttrMeta
attr_map =
    ("name", record { id = 73; backend_type = "varchar" })
    ∷ ("weight", record { id = 80; backend_type = "decimal" })
    ∷ []

abbrev headers : List String
headers = "sku" ∷ "name" ∷ "weight" ∷ []

abbrev columns : Dict String ℕ
columns = ("sku", 0) ∷ ("name", 1) ∷ ("weight", 2) ∷ []

abbrev ids : Dict String ℕ
ids = ("A", 7) ∷ []

abbrev csv : List (List String)
csv = ("A" ∷ "first" ∷ "12" ∷ []) ∷ ("A" ∷ "" ∷ "heavy" ∷ []) ∷ []

-- The second row has its columns the other way round.
abbrev order : RangeOrder
order n m = if n == 1 then reverse m else m

collect_eav_modes_example :
    let run =
      λ (use_raw : Bool). collect_eav whole order use_raw 1 csv columns ids attr_map headers in
    (counts whole (run true) ≡ counts whole (run false))
    × ((run true).warnings ≡ (run false).warnings)
collect_eav_modes_example =
    collect_eav_modes whole order true false 1 csv columns ids attr_map headers

collect_eav-IsValid_example :
    IsValid whole ids 1 (collect_eav whole order true 1 csv columns ids attr_map headers)
collect_eav-IsValid_example =
    collect_eav-IsValid whole ids 1 true order csv columns attr_map headers

abbrev rows : List EavRow
rows =
    record { link_id = 7; attribute_id = 73; store_id = 0; value = "first" }
    ∷ record { link_id = 8; attribute_id = 73; store_id = 0; value = "other" }
    ∷ record { link_id = 7; attribute_id = 73; store_id = 0; value = "second" }
    ∷ []

abbrev nothing : Values
nothing l a s = none
