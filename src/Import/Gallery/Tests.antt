-- ===== src/Import/Gallery/Tests.antt =====
-- Runs of the gallery collector, and its theorems at small inputs.
use magento_go.Prelude.{ℕ, String, ◌≡◌, refl, List, [], ◌∷◌, ◌++◌, map, string_eq}
use magento_go.Prelude.Dict.{Dict, lookup, insert}
use magento_go.Prelude.Text.{trim_space, split}
use magento_go.Import.Row.{row_sku, sku_column, non_blank, cell_at}
use magento_go.Import.Gallery.{
  add_image, add_images, images_of, add_columns, add_row, add_rows, active_cols, collect_gallery,
}
use magento_go.Import.Gallery.Seen.{collect_gallery-append_self}

program : Unit {0}
unfolding lookup insert trim_space split row_sku sku_column non_blank cell_at add_image add_images
    images_of add_columns add_row add_rows active_cols collect_gallery
program = tt

abbrev columns : Dict String ℕ
columns = ("sku", 0) ∷ ("image", 1) ∷ ("media_gallery", 2) ∷ []

abbrev ids : Dict String ℕ
ids = ("A", 7) ∷ []

abbrev csv : List (List String)
csv = ("A" ∷ "a.png" ∷ "a.png| b.png|" ∷ []) ∷ ("X" ∷ "x.png" ∷ "" ∷ []) ∷ []

csv_values : map (λ r. r.value) (collect_gallery csv columns ids) ≡ "a.png" ∷ "b.png" ∷ []
unfolding program
csv_values = refl

collect_gallery-append_self_example :
    collect_gallery (csv ++ csv) columns ids ≡ collect_gallery csv columns ids
collect_gallery-append_self_example = collect_gallery-append_self csv columns ids
