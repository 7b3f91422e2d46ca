-- ===== src/Import/Gallery.antt =====
-- service/product/import_gallery.go: the image columns of the CSV import.
pub mod Seen
mod Tests
use magento_go.Prelude.{
  ℕ, String, ◌<>◌, Bool, true, false, Option, none, some, List, [], ◌∷◌, ◌++◌, ◌==◌, string_eq,
  get_elem?, select, is_empty, if◌then◌else◌,
}
use magento_go.Prelude.Dict.{Dict, lookup, insert, has}
use magento_go.Prelude.Text.{trim_space, split}
use magento_go.Import.Row.{row_sku, sku_column, cell_at}

-- model/entity/product/product_media_gallery.go, with the fields that the importer writes.
pub record ProductMediaGallery : Type 0 where
  pub attribute_id : ℕ
  pub value : String
  pub media_type : String
  pub disabled : ℕ

-- The map `seen` and `d.rows`.
pub record State : Type 0 where
  pub seen : Dict String Bool
  pub rows : List ProductMediaGallery

abbrev pub image_cols : List String
image_cols = "image" ∷ "small_image" ∷ "thumbnail" ∷ "media_gallery" ∷ []

abbrev pub start : State
start = record { seen = []; rows = [] }

abbrev pub image_key : String → String → String
image_key sku img = sku <> ":" <> img

-- The image as it is stored, and a new state if it is new.
unfoldable pub add_image : String → State → String → State
add_image sku s raw =
    let img = trim_space raw in
    if img == "" then s else if has (image_key sku img) s.seen then s else record {
      seen = insert (image_key sku img) true s.seen;
      rows =
          s.rows
          ++ record { attribute_id = 87; value = img; media_type = "image"; disabled = 0 } ∷ [];
    }

unfoldable pub add_images : String → State → List String → State
add_images sku s [] = s
add_images sku s (img ∷ imgs) = add_images sku (add_image sku s img) imgs

abbrev image_pieces : Option String → List String
image_pieces none = []
image_pieces (some val) = split b'|' val

-- `ci := colIndex[col]; …; images := strings.Split(val, "|")`
unfoldable pub images_of : Dict String ℕ → List String → String → List String
images_of col_index row col = elim (lookup col col_index) [
  | none ↦ image_pieces (cell_at 0 row)
  | some ci ↦ image_pieces (cell_at ci row)
]

unfoldable pub add_columns : String → Dict String ℕ → List String → State → List String → State
add_columns sku col_index row s [] = s
add_columns sku col_index row s (col ∷ cols) =
    add_columns sku col_index row (add_images sku s (images_of col_index row col)) cols

-- The body of the loop over the rows.
unfoldable pub add_row : Dict String ℕ → Dict String ℕ → List String → State → List String → State
add_row col_index sku_to_id active s row =
    let sku = row_sku (sku_column col_index) row in
    if sku == "" then s else if has sku sku_to_id then add_columns sku col_index row s active else s

unfoldable pub add_rows :
    Dict String ℕ → Dict String ℕ → List String → State → List (List String) → State
add_rows col_index sku_to_id active s [] = s
add_rows col_index sku_to_id active s (row ∷ rows) =
    add_rows col_index sku_to_id active (add_row col_index sku_to_id active s row) rows

unfoldable pub active_cols : Dict String ℕ → List String
active_cols col_index = select (λ col. has col col_index) image_cols

unfoldable pub collect_gallery :
    List (List String) → Dict String ℕ → Dict String ℕ → List ProductMediaGallery
collect_gallery rows col_index sku_to_id =
    let active = active_cols col_index in
    if is_empty active then [] else (add_rows col_index sku_to_id active start rows).rows
