-- ===== src/Import/Gallery/Seen.antt =====
-- What the map `seen` of service/product/import_gallery.go brings about: the nested loops are one loop
-- over all images, in which an image whose key was seen is passed over.
use magento_go.Prelude.{
  ℕ, String, ◌≡◌, ◌≢◌, refl, Bool, true, List, [], ◌∷◌, ◌++◌, map, arith, ◌==◌, string_eq,
  if◌then◌else◌, ◌||◌, All,
}
use text.Mathlib.TextEquality.{eq_iff}
use mathlib.Core.List.{append_assoc}
use magento_go.Prelude.Dict.{Dict, has, lookup-insert, has-insert}
use magento_go.Prelude.Text.{trim_space}
use magento_go.Import.Row.{row_sku, sku_column}
use magento_go.Import.Gallery.{
  State, start, image_key, add_image, add_images, images_of, add_columns, add_row, add_rows,
  active_cols, collect_gallery,
}

-- One loop over pairs of a SKU and an image.
add_all : State → List (String × String) → State
add_all s [] = s
add_all s ((sku, raw) ∷ w) = add_all (add_image sku s raw) w

add_all-append :
    (s : State) (v w : List (String × String)) → add_all s (v ++ w) ≡ add_all (add_all s v) w
unfolding add_all
add_all-append s [] w = refl
add_all-append s ((sku, raw) ∷ v) w = add_all-append (add_image sku s raw) v w

-- The pairs that the loops of a row go through, and those of all rows.
column_work : String → Dict String ℕ → List String → List String → List (String × String)
column_work sku col_index row [] = []
column_work sku col_index row (col ∷ cols) =
    map (λ img. (sku, img)) (images_of col_index row col) ++ column_work sku col_index row cols

row_work : Dict String ℕ → Dict String ℕ → List String → List String → List (String × String)
row_work col_index sku_to_id active row =
    let sku = row_sku (sku_column col_index) row in
    if sku == "" then [] else if has sku sku_to_id then column_work sku col_index row active else []

work : Dict String ℕ → Dict String ℕ → List String → List (List String) → List (String × String)
work col_index sku_to_id active [] = []
work col_index sku_to_id active (row ∷ rows) =
    row_work col_index sku_to_id active row ++ work col_index sku_to_id active rows

add_images-work :
    (sku : String) (s : State) (imgs : List String)
    → add_images sku s imgs ≡ add_all s (map (λ img. (sku, img)) imgs)
unfolding add_images add_all
add_images-work sku s [] = refl
add_images-work sku s (img ∷ imgs) = add_images-work sku (add_image sku s img) imgs

add_columns-work :
    (sku : String) (col_index : Dict String ℕ) (row : List String) (s : State) (cols : List String)
    → add_columns sku col_index row s cols ≡ add_all s (column_work sku col_index row cols)
unfolding add_columns column_work
add_columns-work sku col_index row s [] = unfold add_all in refl
add_columns-work sku col_index row s (col ∷ cols) =
    rw (add_all-append, ← add_images-work sku s (images_of col_index row col))
      (add_columns-work sku col_index row (add_images sku s (images_of col_index row col)) cols)

module _ (col_index sku_to_id : Dict String ℕ) (active : List String) where
  add_row-work :
      (s : State) (row : List String)
      → add_row col_index sku_to_id active s row
        ≡ add_all s (row_work col_index sku_to_id active row)
  unfolding add_row row_work add_all
  add_row-work s row =
      let sku = row_sku (sku_column col_index) row in
      ground (arith, add_columns-work sku col_index row s active)

  add_rows-work :
      (s : State) (rows : List (List String))
      → add_rows col_index sku_to_id active s rows
        ≡ add_all s (work col_index sku_to_id active rows)
  unfolding add_rows work
  add_rows-work s [] = unfold add_all in refl
  add_rows-work s (row ∷ rows) =
      rw (add_all-append, ← add_row-work s row)
        (add_rows-work (add_row col_index sku_to_id active s row) rows)

  work-append :
      (rows rows' : List (List String))
      → work col_index sku_to_id active (rows ++ rows')
        ≡ work col_index sku_to_id active rows ++ work col_index sku_to_id active rows'
  unfolding work
  work-append [] rows' = refl
  work-append (row ∷ rows) rows' = rw (work-append rows rows', append_assoc)

-- The loop passes the image over.
abbrev absorbed : State → String × String → Bool
absorbed s (sku, raw) = trim_space raw == "" || has (image_key sku (trim_space raw)) s.seen

absorbed-add_image :
    (s : State) (p : String × String) → absorbed s p ≡ true → add_image p.0 s p.1 ≡ s
unfolding add_image
absorbed-add_image s (sku, raw) h = ground arith

add_image-absorbed :
    (s : State) (sku raw : String) → absorbed (add_image sku s raw) (sku, raw) ≡ true
unfolding add_image
add_image-absorbed s sku raw =
    ground (arith, has-insert (image_key sku (trim_space raw)) true s.seen)

absorbed_mono :
    (s : State) (sku raw : String) (p : String × String)
    → absorbed s p ≡ true
    → absorbed (add_image sku s raw) p ≡ true
unfolding add_image
absorbed_mono s sku raw (sku', raw') h = ground (
  arith,
  lookup-insert (image_key sku (trim_space raw)) (image_key sku' (trim_space raw')) true s.seen,
)

absorbed-add_all :
    (s : State) (w : List (String × String)) (p : String × String)
    → absorbed s p ≡ true
    → absorbed (add_all s w) p ≡ true
unfolding add_all
absorbed-add_all s [] p h = h
absorbed-add_all s ((sku, raw) ∷ w) p h =
    absorbed-add_all (add_image sku s raw) w p (absorbed_mono s sku raw p h)

add_all-absorbed :
    (s : State) (w : List (String × String)) → All (λ p. absorbed (add_all s w) p ≡ true) w
unfolding add_all
add_all-absorbed s [] = tt
add_all-absorbed s ((sku, raw) ∷ w) =
    let next = add_image sku s raw in
    (absorbed-add_all next w (sku, raw) (add_image-absorbed s sku raw), add_all-absorbed next w)

add_all-of_absorbed :
    (s : State) (w : List (String × String)) → All (λ p. absorbed s p ≡ true) w → add_all s w ≡ s
unfolding add_all
add_all-of_absorbed s [] h = refl
add_all-of_absorbed s ((sku, raw) ∷ w) h =
    rw (absorbed-add_image s (sku, raw) h.0) (add_all-of_absorbed s w h.1)

-- Rows that were imported add nothing a second time: a CSV that repeats all of its rows gives the
-- gallery rows of the CSV.
pub collect_gallery-append_self :
    (rows : List (List String)) (col_index sku_to_id : Dict String ℕ)
    → collect_gallery (rows ++ rows) col_index sku_to_id ≡ collect_gallery rows col_index sku_to_id
unfolding collect_gallery
collect_gallery-append_self rows col_index sku_to_id =
    let active = active_cols col_index in
    let w = work col_index sku_to_id active rows in
    rw (
      add_rows-work col_index sku_to_id active start (rows ++ rows),
      add_rows-work col_index sku_to_id active start rows,
      work-append,
      add_all-append,
      add_all-of_absorbed (add_all start w) w (add_all-absorbed start w),
    )

-- The key joins SKU and image by a colon. Where two pairs have the same key, the second image is
-- dropped, although its SKU is another one.
add_image-key_clash :
    (s : State) (sku sku' raw raw' : String)
    → image_key sku (trim_space raw) ≡ image_key sku' (trim_space raw')
    → trim_space raw ≢ ""
    → add_image sku' (add_image sku s raw) raw' ≡ add_image sku s raw
add_image-key_clash s sku sku' raw raw' same n =
    absorbed-add_image (add_image sku s raw) (sku', raw')
      (ground (
        arith,
        add_image-absorbed s sku raw,
        eq_iff (trim_space raw) "",
        eq_iff (trim_space raw') "",
      ))
