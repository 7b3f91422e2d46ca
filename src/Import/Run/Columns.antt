-- ===== src/Import/Run/Columns.antt =====
-- The columns of the header, as ImportProducts of service/product/import_service.go reads them.
use magento_go.Prelude.{
  ℕ, ◌+◌, ◌≡◌, ◌∙◌, refl, String, Bool, true, false, Option, none, some, List, [], ◌∷◌, ◌==◌, not,
  ◌||◌, ◌&&◌, string_eq, ◌⊎◌, inl, inr, any, map, arith, if◌then◌else◌,
}
use magento_go.Prelude.Dict.{Dict, lookup, insert, has, lookup-insert}
use magento_go.Prelude.Text.{trim_space}
use magento_go.Import.Std.{Std}
use magento_go.Import.Eav.{AttrMeta, static_fields}
use magento_go.Import.Stock.{stock_columns}
use magento_go.Import.Price.{price_columns}
use magento_go.Import.Gallery.{image_cols}
use magento_go.Import.Run.{
  ImportOptions, missing_sku, Db, Schedule, index_headers, find_sku_column, know_all,
  know_attributes, known_columns, prepare, import_products,
}

abbrev pub is_some {ℓ} : {A : Type ℓ} → Option A → Bool
is_some none = false
is_some (some a) = true

is_none : (o : Option ℕ) → is_some o ≡ false → o ≡ none
is_none none h = refl
is_none (some i) h = absurd (ground arith)

find_sku_column_from :
    (i : ℕ) (hs : List String) (found : Option ℕ) (m : Dict String ℕ)
    → found ≡ lookup "sku" m
    → find_sku_column i hs found ≡ lookup "sku" (index_headers i hs m)
unfolding find_sku_column index_headers
find_sku_column_from i [] found m h = h
find_sku_column_from i (c ∷ hs) found m h =
    find_sku_column_from (i + 1) hs _ (insert c i m) (ground (arith, lookup-insert c "sku" i m))

is_some-find_sku_column :
    (i : ℕ) (hs : List String) (found : Option ℕ)
    → is_some (find_sku_column i hs found) ≡ (is_some found || any (λ h. h == "sku") hs)
unfolding find_sku_column
is_some-find_sku_column i [] found = ground arith
is_some-find_sku_column i (c ∷ hs) found =
    ground (arith, is_some-find_sku_column (i + 1) hs (if c == "sku" then some i else found))

-- The column from which the lookup and the creation read the SKU is the one from which the modules
-- read it, also where the header has several columns of that name, and it is found exactly if the header has one.
find_sku_column-index_headers :
    (headers : List String)
    → (find_sku_column 0 headers none ≡ lookup "sku" (index_headers 0 headers []))
      × (is_some (find_sku_column 0 headers none) ≡ any (λ h. h == "sku") headers)
find_sku_column-index_headers headers = (
  find_sku_column_from 0 headers none [] (unfold lookup in refl),
  is_some-find_sku_column 0 headers none,
)

has-know_all :
    (c : String) (cs : List String) (known : Dict String Bool)
    → has c (know_all cs known) ≡ (any (λ x. x == c) cs || has c known)
unfolding know_all
has-know_all c [] known = refl
has-know_all c (x ∷ cs) known =
    ground (arith, lookup-insert x c true known, has-know_all c cs (insert x true known))

-- An attribute that is stored in a table of its type.
abbrev pub is_eav_code : Dict String AttrMeta → String → Bool
is_eav_code attr_map c = any (λ a. a.0 == c && not (a.1.backend_type == "static")) attr_map

has-know_attributes :
    (c : String) (attrs : Dict String AttrMeta) (known : Dict String Bool)
    → has c (know_attributes attrs known) ≡ (is_eav_code attrs c || has c known)
unfolding know_attributes
has-know_attributes c [] known = refl
has-know_attributes c ((code, meta) ∷ attrs) known =
    let next = if meta.backend_type == "static" then known else insert code true known in
    ground (arith, lookup-insert code c true known, has-know_attributes c attrs next)

abbrev pub is_one_of : List String → String → Bool
is_one_of cs c = any (λ x. x == c) cs

-- A column is unknown, and warned of, exactly if it is none of the fixed fields, no attribute with a
-- table, and none of the columns of stock, gallery and price.
has-known_columns :
    (attr_map : Dict String AttrMeta) (c : String)
    → has c (known_columns attr_map) ≡ (
        is_one_of price_columns c
        || (is_one_of image_cols c
            || (is_one_of stock_columns c
                || (is_eav_code attr_map c || is_one_of static_fields c))))
unfolding known_columns
has-known_columns attr_map c =
    let fixed = know_all static_fields [] in
    let attrs = know_attributes attr_map fixed in
    let stock = know_all stock_columns attrs in
    let images = know_all image_cols stock in
    grind (
      arith,
      has-know_all c price_columns images,
      has-know_all c image_cols stock,
      has-know_all c stock_columns attrs,
      has-know_attributes c attr_map fixed,
      has-know_all c static_fields [],
      nothing c,
    )
  where
    nothing :
        (k : String)
        → (is_one_of static_fields k || has {V = Bool} k []) ≡ is_one_of static_fields k
    nothing k = unfold lookup in ground arith

module _ {ℓ κ} (std : Std) {S : Type ℓ} {E : Type κ} (db : Db std S E) where
  -- A file whose header has no `sku` column, white space aside, is refused, whatever its rows and the
  -- database, and nothing is written.
  import_products-missing_sku :
      (schedule : Schedule S E) (opts : ImportOptions) (raw : List String)
      (body : E ⊎ List (List String)) (s : S)
      → any (λ h. h == "sku") (map trim_space raw) ≡ false
      → import_products std db schedule opts (inr raw) body s ≡ (s, inl missing_sku)
  unfolding import_products prepare
  import_products-missing_sku schedule opts raw body s h =
      rw
        (
          is_none _ ((find_sku_column-index_headers (map trim_space raw)).1 ∙ h),
          import_products,
          prepare,
        )
        refl
