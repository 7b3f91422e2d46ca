-- ===== src/Import/Run.antt =====
-- ImportProducts of service/product/import_service.go: the header, the columns, the run over all
-- modules and its result. The reader of CSV and the database are parameters; the times that the
-- result carries are left out.
pub mod Columns
pub mod Quiet
pub mod Result
mod Tests
use magento_go.Prelude.{
  ℕ, zero, suc, ◌+◌, ◌-◌, String, Bool, true, false, Option, none, some, List, [], ◌∷◌, ◌++◌, ◌==◌,
  not, ◌||◌, string_eq, ◌⊎◌, inl, inr, length, leb, map, select, if◌then◌else◌,
}
use mathlib.Core.List.{Perm}
use magento_go.Prelude.Dict.{Dict, insert, has}
use magento_go.Prelude.Int.{ℤ, pos, negsuc}
use magento_go.Prelude.Text.{trim_space}
use magento_go.Import.Std.{Std}
use magento_go.Import.Row.Collect.{Collected}
use magento_go.Import.Jobs.{Job, run_all}
use magento_go.Import.Entity.{SkuRow, NewProduct, Arg, raw_skus, lookup_skus, insert_new_entities}
use magento_go.Import.Eav.{
  AttrMeta, EavColMapping, RangeOrder, EavData, static_fields, collect_eav, counts,
}
use magento_go.Import.Eav.Sql.{Arg as SqlArg}
use magento_go.Import.Eav.Flush.{Gorm, eav_tables, unless_empty, flush_eav}
use magento_go.Import.Stock.{StockItem, Warning as StockWarning, stock_columns, collect_stock}
use magento_go.Import.Stock.Json.{batch_size_or_default, reply}
use magento_go.Import.Price.{
  ProductIndexPrice, Warning as PriceWarning, price_columns, collect_price,
}
use magento_go.Import.Gallery.{ProductMediaGallery, image_cols, collect_gallery}
use magento_go.Import.Eav.{Warning as EavWarning}

pub record ImportOptions : Type 0 where
  pub store_id : ℕ
  pub batch_size : ℤ
  pub attribute_set : ℕ
  pub raw_sql : Bool

pub data Warning : Type 0 where
  unknown_column : String → Warning
  eav : EavWarning → Warning
  stock : StockWarning → Warning
  price : PriceWarning → Warning

pub record ImportResult : Type 0 where
  pub total_rows : ℕ
  pub created : ℕ
  pub updated : ℤ
  pub skipped : ℕ
  pub warnings : List Warning
  pub eav_counts : Dict String ℕ

-- entity.EavAttribute, with the fields that the importer reads.
pub record EavAttribute : Type 0 where
  pub attribute_id : ℕ
  pub attribute_code : String
  pub backend_type : String

pub data ImportError {ℓ} (E : Type ℓ) : Type ℓ where
  read_header : E → ImportError E
  missing_sku : ImportError E
  load_attributes : E → ImportError E
  read_rows : E → ImportError E
  flush : E → ImportError E

-- `if opts.AttributeSet == 0 { opts.AttributeSet = 4 }`
unfoldable pub attribute_set_or_default : ℕ → ℕ
attribute_set_or_default zero = 4
attribute_set_or_default (suc n) = suc n

-- `colIndex[h] = i`, from the index `i` on.
unfoldable pub index_headers : ℕ → List String → Dict String ℕ → Dict String ℕ
index_headers i [] m = m
index_headers i (h ∷ hs) m = index_headers (i + 1) hs (insert h i m)

-- `if h == "sku" { skuCol = i }`; `none` is -1.
unfoldable pub find_sku_column : ℕ → List String → Option ℕ → Option ℕ
find_sku_column i [] found = found
find_sku_column i (h ∷ hs) found = find_sku_column (i + 1) hs (if h == "sku" then some i else found)

unfoldable pub attr_map_of : List EavAttribute → Dict String AttrMeta → Dict String AttrMeta
attr_map_of [] m = m
attr_map_of (a ∷ attrs) m =
    attr_map_of attrs
      (insert a.attribute_code (record { id = a.attribute_id; backend_type = a.backend_type }) m)

unfoldable pub know_all : List String → Dict String Bool → Dict String Bool
know_all [] known = known
know_all (c ∷ cs) known = know_all cs (insert c true known)

-- `for code, meta := range attrMap { if meta.BackendType != "static" { known[code] = true } }`
unfoldable pub know_attributes : Dict String AttrMeta → Dict String Bool → Dict String Bool
know_attributes [] known = known
know_attributes ((code, meta) ∷ attrs) known =
    know_attributes attrs (if meta.backend_type == "static" then known else insert code true known)

unfoldable pub known_columns : Dict String AttrMeta → Dict String Bool
known_columns attr_map = know_all price_columns (
    know_all image_cols
      (know_all stock_columns (know_attributes attr_map (know_all static_fields []))))

unfoldable pub unknown_columns : Dict String Bool → List String → List String
unknown_columns known headers = select (λ h. not (has h known)) headers

-- `result.TotalRows - result.Skipped - result.Created`: an int
unfoldable pub int_sub : ℕ → ℕ → ℤ
int_sub a b = if leb b a then pos (a - b) else negsuc (b - a - 1)

-- What stands before the first statement that writes.
pub record Prepared : Type 0 where
  pub headers : List String
  pub col_index : Dict String ℕ
  pub sku_col : ℕ
  pub attr_map : Dict String AttrMeta
  pub rows : List (List String)

-- The database, as the importer uses it. The statements of `exec`, `create` and `find` drop their errors in the
-- source.
pub record Db {ℓ κ} (std : Std) (S : Type ℓ) (E : Type κ) : Type (ℓ ⊔ κ) where
  pub attributes : S → E ⊎ List EavAttribute
  pub find : S → List String → List SkuRow
  pub exec : List String → List Arg → S → S
  pub last_insert_id : S → ℕ
  pub create : List NewProduct → S → S × List ℕ
  pub upsert_eav : List String → List SqlArg → Job S E
  pub gorm : Gorm std S E
  pub upsert_stock : List (StockItem std.Float) → ℕ → Job S E
  pub create_gallery : List ProductMediaGallery → ℕ → Job S E
  pub upsert_price : List (ProductIndexPrice std.Float) → ℕ → Job S E
  pub dialect : String
  pub is_enterprise : Bool

-- The orders in which the map of the columns is ranged over for each row and that of the EAV tables once,
-- and those in which the goroutines of a run finish.
pub record Schedule {ℓ κ} (S : Type ℓ) (E : Type κ) : Type (ℓ ⊔ κ) where
  pub columns : RangeOrder
  pub all_columns : (n : ℕ) (m : Dict String EavColMapping) → Perm (columns n m) m
  pub tables : List (String × String)
  pub all_tables : Perm tables eav_tables
  pub eav_jobs : List (Job S E) → List (Job S E)
  pub modules : List (Job S E) → List (Job S E)

infixl 10 ◌>>=◌
abbrev ◌>>=◌ {ℓ κ μ} : {E : Type ℓ} {A : Type κ} {B : Type μ} → E ⊎ A → (A → E ⊎ B) → E ⊎ B
inl e >>= f = inl e
inr a >>= f = f a

-- An error under the message that the importer puts before it.
abbrev pub because {ℓ κ μ} : {E : Type ℓ} {F : Type κ} {A : Type μ} → (E → F) → E ⊎ A → F ⊎ A
because f (inl e) = inl (f e)
because f (inr a) = inr a

abbrev pub sku_or_error {ℓ} : {E : Type ℓ} → Option ℕ → ImportError E ⊎ ℕ
sku_or_error none = inl missing_sku
sku_or_error (some i) = inr i

-- eavData, stockData, galleryData and priceData.
pub record Collections (std : Std) : Type 0 where
  pub eav_data : EavData std
  pub stock_data : Collected StockWarning (StockItem std.Float)
  pub gallery_rows : List ProductMediaGallery
  pub price_data : Collected PriceWarning (ProductIndexPrice std.Float)

unfoldable pub result_of : (std : Std) → Prepared → Collections std → ℕ → ℕ → ImportResult
result_of std p c created skipped = record {
  total_rows = length p.rows;
  created = created;
  updated = int_sub (length p.rows) (skipped + created);
  skipped = skipped;
  warnings =
      map unknown_column (unknown_columns (known_columns p.attr_map) p.headers)
      ++ map eav c.eav_data.warnings
      ++ map stock c.stock_data.warnings
      ++ map price c.price_data.warnings;
  eav_counts =
      counts std c.eav_data
      ++ ("stock", length c.stock_data.rows)
        ∷ ("gallery", length c.gallery_rows)
        ∷ ("price_index", length c.price_data.rows)
        ∷ [];
}

module _ {ℓ κ} (std : Std) {S : Type ℓ} {E : Type κ} (db : Db std S E) where
  open std use {Float}

  unfoldable pub prepare : E ⊎ List String → E ⊎ List (List String) → S → ImportError E ⊎ Prepared
  prepare header body s = do
    raw ← because read_header header
    let headers = map trim_space raw
    let col_index = index_headers 0 headers []
    sku_col ← sku_or_error (find_sku_column 0 headers none)
    attrs ← because load_attributes (db.attributes s)
    rows ← because read_rows body
    inr record {
      headers = headers;
      col_index = col_index;
      sku_col = sku_col;
      attr_map = attr_map_of attrs [];
      rows = rows;
    }

  module _ (schedule : Schedule S E) (opts : ImportOptions) where
    -- The four flushes.
    unfoldable pub flush_all :
        EavData std
        → List (StockItem Float)
        → List ProductMediaGallery
        → List (ProductIndexPrice Float)
        → Job S E
    flush_all eav_data stock_rows gallery_rows price_rows =
        let size = batch_size_or_default opts.batch_size in
        run_all (
          schedule.modules (
            flush_eav std db.gorm db.upsert_eav opts.raw_sql db.is_enterprise db.dialect size
              schedule.tables schedule.eav_jobs eav_data
            ∷ unless_empty db.upsert_stock stock_rows size
            ∷ unless_empty db.create_gallery gallery_rows size
            ∷ unless_empty db.upsert_price price_rows size
            ∷ []))

    abbrev pub known_ids : Prepared → S → Dict String ℕ
    known_ids p s =
        lookup_skus (db.find s) (raw_skus p.sku_col p.rows) (batch_size_or_default opts.batch_size)

    unfoldable pub collect_all : Prepared → Dict String ℕ → Collections std
    collect_all p ids = record {
      eav_data =
          collect_eav std schedule.columns (opts.raw_sql || db.is_enterprise) opts.store_id p.rows
            p.col_index ids p.attr_map p.headers;
      stock_data = collect_stock std p.rows p.col_index ids;
      gallery_rows = collect_gallery p.rows p.col_index ids;
      price_data = collect_price std p.rows p.col_index ids;
    }

    -- The flushes and what is returned after them.
    unfoldable pub finish_import :
        Prepared → Collections std → ℕ → ℕ → S → S × (ImportError E ⊎ ImportResult)
    finish_import p c created skipped s =
        let (s', err) = flush_all c.eav_data c.stock_data.rows c.gallery_rows c.price_data.rows s in
        (s', because flush (reply err (result_of std p c created skipped)))

    -- From the lookup of the SKUs on.
    unfoldable pub import_prepared : Prepared → S → S × (ImportError E ⊎ ImportResult)
    import_prepared p s =
        let ((s1, ids), created, skipped) =
          insert_new_entities db.exec db.last_insert_id db.create db.is_enterprise
            (batch_size_or_default opts.batch_size) p.sku_col p.col_index
            (attribute_set_or_default opts.attribute_set) p.rows (s, known_ids p s) in
        finish_import p (collect_all p ids) created skipped s1

    abbrev pub from_prepared : ImportError E ⊎ Prepared → S → S × (ImportError E ⊎ ImportResult)
    from_prepared (inl e) s = (s, inl e)
    from_prepared (inr p) s = import_prepared p s

    unfoldable pub import_products :
        E ⊎ List String → E ⊎ List (List String) → S → S × (ImportError E ⊎ ImportResult)
    import_products header body s = from_prepared (prepare header body s) s
