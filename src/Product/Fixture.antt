-- ===== src/Product/Fixture.antt =====
-- Two products, and a database that holds them, for the tests.
use magento_go.Prelude.{ℕ, refl, String, Option, List, [], ◌∷◌}
use magento_go.Prelude.Dict.{Dict}
use magento_go.Prelude.Index.{rows_of}
use magento_go.Prelude.Fallible.{ok}
use magento_go.Product.Flat.{Product, StockItem, IndexPrice, AttributeRow, MediaGallery}
use magento_go.Product.Repo.{Db, State, id_of}
use magento_go.Product.Repo.Exact.{Answers}

abbrev pub stock : StockItem ℕ
stock = record {
  item_id = 1;
  product_id = 7;
  qty = 5;
  min_qty = 0;
  max_sale_qty = 9;
  is_in_stock = 1;
  manage_stock = 1;
  website_id = 0;
}

abbrev pub index_price : IndexPrice ℕ
index_price = record {
  entity_id = 7;
  customer_group_id = 0;
  website_id = 1;
  tax_class_id = 2;
  price = 30;
  final_price = 20;
  min_price = 20;
  max_price = 30;
  tier_price = 20;
}

abbrev pub name_row : AttributeRow String
name_row = record { attribute_id = 73; store_id = 0; entity_id = 7; value = "Bag" }

abbrev pub sku_row : AttributeRow String
sku_row = record { attribute_id = 74; store_id = 0; entity_id = 7; value = "hidden" }

abbrev pub image_row : MediaGallery
image_row = record { value_id = 3; value = "/b.jpg"; media_type = "image"; disabled = 0 }

abbrev pub bag : Product ℕ ℕ
bag = record {
  entity_id = 7;
  sku = "A";
  type_id = "simple";
  created_at = 1;
  updated_at = 2;
  category_ids = 4 ∷ [];
  varchars = name_row ∷ sku_row ∷ [];
  ints = [];
  decimals = [];
  texts = [];
  datetimes = [];
  media_gallery = image_row ∷ [];
  stock_item = stock;
  index_prices = index_price ∷ [];
}

abbrev pub cup : Product ℕ ℕ
cup = record {
  entity_id = 8;
  sku = "B";
  type_id = "simple";
  created_at = 1;
  updated_at = 2;
  category_ids = [];
  varchars = [];
  ints = [];
  decimals = [];
  texts = [];
  datetimes = [];
  media_gallery = [];
  stock_item = stock;
  index_prices = [];
}

abbrev pub table : List (Product ℕ ℕ)
table = bag ∷ cup ∷ []

abbrev pub codes : Dict ℕ String
codes = (73, "name") ∷ (74, "sku") ∷ []

-- The category lists product 9 too, which is not in the table.
abbrev pub db : Db String ℕ ℕ
db = record {
  product_ids = λ limit. ok (7 ∷ 8 ∷ []);
  find_products = λ ids store. ok (rows_of id_of table ids);
  find_plain = λ ids. ok (rows_of id_of table ids);
  category_products = λ category asc. ok (8 ∷ 9 ∷ 7 ∷ []);
  attributes = ok (
      record { attribute_id = 73; attribute_code = "name" }
      ∷ record { attribute_id = 74; attribute_code = "sku" }
      ∷ []);
}

pub db-Answers : (store : ℕ) → Answers db store table
db-Answers store = record { exact = λ ids h. refl }

abbrev pub start : State ℕ ℕ
start = record { code_map = Option.none; flat_cache = [] }
