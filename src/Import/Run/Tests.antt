-- ===== src/Import/Run/Tests.antt =====
-- The importer on a small file and a database that counts the statements it is sent.
use magento_go.Prelude.{
  ℕ, ◌+◌, ◌≡◌, refl, String, false, none, List, [], ◌∷◌, ◌==◌, inl, inr, string_eq, any,
  if◌then◌else◌,
}
use magento_go.Prelude.Dict.{insert}
use magento_go.Prelude.Int.{pos}
use magento_go.Prelude.Text.{trim_space}
use magento_go.Import.Fixture.{whole}
use mathlib.Core.List.Perm
use magento_go.Import.Jobs.{Job}
use magento_go.Import.Eav.Flush.{eav_tables}
use magento_go.Import.Entity.{NewProduct}
use magento_go.Import.Entity.Create.{count_known}
use magento_go.Import.Run.{
  ImportOptions, read_header, ImportResult, Prepared, Db, Schedule, index_headers, find_sku_column,
  attr_map_of, known_ids, prepare, import_products,
}
use magento_go.Import.Run.Result.{import_products-counts, import_products-untouched}

abbrev ids_from : ℕ → List NewProduct → List ℕ
ids_from n [] = []
ids_from n (np ∷ nps) = n ∷ ids_from (n + 1) nps

abbrev quietly {ℓ} : {A : Type ℓ} → A → ℕ → Job ℕ String
quietly a size s = (s + 1, none)

abbrev db : Db whole ℕ String
db = record {
  attributes = λ s.
      inr (record { attribute_id = 73; attribute_code = "name"; backend_type = "varchar" } ∷ []);
  find =
      λ s batch. if any (λ c. c == "A") batch then record { link_id = 7; sku = "A" } ∷ [] else [];
  exec = λ statement args s. s + 1;
  last_insert_id = λ s. s;
  create = λ nps s. (s + 1, ids_from 100 nps);
  upsert_eav = λ statement args s. (s + 1, none);
  gorm = record {
    varchars = quietly;
    ints = quietly;
    decimals = quietly;
    texts = quietly;
    datetimes = quietly;
    named = λ name e. e;
  };
  upsert_stock = quietly;
  create_gallery = quietly;
  upsert_price = quietly;
  dialect = "mysql";
  is_enterprise = false;
}

abbrev schedule : Schedule ℕ String
schedule = record {
  columns = λ n m. m;
  all_columns = λ n m. Perm.refl m;
  tables = eav_tables;
  all_tables = Perm.refl eav_tables;
  eav_jobs = λ js. js;
  modules = λ js. js;
}

abbrev opts : ImportOptions
opts = record { store_id = 0; batch_size = pos 0; attribute_set = 0; raw_sql = false }

abbrev header : List String
header = " sku" ∷ "name" ∷ "color" ∷ []

abbrev csv : List (List String)
csv = ("A" ∷ "first" ∷ []) ∷ ("B" ∷ "second" ∷ "red" ∷ []) ∷ ("" ∷ "third" ∷ []) ∷ []

abbrev prepared : Prepared
prepared = record {
  headers = "sku" ∷ "name" ∷ "color" ∷ [];
  col_index = ("sku", 0) ∷ ("name", 1) ∷ ("color", 2) ∷ [];
  sku_col = 0;
  attr_map = ("name", record { id = 73; backend_type = "varchar" }) ∷ [];
  rows = csv;
}

header_prepared : prepare whole db (inr header) (inr csv) 0 ≡ inr prepared
unfolding prepare index_headers find_sku_column attr_map_of trim_space insert
header_prepared = refl

import_products-untouched_example :
    (import_products whole db schedule opts (inl "eof") (inr csv) 3).0 ≡ 3
unfolding import_products prepare
import_products-untouched_example =
    import_products-untouched whole db schedule opts (inl "eof") (inr csv) 3 (read_header "eof")
      refl refl

import_products-counts_example :
    let known = count_known (known_ids whole db schedule opts prepared 0) 0 csv in
    (r : ImportResult) × ((import_products whole db schedule opts (inr header) (inr csv) 0).1
      ≡ inr r)
    × (r.total_rows ≡ 3)
    × (r.updated ≡ pos known)
    × (r.created + r.skipped + known ≡ r.total_rows)
import_products-counts_example =
    import_products-counts whole db schedule opts
      (record {
        eav = λ statement args s. refl;
        varchars = λ rows size s. refl;
        ints = λ rows size s. refl;
        decimals = λ rows size s. refl;
        texts = λ rows size s. refl;
        datetimes = λ rows size s. refl;
        stock = λ rows size s. refl;
        gallery = λ rows size s. refl;
        price = λ rows size s. refl;
      })
      (record { quiet = λ js h. h }) (record { quiet = λ js h. h }) (inr header) (inr csv) 0
      prepared header_prepared
