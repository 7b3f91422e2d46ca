-- ===== src/Category/Fixture.antt =====
-- Two categories, and databases that hold them or fail, for the tests.
use magento_go.Prelude.{ℕ, refl, true, false, String, none, some, List, [], ◌∷◌}
use magento_go.Prelude.Dict.{Dict}
use magento_go.Prelude.Index.{rows_of}
use magento_go.Prelude.Fallible.{err, ok}
use magento_go.Prelude.Int.{ℤ}
use magento_go.Category.Flat.{Cat, Details, EavAttribute}
use magento_go.Category.Repo.{Db, State}
use magento_go.Category.Repo.Found.{Answers}

abbrev pub details : Details
details = record {
  path = "1/2";
  level = ℤ.pos 1;
  product_count = 0;
  ints = [];
  varchars = record { attribute_id = 41; store_id = 0; value = "Shoes" } ∷ [];
  texts = [];
}

abbrev pub root : Cat
root = record { entity_id = 1; parent_id = 0; value = details }

abbrev pub shoes : Cat
shoes = record { entity_id = 2; parent_id = 1; value = details }

abbrev pub table : List Cat
table = root ∷ shoes ∷ []

abbrev pub name_attribute : EavAttribute
name_attribute = record { attribute_id = 41; attribute_code = "name"; frontend_label = some "Name" }

abbrev pub db : Db String
db = record {
  find_all = λ store. ok table;
  find_ids = λ ids store. ok (rows_of (λ (c : Cat). c.entity_id) table ids);
  attributes = ok (name_attribute ∷ []);
}

abbrev pub broken : Db String
broken = record {
  find_all = λ store. ok table;
  find_ids = λ ids store. err "lost";
  attributes = err "lost";
}

abbrev pub lost : Db String
lost = record {
  find_all = λ store. err "lost";
  find_ids = λ ids store. err "lost";
  attributes = err "lost";
}

pub db-Answers : Answers db 0 table
db-Answers = record { exact = λ ids h. refl }

abbrev pub start : State
start = record { meta_done = false; meta = none; cache = []; trees = [] }

abbrev pub meta : Dict ℕ EavAttribute
meta = (41, name_attribute) ∷ []

abbrev pub settled : State
settled = record { meta_done = true; meta = some meta; cache = []; trees = [] }
