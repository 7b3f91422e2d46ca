-- ===== src/Category/Tests.antt =====
-- Runs of the category repository, and instances of its theorems.
use magento_go.Prelude.{ℕ, zero, suc, ◌≡◌, refl, true, some, [], ◌∷◌, nat_eq, string_eq}
use magento_go.Prelude.Dict.{lookup}
use magento_go.Prelude.Index.{index_by}
use magento_go.Prelude.Fallible.{err, ok}
use magento_go.Prelude.Panic.{panic}
use magento_go.Category.Flat.{Cat, uint, flatten_category}
use magento_go.Category.Fixture.{table, db, broken, db-Answers, start, meta, settled}
use magento_go.Category.Repo.{
  Cats, State, index_cats, get_cache_category, fetch_all_with_attributes_map,
  get_by_id_with_attributes_and_flat,
}
use magento_go.Category.Repo.Found.{first_found, get_by_id_with_attributes_and_flat-found}
use magento_go.Category.Repo.Stale.{fetch_all_with_attributes_map-without_meta}

get_by_id_with_attributes_and_flat-found_example :
    get_by_id_with_attributes_and_flat db 9 0 settled
    ≡ (settled, first_found (get_cache_category settled 0 9) (lookup 9 (index_cats meta table [])))
get_by_id_with_attributes_and_flat-found_example =
    get_by_id_with_attributes_and_flat-found db 0 table db-Answers settled meta 9 refl refl

-- An unknown category makes the call panic.
unknown_panics :
    get_by_id_with_attributes_and_flat db 9 0 settled
    ≡ (settled, panic "runtime error: index out of range [0] with length 0")
unfolding get_by_id_with_attributes_and_flat lookup index_by
unknown_panics = refl

abbrev loaded : Cats
loaded = index_cats meta table []

abbrev after : State
after = record { meta_done = true; meta = some meta; cache = (0, loaded) ∷ []; trees = [] }

fetch_all_with_attributes_map-without_meta_example :
    ((fetch_all_with_attributes_map broken 0 start).1 ≡ err "lost")
    × ((fetch_all_with_attributes_map db 0 (fetch_all_with_attributes_map broken 0 start).0).1
        ≡ ok (index_cats [] table []))
    × (lookup 0
          (fetch_all_with_attributes_map db 0
            (fetch_all_with_attributes_map broken 0 start).0).0.cache
        ≡ some (index_cats [] table []))
    × ((c : Cat)
        → flatten_category c []
          ≡ ("entity_id", record { value = uint c.entity_id; label = "Entity ID"; store_id = 0 })
            ∷ [])
fetch_all_with_attributes_map-without_meta_example =
    fetch_all_with_attributes_map-without_meta broken db 0 start table table "lost" refl refl
      (unfold lookup in refl) refl refl refl

abbrev rank : ℕ → ℕ
rank zero = 0
rank (suc zero) = 1
rank (suc (suc n)) = 2
