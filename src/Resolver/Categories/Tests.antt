-- ===== src/Resolver/Categories/Tests.antt =====
-- An instance of the theorem on MagentoCategories.
use magento_go.Prelude.{◌≡◌, refl, none, some, [], ◌∷◌, ◌++◌, map, nat_eq, arith}
use magento_go.Prelude.Dict.{lookup}
use magento_go.Category.Repo.{index_cats, get_cache_category, found_in}
use magento_go.Category.Repo.Found.{missing_in}
use magento_go.Category.Fixture.{db, table, settled, meta, db-Answers}
use magento_go.Resolver.Uid.{Base64, Lawful}
use magento_go.Resolver.Categories.{category_to_category_tree, magento_categories}
use magento_go.Resolver.Categories.Uids.{uids_of, magento_categories-uids}

abbrev plain : Base64
plain = record { encode = λ s. s; decode = λ s. some s }

plain-Lawful : Lawful plain
plain-Lawful = record { decode_empty = refl; decode-encode = λ s. refl }

magento_categories-uids_example :
    magento_categories plain db (some (uids_of plain plain-Lawful (2 ∷ 9 ∷ []))) none 0 settled ≡ (
      settled,
      map (category_to_category_tree plain) (
          found_in (get_cache_category settled 0) (2 ∷ 9 ∷ [])
          ++ found_in
              (λ id. lookup id (index_cats meta table []))
              (missing_in settled 0 (2 ∷ 9 ∷ []))),
    )
magento_categories-uids_example =
    magento_categories-uids plain plain-Lawful db 0 table settled meta (2 ∷ 9 ∷ []) db-Answers refl
      refl (omega arith, (omega arith, tt))
