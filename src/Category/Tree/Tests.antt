-- ===== src/Category/Tree/Tests.antt =====
-- The tree of three categories.
use magento_go.Prelude.{ℕ, ◌≡◌, refl, List, [], ◌∷◌}
use magento_go.Category.Tree.{Category, nil, cons, node, children_of, attach, build}

abbrev root : Category ℕ
root = record { entity_id = 1; parent_id = 0; value = 10 }

abbrev shoes : Category ℕ
shoes = record { entity_id = 2; parent_id = 1; value = 20 }

abbrev hats : Category ℕ
hats = record { entity_id = 3; parent_id = 1; value = 30 }

abbrev cats : List (Category ℕ)
cats = hats ∷ root ∷ shoes ∷ []

tree_runs : build 3 cats 0 ≡ cons (node root (cons (node hats nil) (cons (node shoes nil) nil))) nil
unfolding build attach children_of
tree_runs = refl
