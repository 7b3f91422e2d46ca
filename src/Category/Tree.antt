-- ===== src/Category/Tree.antt =====
-- model/repository/category/category_repository.go: how BuildCategoryTree builds the tree of all
-- categories and looks up a part of it. The list of categories is the map of FetchAllWithAttributesMap
-- in an order of iteration; `A` stands for what a category holds besides its id and its parent's. Its
-- recursion has no guard: it runs on fuel here.
pub mod Enough
mod Tests
use magento_go.Prelude.{ℕ, zero, suc, List, [], ◌∷◌, ◌==◌, nat_eq, select, if◌then◌else◌}

pub record Category {ℓ} (A : Type ℓ) : Type ℓ where
  pub entity_id : ℕ
  pub parent_id : ℕ
  pub value : A

-- CategoryTreeNode, and a slice of pointers to such nodes. A node stands in one list only.
mutual
  pub data Node {ℓ} (A : Type ℓ) : Type ℓ where
    node : Category A → Nodes A → Node A

  pub data Nodes {ℓ} (A : Type ℓ) : Type ℓ where
    nil : Nodes A
    cons : Node A → Nodes A → Nodes A

module _ {ℓ} {A : Type ℓ} where
  -- `childrenMap[parentID]`
  unfoldable pub children_of : List (Category A) → ℕ → List (Category A)
  children_of cats parent = select (λ (c : Category A). c.parent_id == parent) cats

  -- `for _, node := range nodes { node.Children = build(node.Category.EntityID) }`
  unfoldable pub attach : (ℕ → Nodes A) → List (Category A) → Nodes A
  attach build [] = nil
  attach build (c ∷ cs) = cons (node c (build c.entity_id)) (attach build cs)

  unfoldable pub build : ℕ → List (Category A) → ℕ → Nodes A
  build zero cats parent = nil
  build (suc fuel) cats parent = attach (build fuel cats) (children_of cats parent)

  -- `if sub := findSubtree(node.Children, pid); sub != nil { return sub }`
  abbrev pub or_search : Nodes A → Nodes A → Nodes A
  or_search nil rest = rest
  or_search (cons n ns) rest = cons n ns

  -- findSubtree: nil where no node has the id, or where the node has no children.
  unfoldable pub find_subtree : Nodes A → ℕ → Nodes A
  find_subtree nil pid = nil
  find_subtree (cons (node c children) rest) pid =
      let below = find_subtree children pid in
      let after = find_subtree rest pid in
      if c.entity_id == pid then children else or_search below after

  -- What is returned from the tree of all categories.
  unfoldable pub subtree : Nodes A → ℕ → Nodes A
  subtree tree zero = tree
  subtree tree (suc pid) = find_subtree tree (suc pid)
