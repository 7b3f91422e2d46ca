-- ===== src/Category/Tree/Enough.antt =====
-- The recursion of BuildCategoryTree in model/repository/category/category_repository.go ends, and the parts
-- that are looked up in the tree are the trees that it would build.
use magento_go.Prelude.{
  ℕ, zero, suc, ◌+◌, ◌<◌, ◌≤◌, ◌≡◌, ◌∙◌, sym, refl, ap, ◌⊎◌, inl, inr, Bool, true, false, ◌||◌,
  List, [], ◌∷◌, ◌==◌, nat_eq, Bool-cases, arith, All,
}
use magento_go.Category.Tree.{
  Category, Nodes, node, nil, cons, children_of, attach, build, or_search, find_subtree, subtree,
}

module _ {ℓ} {A : Type ℓ} where
  -- A category stands in the tree.
  abbrev pub holds : ℕ → Nodes A → Bool
  holds pid nil = false
  holds pid (cons (node c children) rest) =
      c.entity_id == pid || (holds pid children || holds pid rest)

  -- A parent is ranked before its children, and no rank exceeds a bound: the level of a category in a
  -- shop is such a rank.
  abbrev pub IsRanked : (ℕ → ℕ) → ℕ → Category A → Type 0
  IsRanked rank bound c = (rank c.parent_id < rank c.entity_id) × (rank c.entity_id ≤ bound)

  abbrev IsBelow : (ℕ → ℕ) → ℕ → ℕ → Category A → Type 0
  IsBelow rank bound p c = (rank p < rank c.entity_id) × (rank c.entity_id ≤ bound)

  module _ (rank : ℕ → ℕ) (bound : ℕ) where
    children_of-IsBelow :
        (cats : List (Category A)) (p : ℕ)
        → All (IsRanked rank bound) cats
        → All (IsBelow rank bound p) (children_of cats p)
    unfolding children_of
    children_of-IsBelow [] p h = tt
    children_of-IsBelow (c ∷ cats) p h =
        let rest = children_of-IsBelow cats p h.1 in
        elim (Bool-cases (c.parent_id == p)) [
          | inl e ↦ rw e (
            let same : c.parent_id ≡ p = ground arith in
                (ground (arith, same, h.0.0, ap rank same), h.0.1),
            rest,
          )
          | inr e ↦ rw e rest
        ]

    attach_same :
        (f g : ℕ → Nodes A) (p : ℕ) (cs : List (Category A))
        → All (IsBelow rank bound p) cs
        → ((q : ℕ) → rank p < rank q → f q ≡ g q)
        → attach f cs ≡ attach g cs
    unfolding attach
    attach_same f g p [] h same = refl
    attach_same f g p (c ∷ cs) h same =
        λ i. cons (node c (same c.entity_id h.0.0 i)) (attach_same f g p cs h.1 same i)

    attach_none :
        (f : ℕ → Nodes A) (p : ℕ) (cs : List (Category A))
        → All (IsBelow rank bound p) cs
        → bound < rank p
        → attach f cs ≡ nil
    unfolding attach
    attach_none f p [] h k = refl
    attach_none f p (c ∷ cs) h k = absurd (omega (arith, h.0.0, h.0.1))

    module _ (cats : List (Category A)) (ranked : All (IsRanked rank bound) cats) where
      -- Where the categories are ranked, the recursion ends: from a parent on, any fuel that exceeds the
      -- ranks left below it builds the same tree, so that a run without a limit builds it too.
      build-enough :
          (fuel fuel' p : ℕ)
          → bound < fuel + rank p
          → bound < fuel' + rank p
          → build fuel cats p ≡ build fuel' cats p
      unfolding build
      build-enough zero zero p h k = refl
      build-enough zero (suc fuel') p h k = sym (
          attach_none (build fuel' cats) p (children_of cats p) (children_of-IsBelow cats p ranked)
            (omega arith))
      build-enough (suc fuel) zero p h k =
          attach_none (build fuel cats) p (children_of cats p) (children_of-IsBelow cats p ranked)
            (omega arith)
      build-enough (suc fuel) (suc fuel') p h k =
          attach_same (build fuel cats) (build fuel' cats) p (children_of cats p)
            (children_of-IsBelow cats p ranked)
            (λ q r. build-enough fuel fuel' q (omega arith) (omega arith))

      -- What a search returns is nil or the tree that the recursion would build there.
      abbrev IsPart : ℕ → Nodes A → Type ℓ
      IsPart pid found = (found ≡ nil) ⊎ (found ≡ build (suc bound) cats pid)

      or_search-IsPart :
          (pid : ℕ) (below after : Nodes A)
          → IsPart pid below
          → IsPart pid after
          → IsPart pid (or_search below after)
      or_search-IsPart pid nil after b a = a
      or_search-IsPart pid (cons n ns) after b a = b

      attach-IsPart :
          (fuel p pid : ℕ) (cs : List (Category A))
          → All (IsBelow rank bound p) cs
          → bound < suc fuel + rank p
          → ((q : ℕ) → rank p < rank q → IsPart pid (find_subtree (build fuel cats q) pid))
          → IsPart pid (find_subtree (attach (build fuel cats) cs) pid)
      unfolding find_subtree attach
      attach-IsPart fuel p pid [] h k below = inl refl
      attach-IsPart fuel p pid (c ∷ cs) h k below =
          let rest = attach-IsPart fuel p pid cs h.1 k below in
          elim (Bool-cases (c.entity_id == pid)) [
            | inl e ↦
                let same : c.entity_id ≡ pid = ground arith in
                rw e (
                  inr (
                    build-enough fuel (suc bound) c.entity_id (omega (arith, h.0.0)) (omega arith)
                    ∙ ap (λ q. build (suc bound) cats q) same))
            | inr e ↦ rw e (or_search-IsPart pid _ _ (below c.entity_id h.0.0) rest)
          ]

      find_subtree-IsPart :
          (fuel p pid : ℕ)
          → bound < fuel + rank p
          → IsPart pid (find_subtree (build fuel cats p) pid)
      unfolding build find_subtree
      find_subtree-IsPart zero p pid h = inl refl
      find_subtree-IsPart (suc fuel) p pid h =
          attach-IsPart fuel p pid (children_of cats p) (children_of-IsBelow cats p ranked) h
            (λ q r. find_subtree-IsPart fuel q pid (omega arith))

      exact-or_search :
          (pid : ℕ) (below after : Nodes A) (hb ha : Bool)
          → IsPart pid below
          → IsPart pid after
          → (hb ≡ true → below ≡ build (suc bound) cats pid)
          → (ha ≡ true → after ≡ build (suc bound) cats pid)
          → (hb || ha) ≡ true
          → or_search below after ≡ build (suc bound) cats pid
      exact-or_search pid nil after false ha b a p q h = q h
      exact-or_search pid nil after true ha b (inl none_after) p q h = none_after ∙ p refl
      exact-or_search pid nil after true ha b (inr part) p q h = part
      exact-or_search pid (cons n ns) after hb ha (inl e) a p q h = absurd (ground (arith, e))
      exact-or_search pid (cons n ns) after hb ha (inr part) a p q h = part

      exact-attach :
          (fuel p pid : ℕ) (cs : List (Category A))
          → All (IsBelow rank bound p) cs
          → bound < suc fuel + rank p
          → ((q : ℕ)
              → rank p < rank q
              → holds pid (build fuel cats q) ≡ true
              → find_subtree (build fuel cats q) pid ≡ build (suc bound) cats pid)
          → holds pid (attach (build fuel cats) cs) ≡ true
          → find_subtree (attach (build fuel cats) cs) pid ≡ build (suc bound) cats pid
      unfolding find_subtree attach
      exact-attach fuel p pid [] h k below t = absurd (ground (arith, t))
      exact-attach fuel p pid (c ∷ cs) h k below t =
          let rest = exact-attach fuel p pid cs h.1 k below in
          elim (Bool-cases (c.entity_id == pid)) [
            | inl e ↦
                let same : c.entity_id ≡ pid = ground arith in
                rw e (
                  build-enough fuel (suc bound) c.entity_id (omega (arith, h.0.0)) (omega arith)
                  ∙ ap (λ q. build (suc bound) cats q) same)
            | inr e ↦ rw e (
                exact-or_search pid _ _ (holds pid (build fuel cats c.entity_id))
                  (holds pid (attach (build fuel cats) cs))
                  (find_subtree-IsPart fuel c.entity_id pid (omega (arith, h.0.0)))
                  (attach-IsPart fuel p pid cs h.1 k
                    (λ q r. find_subtree-IsPart fuel q pid (omega arith)))
                  (below c.entity_id h.0.0) rest
                  (sym (
                      ap
                        (λ b.
                          b
                          || (holds pid (build fuel cats c.entity_id)
                              || holds pid (attach (build fuel cats) cs)))
                        e)
                    ∙ t))
          ]

      find_subtree_exact :
          (fuel p pid : ℕ)
          → bound < fuel + rank p
          → holds pid (build fuel cats p) ≡ true
          → find_subtree (build fuel cats p) pid ≡ build (suc bound) cats pid
      unfolding build
      find_subtree_exact zero p pid h t = absurd (ground (arith, t))
      find_subtree_exact (suc fuel) p pid h t =
          exact-attach fuel p pid (children_of cats p) (children_of-IsBelow cats p ranked) h
            (λ q r. find_subtree_exact fuel q pid (omega arith)) t

      -- Where the categories are ranked, what is returned for a category that stands in the tree of all
      -- is the tree that the recursion would build for it, and for 0 it is the tree of all.
      pub subtree-build :
          (fuel pid : ℕ)
          → bound < fuel
          → pid ≡ 0 ⊎ holds pid (build fuel cats 0) ≡ true
          → subtree (build fuel cats 0) pid ≡ build (suc bound) cats pid
      unfolding subtree
      subtree-build fuel zero h t = build-enough fuel (suc bound) 0 (omega arith) (omega arith)
      subtree-build fuel (suc pid) h (inl e) = absurd (omega (arith, e))
      subtree-build fuel (suc pid) h (inr t) = find_subtree_exact fuel 0 (suc pid) (omega arith) t
