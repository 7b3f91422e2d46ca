-- ===== src/Html/Product/Tree.antt =====
-- How long RenderCategoryTreeCached of html/product.go keeps what it rendered.
use magento_go.Prelude.{
  ℕ, ◌+◌, ◌-◌, ◌≡◌, ◌∙◌, ◌≢◌, ◌≤◌, ◌⊎◌, refl, ap, Bool-cases, inl, inr, true, false, not, ◌&&◌, ltb,
  String, Option, none, some, ◌==◌, string_eq, arith, if◌then◌else◌,
}
use text.Mathlib.TextEquality.{eq_iff}
use magento_go.Html.Product.{TreeHtml, thirty_minutes, keep_html, render_category_tree_cached}

-- The cache holds nothing, or what it holds is thirty minutes old or older.
abbrev pub IsStale : ℕ → TreeHtml → Type 0
IsStale now cached = (cached.html ≡ "") ⊎ (cached.time + 1800000000000 ≤ now)

stale :
    (now : ℕ) (cached : TreeHtml)
    → IsStale now cached
    → (ltb (now - cached.time) thirty_minutes && not (cached.html == "")) ≡ false
stale now cached (inl e) = ground (arith, eq_iff cached.html "", e)
stale now cached (inr old) = ground (arith, old)

kept_or_made :
    (now : ℕ) (made : Option String) (cached : TreeHtml) → (keep_html now made cached).1 ≡ made
kept_or_made now none cached = refl
kept_or_made now (some html) cached = refl

shown_again :
    {A : Type 0} (template : A → Option String) (tree : A) (made now : ℕ) (html : String)
    → html ≢ ""
    → (render_category_tree_cached template tree now (record { html = html; time = made })).1
      ≡ (if ltb now (made + 1800000000000) then some html else template tree)
unfolding render_category_tree_cached
shown_again template tree made now html given =
    let full : (html == "") ≡ false = ground (arith, eq_iff html "", given) in
    elim (Bool-cases (ltb now (made + 1800000000000))) [
      | inl e ↦
          let young : ltb (now - made) thirty_minutes ≡ true = ground (arith, e) in
          rw (e, young, full) refl
      | inr e ↦
          let old : ltb (now - made) thirty_minutes ≡ false = ground (arith, e) in
          rw (e, old) (kept_or_made now (template tree) _)
    ]

-- What is rendered where the cache is stale, if it is not empty, is shown until thirty minutes after the
-- time at which it was rendered, whatever the tree and the template are by then; from then on the
-- template's answer is shown, its failure included.
pub render_category_tree_cached-again :
    {A : Type 0} (template later : A → Option String) (tree tree' : A) (now now' : ℕ)
    (cached : TreeHtml) (html : String)
    → IsStale now cached
    → template tree ≡ some html
    → html ≢ ""
    → ((render_category_tree_cached template tree now cached).1 ≡ some html)
      × ((render_category_tree_cached later tree' now'
            (render_category_tree_cached template tree now cached).0).1
          ≡ (if ltb now' (now + 1800000000000) then some html else later tree'))
unfolding render_category_tree_cached
render_category_tree_cached-again template later tree tree' now now' cached html old made given =
    let first = stale now cached old in
    let c1 : TreeHtml = record { html = html; time = now } in
    let after : (render_category_tree_cached template tree now cached).0 ≡ c1 =
      rw (first, made) refl in
    (
      rw (first, made) refl,
      ap (λ c. (render_category_tree_cached later tree' now' c).1) after
          ∙ shown_again later tree' now now' html given,
    )
