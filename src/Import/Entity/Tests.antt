-- ===== src/Import/Entity/Tests.antt =====
-- Lookup and creation at a database with one product.
use magento_go.Prelude.{
  ℕ, ◌+◌, ◌≡◌, ◌≢◌, ◌∙◌, refl, ap, any, String, ◌<>◌, Bool, Bool-cases, inl, inr, true, false, ◌||◌,
  none, List, [], ◌∷◌, ◌==◌, string_eq, length, All, arith, if◌then◌else◌,
}
use text.Mathlib.TextEquality.{eq_iff}
use magento_go.Prelude.Dict.{asked, Dict, lookup, insert, has}
use magento_go.Import.Row.{row_sku}
use magento_go.Import.Entity.{
  SkuRow, NewProduct, Arg, raw_skus, index_rows, lookup_skus, plan_products, insert_new_entities,
}
use magento_go.Import.Entity.Lookup.{Answers, lookup_skus-exact}
use magento_go.Import.Entity.Create.{Compares, count_planned, count_named, plan_products-padded}
use magento_go.Import.Entity.Assign.{insert_new_entities-assigned}

abbrev find : List String → List SkuRow
find batch = if asked "A" batch then record { link_id = 7; sku = "A" } ∷ [] else []

abbrev table : Dict String ℕ
table = ("A", 7) ∷ []

find-Answers : Answers find table
unfolding index_rows lookup insert
find-Answers = record { exact = λ batch sku. ground (arith, eq_iff "A" sku) }

lookup_skus-exact_example :
    lookup "A" (lookup_skus find ("B" ∷ "A" ∷ []) 1)
    ≡ (if asked {K = String} "A" ("B" ∷ "A" ∷ []) then lookup "A" table else none)
lookup_skus-exact_example =
    lookup_skus-exact find table find-Answers ("B" ∷ "A" ∷ []) 1 "A" (omega arith)

abbrev padded : List (List String)
padded = (" A" ∷ []) ∷ ("B" ∷ []) ∷ ("" ∷ []) ∷ (" A " ∷ []) ∷ []

abbrev exact : List (List String)
exact = ("A" ∷ []) ∷ ("B" ∷ []) ∷ ("B" ∷ []) ∷ []

abbrev a : String
a = "A"

a_named : a ≢ ""
a_named p = ground (arith, eq_iff a "")

-- A comparison that passes over one space at the end.
abbrev same : String → String → Bool
same asked_for held = asked_for == held || asked_for == held <> " "

abbrev find_same : List String → List SkuRow
find_same batch = if any (λ s. same s "A") batch then record { link_id = 7; sku = "A" } ∷ [] else []

find_same-Compares : Compares find_same same
unfolding index_rows lookup insert
find_same-Compares = record {
  only = λ batch sku h. elim (Bool-cases (a == sku)) [
    | inl e ↦
        let unasked : any (λ s. same s "A") batch ≡ false =
          ap (λ k. any (λ s. same s k) batch) ((eq_iff a sku).0 e) ∙ h in
        rw unasked refl
    | inr e ↦ ground (arith, e)
  ];
}

-- Both rows name the product 7, and both are planned.
plan_products-padded_example :
    let m = lookup_skus find_same (raw_skus 0 padded) 500 in
    count_planned "A" (plan_products 0 [] m 4 0 padded).0 ≡ count_named "A" 0 padded
unfolding raw_skus
plan_products-padded_example =
    plan_products-padded find_same same find_same-Compares 0 [] 4 "A" padded 500 a_named
      (omega arith) refl

abbrev ids : List NewProduct → List ℕ
ids [] = []
ids (np ∷ nps) = 9 ∷ ids nps

length-ids : (nps : List NewProduct) → length (ids nps) ≡ length nps
length-ids [] = refl
length-ids (np ∷ nps) = omega (arith, length-ids nps)

abbrev write_back : List NewProduct → ℕ → ℕ × List ℕ
write_back nps s = (s + 1, ids nps)

abbrev write : List String → List Arg → ℕ → ℕ
write statement args s = s + 1

insert_new_entities-assigned_example :
    let out = insert_new_entities write (λ s. s) write_back true 1 0 [] 4 padded (3, table) in
    All (λ row. (row_sku 0 row == "" || has (row_sku 0 row) out.0.1) ≡ true) padded
    × ((sku : String) → has sku table ≡ true → lookup sku out.0.1 ≡ lookup sku table)
insert_new_entities-assigned_example =
    insert_new_entities-assigned write (λ s. s) write_back true 1 0 [] 4 padded 3 table
      (omega arith) (λ nps s. length-ids nps)
