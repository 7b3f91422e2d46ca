-- ===== src/Import/Entity/Lookup.antt =====
-- lookupSKUs of service/product/import_service.go answers as one exact query would, however the SKUs are
-- cut into batches.
use magento_go.Prelude.{
  ℕ, ◌<◌, ◌≡◌, ◌∙◌, refl, ap, String, none, List, [], ◌∷◌, ◌++◌, string_eq, any-append, arith,
  if◌then◌else◌,
}
use mathlib.Core.List.{flatten, flat_map}
use text.Mathlib.TextEquality.{eq_iff}
use magento_go.Prelude.Dict.{Dict, lookup, insert, lookup-insert, asked, or_else}
use magento_go.Batch.{batches}
use magento_go.Batch.Cover.{batches-cover}
use magento_go.Import.Entity.{SkuRow, index_rows, lookup_skus}

-- The query returns the rows of `table` whose SKU is one of the batch.
pub record Answers (find : List String → List SkuRow) (table : Dict String ℕ) : Type 0 where
  pub exact :
      (batch : List String) (sku : String)
      → lookup sku (index_rows (find batch) [])
        ≡ (if asked sku batch then lookup sku table else none)

pub index_rows-append :
    (es fs : List SkuRow) (m : Dict String ℕ)
    → index_rows (es ++ fs) m ≡ index_rows fs (index_rows es m)
unfolding index_rows
index_rows-append [] fs m = refl
index_rows-append (e ∷ es) fs m = index_rows-append es fs (insert e.sku e.link_id m)

pub lookup-index_rows :
    (sku : String) (es : List SkuRow) (m : Dict String ℕ)
    → lookup sku (index_rows es m) ≡ or_else (lookup sku (index_rows es [])) (lookup sku m)
unfolding index_rows
lookup-index_rows sku [] m = unfold lookup in refl
lookup-index_rows sku (e ∷ es) m = ground (
  arith,
  eq_iff e.sku sku,
  lookup-index_rows sku es (insert e.sku e.link_id m),
  lookup-index_rows sku es (insert e.sku e.link_id []),
  lookup-insert e.sku sku e.link_id m,
  lookup-insert e.sku sku e.link_id [],
  lookup_nil sku,
)
  where
    lookup_nil : (k : String) → lookup {V = ℕ} k [] ≡ none
    lookup_nil k = unfold lookup in refl

module _ (find : List String → List SkuRow) (table : Dict String ℕ) (ans : Answers find table) where
  lookup-batches :
      (sku : String) (bs : List (List String))
      → lookup sku (index_rows (flat_map find bs) [])
        ≡ (if asked sku (flatten bs) then lookup sku table else none)
  unfolding flat_map flatten
  lookup-batches sku [] = unfold index_rows lookup in refl
  lookup-batches sku (b ∷ bs) =
      rw (index_rows-append, lookup-index_rows, any-append)
        (ground (arith, ans.exact b sku, lookup-batches sku bs))

  -- The map holds, for each SKU that stands in the list as it is, what the table holds, and nothing
  -- for any other SKU. So the batch size makes no difference.
  pub lookup_skus-exact :
      (skus : List String) (batch_size : ℕ) (sku : String)
      → 0 < batch_size
      → lookup sku (lookup_skus find skus batch_size)
        ≡ (if asked sku skus then lookup sku table else none)
  unfolding lookup_skus
  lookup_skus-exact skus batch_size sku p =
      lookup-batches sku (batches batch_size skus)
      ∙ ap (λ t. if asked sku t then lookup sku table else none) (batches-cover batch_size skus p).0
