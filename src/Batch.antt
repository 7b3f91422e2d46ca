-- ===== src/Batch.antt =====
-- The loops `for i := 0; i < len(xs); i += batchSize { … xs[i:end] … }` by which
-- service/product/import_service.go, import_stock.go, import_eav.go and
-- model/repository/product/product_repository.go cut a list into batches. The index cannot pass
-- 2^63: `i` is below the length of a slice before a step, and a batch of that size ends the loop.
pub mod Cover
mod Tests
use magento_go.Prelude.{ℕ, zero, suc, ◌+◌, List, [], ◌∷◌, length, slice, ltb, if◌then◌else◌}

module _ {ℓ} {A : Type ℓ} where
  -- `end := i + batchSize; if end > len(xs) { end = len(xs) }`
  abbrev pub batch_end : ℕ → ℕ → List A → ℕ
  batch_end b i xs = if ltb (length xs) (i + b) then length xs else i + b

  -- The rounds from index `i` on; at most as many as the fuel.
  unfoldable pub batches_from : ℕ → ℕ → ℕ → List A → List (List A)
  batches_from zero b i xs = []
  batches_from (suc fuel) b i xs =
      let rest = batches_from fuel b (i + b) xs in
      if ltb i (length xs) then slice xs i (batch_end b i xs) ∷ rest else []

  unfoldable pub batches : ℕ → List A → List (List A)
  batches b xs = batches_from (length xs) b 0 xs
