-- ===== src/Batch/Tests.antt =====
-- Runs of the batching loop.
use magento_go.Prelude.{ℕ, ◌≡◌, refl, List, [], ◌∷◌, arith, All}
use mathlib.Core.List.{flatten}
use magento_go.Batch.{batches_from, batches}
use magento_go.Batch.Cover.{FitsBatch, batches-cover}

abbrev five : List ℕ
five = 1 ∷ 2 ∷ 3 ∷ 4 ∷ 5 ∷ []

batches_runs : batches 2 five ≡ (1 ∷ 2 ∷ []) ∷ (3 ∷ 4 ∷ []) ∷ (5 ∷ []) ∷ []
unfolding batches batches_from
batches_runs = refl

batches-cover_example : (flatten (batches 2 five) ≡ five) × All (FitsBatch 2) (batches 2 five)
batches-cover_example = batches-cover 2 five (omega arith)
