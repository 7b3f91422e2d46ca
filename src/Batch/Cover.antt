-- ===== src/Batch/Cover.antt =====
-- The batches are the list, cut into pieces of at most the batch size: none is empty, nothing is
-- lost or repeated, and as many rounds as the list has elements are enough.
use magento_go.Prelude.{
  ℕ, zero, suc, ◌+◌, ◌<◌, ◌≤◌, ◌≡◌, ◌∙◌, sym, ap, refl, List, [], ◌∷◌, inl, inr, Bool-cases, arith,
  length, take, drop, slice, ltb, take_all, length-take, length-drop, take-append-drop, All, ltb→lt,
}
use mathlib.Core.List.{flatten}
use native.Mathlib.Nat.{suc-add}
use magento_go.Batch.{batch_end, batches_from, batches}

module _ {ℓ} {A : Type ℓ} where
  pub drop_past : (i : ℕ) (xs : List A) → length xs ≤ i → drop i xs ≡ []
  drop_past zero [] h = refl
  drop_past zero (x ∷ xs) h = absurd (omega arith)
  drop_past (suc i) [] h = refl
  drop_past (suc i) (x ∷ xs) h = drop_past i xs (omega arith)

  drop-nil : (i : ℕ) → drop {A = A} i [] ≡ []
  drop-nil zero = refl
  drop-nil (suc i) = refl

  pub drop-drop : (i b : ℕ) (xs : List A) → drop b (drop i xs) ≡ drop (i + b) xs
  drop-drop zero b xs = ap (λ n. drop n xs) (omega arith)
  drop-drop (suc i) b [] = drop-nil b ∙ sym (drop-nil (suc i + b))
  drop-drop (suc i) b (x ∷ xs) = rw suc-add (drop-drop i b xs)

  -- The last batch may be shorter than `b`.
  pub slice-batch_end :
      (b i : ℕ) (xs : List A) → i < length xs → slice xs i (batch_end b i xs) ≡ take b (drop i xs)
  slice-batch_end b i xs h = elim (Bool-cases (ltb (length xs) (i + b))) [
    | inl e ↦ rw e (
        take_all _ (drop i xs) (omega (arith, length-drop i xs))
        ∙ sym (take_all b (drop i xs) (omega (arith, length-drop i xs, ltb→lt _ _ e))))
    | inr e ↦ rw e (ap (λ n. take n (drop i xs)) (omega arith))
  ]

  flatten-batches_from :
      (fuel b i : ℕ) (xs : List A)
      → 0 < b
      → length xs ≤ i + fuel
      → flatten (batches_from fuel b i xs) ≡ drop i xs
  unfolding batches_from flatten
  flatten-batches_from zero b i xs p h = sym (drop_past i xs (omega arith))
  flatten-batches_from (suc fuel) b i xs p h = elim (Bool-cases (ltb i (length xs))) [
    | inl e ↦
        rw (e, slice-batch_end b i xs (ltb→lt _ _ e))
          (rw (flatten-batches_from fuel b (i + b) xs p (omega arith), ← drop-drop i b xs)
            (take-append-drop b (drop i xs)))
    | inr e ↦ rw e (sym (drop_past i xs (ground arith)))
  ]

  -- A batch has an element, and no more than `b`.
  abbrev pub FitsBatch : ℕ → List A → Type 0
  FitsBatch b c = (0 < length c) × (length c ≤ b)

  fits-batches_from :
      (fuel b i : ℕ) (xs : List A) → 0 < b → All (FitsBatch b) (batches_from fuel b i xs)
  unfolding batches_from
  fits-batches_from zero b i xs p = tt
  fits-batches_from (suc fuel) b i xs p = elim (Bool-cases (ltb i (length xs))) [
    | inl e ↦
        rw (e, slice-batch_end b i xs (ltb→lt _ _ e))
          (
            (
              omega (arith, length-take b (drop i xs), length-drop i xs, ltb→lt _ _ e),
              omega (arith, length-take b (drop i xs)),
            ),
            fits-batches_from fuel b (i + b) xs p,
          )
    | inr e ↦ rw e tt
  ]

  -- At a positive batch size the batches, one after the other, are the list, and each has between 1
  -- and `b` elements. So the loop ends within as many rounds as the list has elements.
  pub batches-cover :
      (b : ℕ) (xs : List A)
      → 0 < b
      → (flatten (batches b xs) ≡ xs) × All (FitsBatch b) (batches b xs)
  unfolding batches
  batches-cover b xs p = (
    flatten-batches_from (length xs) b 0 xs p (omega arith),
    fits-batches_from (length xs) b 0 xs p,
  )
