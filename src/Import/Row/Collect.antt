-- ===== src/Import/Row/Collect.antt =====
-- The loop over the rows of the collectors: each row adds an item, a warning or nothing.
use magento_go.Prelude.{
  ◌+◌, ◌≤◌, ◌≡◌, refl, String, Bool, true, false, not, Option, none, some, List, [], ◌∷◌, arith,
  length, All,
}
use magento_go.Import.Row.{Step, go, skip, warn}

pub record Collected {ℓ κ} (W : Type ℓ) (A : Type κ) : Type (ℓ ⊔ κ) where
  pub rows : List A
  pub warnings : List W

module _ {ℓ κ} {W : Type ℓ} {A : Type κ} where
  abbrev pub nothing : Collected W A
  nothing = record { rows = []; warnings = [] }

  unfoldable pub add : Step W A → Collected W A → Collected W A
  add (go a) d = record d { rows = a ∷ d.rows }
  add skip d = d
  add (warn w) d = record d { warnings = w ∷ d.warnings }

module _ {ℓ κ μ} {W : Type ℓ} {A : Type κ} {R : Type μ} where
  unfoldable pub collect : (R → Step W A) → List R → Collected W A
  collect f [] = nothing
  collect f (r ∷ rs) = add (f r) (collect f rs)

  -- A row never gives an item and a warning, nor two of either.
  pub length-collect :
      (f : R → Step W A) (rs : List R)
      → length (collect f rs).rows + length (collect f rs).warnings ≤ length rs
  unfolding collect
  length-collect f [] = omega arith
  length-collect f (r ∷ rs) = lem (f r) (length-collect f rs)
    where
      lem :
          (s : Step W A)
          → length (collect f rs).rows + length (collect f rs).warnings ≤ length rs
          → length (add s (collect f rs)).rows + length (add s (collect f rs)).warnings
            ≤ length (r ∷ rs)
      lem (go a) h = unfold add in omega arith
      lem skip h = unfold add in omega arith
      lem (warn w) h = unfold add in omega arith

  -- What holds of every item that a row can give holds of all that are collected.
  pub All-collect {ν} :
      (P : A → Type ν) (f : R → Step W A)
      → ((r : R) (a : A) → f r ≡ go a → P a)
      → (rs : List R) → All P (collect f rs).rows
  unfolding collect
  All-collect P f h [] = tt
  All-collect P f h (r ∷ rs) = lem (f r) (h r) (All-collect P f h rs)
    where
      lem :
          (s : Step W A)
          → ((a : A) → s ≡ go a → P a)
          → All P (collect f rs).rows
          → All P (add s (collect f rs)).rows
      lem (go a) k t = unfold add in (k a refl, t)
      lem skip k t = unfold add in t
      lem (warn w) k t = unfold add in t

-- Which outcome a row has.
module _ {ℓ κ} {W : Type ℓ} {A : Type κ} where
  abbrev pub is_item : Step W A → Bool
  is_item (go a) = true
  is_item skip = false
  is_item (warn w) = false

  abbrev pub is_warning : Step W A → Bool
  is_warning (go a) = false
  is_warning skip = false
  is_warning (warn w) = true

-- Of a cell that may be blank or missing: whether it is, and whether a text in it fails a test.
abbrev pub is_blank : Option String → Bool
is_blank none = true
is_blank (some v) = false

abbrev pub is_bad : (String → Bool) → Option String → Bool
is_bad good none = false
is_bad good (some v) = not (good v)
