-- ===== src/Prelude/Index.antt =====
-- The loops `for _, x := range xs { m[key(x)] = value(x) }`, and what the map holds after them.
use Prim.Native.Nat.{ℕ}
use mathlib.Core.Path.{◌≡◌, refl}
use mathlib.Core.Option.{none}
use mathlib.Core.List.{List, [], ◌∷◌}
use native.Mathlib.Omega.{arith}
use magento_go.Prelude.Tests.{if◌then◌else◌}
use magento_go.Prelude.Lists.{select}
use magento_go.Prelude.Classes.{nat_eq}
use magento_go.Prelude.Dict.{Dict, lookup, insert, lookup-insert, asked, or_else}

module _ {A : Type 0} (key : A → ℕ) where
  -- The rows whose key is asked for.
  abbrev pub rows_of : List A → List ℕ → List A
  rows_of table ks = select (λ x. asked (key x) ks) table

  abbrev pub keys_of : List A → List ℕ
  keys_of [] = []
  keys_of (x ∷ xs) = key x ∷ keys_of xs

module _ {A V : Type 0} (key : A → ℕ) (value : A → V) where
  unfoldable pub index_by : List A → Dict ℕ V → Dict ℕ V
  index_by [] m = m
  index_by (x ∷ xs) m = index_by xs (insert (key x) (value x) m)

  pub lookup-index_by :
      (k : ℕ) (xs : List A) (m : Dict ℕ V)
      → lookup k (index_by xs m) ≡ or_else (lookup k (index_by xs [])) (lookup k m)
  unfolding index_by lookup
  lookup-index_by k [] m = refl
  lookup-index_by k (x ∷ xs) m = ground (
    arith,
    lookup-index_by k xs (insert (key x) (value x) m),
    lookup-index_by k xs (insert (key x) (value x) []),
    lookup-insert (key x) k (value x) m,
    lookup-insert (key x) k (value x) [],
  )

  pub lookup-rows_of :
      (k : ℕ) (ks : List ℕ) (table : List A)
      → lookup k (index_by (rows_of key table ks) [])
        ≡ (if asked k ks then lookup k (index_by table []) else none)
  unfolding index_by lookup
  lookup-rows_of k ks [] = ground arith
  lookup-rows_of k ks (x ∷ table) = ground (
    arith,
    lookup-rows_of k ks table,
    lookup-index_by k table (insert (key x) (value x) []),
    lookup-index_by k (rows_of key table ks) (insert (key x) (value x) []),
    lookup-insert (key x) k (value x) [],
  )

  -- A key that no row has is not in the map.
  pub lookup-keys_of :
      (k : ℕ) (table : List A)
      → (if asked k (keys_of key table) then lookup k (index_by table []) else none)
        ≡ lookup k (index_by table [])
  unfolding index_by lookup
  lookup-keys_of k [] = refl
  lookup-keys_of k (x ∷ table) = ground (
    arith,
    lookup-keys_of k table,
    lookup-index_by k table (insert (key x) (value x) []),
    lookup-insert (key x) k (value x) [],
  )
