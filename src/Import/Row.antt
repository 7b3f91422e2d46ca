-- ===== src/Import/Row.antt =====
-- What the collectors of service/product share: the SKU and the cells of a CSV row, and the outcome of
-- a row.
pub mod Collect
use magento_go.Prelude.{
  ℕ, String, Bool, true, false, Option, none, some, List, [], ◌∷◌, ◌==◌, string_eq, get_elem?, any,
  if◌then◌else◌,
}
use magento_go.Prelude.Dict.{Dict, lookup, has}
use magento_go.Prelude.Text.{trim_space}

-- `sku := ""; if skuCol < len(row) { sku = strings.TrimSpace(row[skuCol]) }`
unfoldable pub row_sku : ℕ → List String → String
row_sku sku_col row = elim (get_elem? row sku_col) [ none ↦ "" | some c ↦ trim_space c ]

-- `colIndex["sku"]`, 0 if it is missing.
unfoldable pub sku_column : Dict String ℕ → ℕ
sku_column col_index = elim (lookup "sku" col_index) [ none ↦ 0 | some i ↦ i ]

unfoldable pub non_blank : String → Option String
non_blank v = if v == "" then none else some v

-- `if ci, ok := colIndex[col]; ok && ci < len(row) { if v := strings.TrimSpace(row[ci]); v != ""`
unfoldable pub cell_at : ℕ → List String → Option String
cell_at ci row = elim (get_elem? row ci) [ none ↦ none | some c ↦ non_blank (trim_space c) ]

unfoldable pub cell : String → Dict String ℕ → List String → Option String
cell col col_index row = elim (lookup col col_index) [ none ↦ none | some ci ↦ cell_at ci row ]

-- `hasAny`: some column of the module stands in the header.
unfoldable pub has_any : List String → Dict String ℕ → Bool
has_any cols col_index = any (λ col. has col col_index) cols

-- Where a row's handling stands: it goes on, or it `continue`s with or without a warning.
pub data Step {ℓ κ} (W : Type ℓ) (A : Type κ) : Type (ℓ ⊔ κ) where
  go : A → Step W A
  skip : Step W A
  warn : W → Step W A

infixl 10 ◌>>=◌
abbrev pub ◌>>=◌ {ℓ κ μ} :
    {W : Type ℓ} {A : Type κ} {B : Type μ} → Step W A → (A → Step W B) → Step W B
go a >>= f = f a
skip >>= f = skip
warn w >>= f = warn w

-- `if sku == "" { continue }; entityID, ok := skuToID[sku]; if !ok { continue }`
unfoldable pub known_sku {ℓ} : {W : Type ℓ} → Dict String ℕ → ℕ → List String → Step W (String × ℕ)
known_sku sku_to_id sku_col row =
    let sku = row_sku sku_col row in
    if sku == "" then skip else elim (lookup sku sku_to_id) [ none ↦ skip | some id ↦ go (sku, id) ]
