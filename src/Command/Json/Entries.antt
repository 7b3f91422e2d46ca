-- ===== src/Command/Json/Entries.antt =====
-- Which entry of the table cmd/product_json.go takes for a product.
use magento_go.Prelude.{
  ℕ, suc, ◌≡◌, ◌∙◌, refl, ap, sym, Bool, true, false, ◌&&◌, String, Option, none, some, List, [],
  ◌∷◌, ◌++◌, ◌==◌, Bool-cases, inl, inr, length, nat_eq, string_eq, arith, if◌then◌else◌,
}
use mathlib.Core.List.{append_assoc}
use text.Mathlib.TextEquality.{eq_iff}
use magento_go.Prelude.Decimal.Pairs.{read_pair, read_pair-format_uint}
use magento_go.Prelude.Dict.{Dict, lookup, insert, lookup-insert, lookup-nil, or_else, or_else-none}
use magento_go.Command.Json.{ProductJson, entry_key, existing_entries, entry_at}

-- The last entry of a product for store 0.
abbrev pub entry_of : List ProductJson → ℕ → Option ProductJson
entry_of [] id = none
entry_of (e ∷ es) id =
    or_else (entry_of es id) (if e.entity_id == id && e.store_id == 0 then some e else none)

-- Two keys are the same only for the same product and store.
entry_key-eq : (a b c d : ℕ) → (entry_key a b == entry_key c d) ≡ (a == c && b == d)
entry_key-eq a b c d = elim (Bool-cases (entry_key a b == entry_key c d)) [
  | inl e ↦
      let same : ◌≡◌ {A = ℕ × ℕ} (a, b) (c, d) =
        sym (read_pair-format_uint a b)
        ∙ ap (read_pair 0) ((eq_iff (entry_key a b) (entry_key c d)).0 e)
        ∙ read_pair-format_uint c d in
      let first : a ≡ c = ap (λ p. p.0) same in
      let second : b ≡ d = ap (λ p. p.1) same in e ∙ ground (arith, first, second)
  | inr e ↦ elim (Bool-cases (a == c && b == d)) [
    | inl both ↦
        let first : a ≡ c = ground (arith, both) in
        let second : b ≡ d = ground (arith, both) in
        let same : entry_key a b ≡ entry_key c d = rw (first, second) refl in
        (eq_iff (entry_key a b) (entry_key c d)).1 same ∙ sym both
    | inr differ ↦ e ∙ sym differ
  ]
]

entry_at-last :
    (es : List ProductJson) (e : ProductJson) (rest : List ProductJson)
    → entry_at (es ++ e ∷ rest) (some (length es)) ≡ some e
entry_at-last [] e rest = refl
entry_at-last (x ∷ es) e rest = entry_at-last es e rest

length-snoc : (es : List ProductJson) (e : ProductJson) → length (es ++ e ∷ []) ≡ suc (length es)
length-snoc [] e = refl
length-snoc (x ∷ es) e = ap suc (length-snoc es e)

-- The map after an entry: its place is that of the entry, of which it is the last one so far.
entry_at-insert :
    (id : ℕ) (e : ProductJson) (entries before es : List ProductJson) (n : ℕ) (m : Dict String ℕ)
    → entries ≡ before ++ e ∷ es
    → n ≡ length before
    → entry_at entries (lookup (entry_key id 0) (insert (entry_key e.entity_id e.store_id) n m)) ≡ (
        if e.entity_id == id && e.store_id == 0
        then some e
        else entry_at entries (lookup (entry_key id 0) m))
entry_at-insert id e entries before es n m whole place =
    let here : entry_at entries (some n) ≡ some e =
      ap (λ l. entry_at l (some n)) whole
      ∙ ap (λ k. entry_at (before ++ e ∷ es) (some k)) place
      ∙ entry_at-last before e es in
    elim (Bool-cases (e.entity_id == id && e.store_id == 0)) [
      | inl t ↦ rw (lookup-insert, entry_key-eq e.entity_id e.store_id id 0, t) here
      | inr f ↦ rw (lookup-insert, entry_key-eq e.entity_id e.store_id id 0, f) refl
    ]

-- From the entries after those that the map has.
entry_at-existing_entries :
    (id : ℕ) (entries rest before : List ProductJson) (n : ℕ) (m : Dict String ℕ)
    → entries ≡ before ++ rest
    → n ≡ length before
    → entry_at entries (lookup (entry_key id 0) (existing_entries n rest m))
      ≡ or_else (entry_of rest id) (entry_at entries (lookup (entry_key id 0) m))
unfolding existing_entries
entry_at-existing_entries id entries [] before n m whole place = refl
entry_at-existing_entries id entries (e ∷ es) before n m whole place =
    entry_at-existing_entries id entries es (before ++ e ∷ []) (suc n)
      (insert (entry_key e.entity_id e.store_id) n m)
      (whole ∙ sym (append_assoc before (e ∷ []) es)) (ap suc place ∙ sym (length-snoc before e))
    ∙ ap (or_else (entry_of es id)) (entry_at-insert id e entries before es n m whole place)
    ∙ or_else-if (entry_of es id) (e.entity_id == id && e.store_id == 0) e _
  where
    or_else-if :
        (a : Option ProductJson) (t : Bool) (e : ProductJson) (b : Option ProductJson)
        → or_else a (if t then some e else b) ≡ or_else (or_else a (if t then some e else none)) b
    or_else-if none true e b = refl
    or_else-if none false e b = refl
    or_else-if (some a) t e b = refl

pub entry_at-entry_of :
    (entries : List ProductJson) (id : ℕ)
    → entry_at entries (lookup (entry_key id 0) (existing_entries 0 entries []))
      ≡ entry_of entries id
entry_at-entry_of entries id =
    entry_at-existing_entries id entries entries [] 0 [] refl refl
    ∙ rw lookup-nil (or_else-none (entry_of entries id))
