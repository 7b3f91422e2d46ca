-- ===== src/Import/Eav/Valid.antt =====
-- What stands in the buckets and rows of service/product/import_eav.go: checked values of known products.
pub mod Rows
use magento_go.Prelude.{
  ℕ, ◌≡◌, ◌≢◌, ◌⊎◌, refl, String, Bool, true, false, none, some, List, [], ◌∷◌, ◌++◌, arith, ◌==◌,
  string_eq, if◌then◌else◌, Bool-cases, Option-cases, inl, inr, All, All-snoc,
}
use mathlib.Core.Path.{subst}
use text.Mathlib.TextEquality.{eq_iff}
use magento_go.Prelude.Dict.{Dict, lookup}
use magento_go.Prelude.Text.{atoi}
use magento_go.Import.Std.{Std}
use magento_go.Import.Row.{row_sku, sku_column, cell}
use magento_go.Import.Eav.{
  AttrMeta, EavRow, EavValue, EavColMapping, Warning, EavData, eav_mappings, empty_data, bucket,
  push_bucket, push_warning, parse_datetime, raw_row, push_varchar, push_int, push_decimal,
  push_text, push_datetime, push_value, push_cell, push_cells, push_row, push_rows, collect_eav,
}
use magento_go.Import.Eav.Counts.{bucket-push_bucket}

str_ne : (s t : String) → (s == t) ≡ false → s ≢ t
str_ne s t h p = ground (arith, eq_iff s t)

module _ (std : Std) (sku_to_id : Dict String ℕ) (store : ℕ) where
  open std use {parse_float}

  -- The id is a known SKU's.
  abbrev pub IsKnown : ℕ → Type 0
  IsKnown id = (sku : String) × (lookup sku sku_to_id ≡ some id)

  -- A row for raw SQL in the bucket `name`: its product is known, its store is the import's, and its
  -- text was accepted by the check of its type.
  pub record IsGood (name : String) (r : EavRow) : Type 0 where
    pub known : IsKnown r.link_id
    pub in_store : r.store_id ≡ store
    pub int : name ≡ "int" → atoi r.value ≢ none
    pub decimal : name ≡ "decimal" → (parse_float r.value).1 ≡ true
    pub datetime : name ≡ "datetime" → parse_datetime std r.value ≢ none

  abbrev pub IsTyped {ℓ} : {A : Type ℓ} → EavValue A → Type 0
  IsTyped v = IsKnown v.entity_id × (v.store_id ≡ store)

  pub record IsValid (d : EavData std) : Type 0 where
    pub raw : (name : String) → All (IsGood name) (bucket std name d)
    pub varchars : All IsTyped d.varchar_rows
    pub ints : All IsTyped d.int_rows
    pub decimals : All IsTyped d.decimal_rows
    pub texts : All IsTyped d.text_rows
    pub datetimes : All IsTyped d.datetime_rows

  IsValid-if :
      (b : Bool) (d d' : EavData std) → IsValid d → IsValid d' → IsValid (if b then d else d')
  IsValid-if true d d' v v' = v
  IsValid-if false d d' v v' = v'

  bucket-empty : (name : String) → bucket std name (empty_data std) ≡ []
  unfolding bucket empty_data lookup
  bucket-empty name = ground arith

  empty-IsValid : IsValid (empty_data std)
  unfolding empty_data
  empty-IsValid = record {
    raw = λ name. rw bucket-empty tt;
    varchars = tt;
    ints = tt;
    decimals = tt;
    texts = tt;
    datetimes = tt;
  }

  push_bucket-IsValid :
      (name : String) (r : EavRow) (d : EavData std)
      → IsGood name r
      → IsValid d
      → IsValid (push_bucket std name r d)
  push_bucket-IsValid name r d g v = record {
    raw = λ name'. rw bucket-push_bucket (lem name' (Bool-cases (name == name')));
    varchars = unfold push_bucket in v.varchars;
    ints = unfold push_bucket in v.ints;
    decimals = unfold push_bucket in v.decimals;
    texts = unfold push_bucket in v.texts;
    datetimes = unfold push_bucket in v.datetimes;
  }
    where
      lem :
          (name' : String)
          → ((name == name') ≡ true) ⊎ ((name == name') ≡ false)
          → All
              (IsGood name')
              (if name == name' then bucket std name d ++ r ∷ [] else bucket std name' d)
      lem name' (inl e) = rw e (
          subst (λ n. All (IsGood n) (bucket std name d ++ r ∷ [])) ((eq_iff name name').0 e)
            (All-snoc (IsGood name) (bucket std name d) r (v.raw name) g))
      lem name' (inr e) = rw e (v.raw name')

  push_warning-IsValid :
      (w : Warning) (d : EavData std) → IsValid d → IsValid (push_warning std w d)
  push_warning-IsValid w d v = record {
    raw = unfold push_warning bucket in v.raw;
    varchars = unfold push_warning in v.varchars;
    ints = unfold push_warning in v.ints;
    decimals = unfold push_warning in v.decimals;
    texts = unfold push_warning in v.texts;
    datetimes = unfold push_warning in v.datetimes;
  }

  module _ (use_raw : Bool) (link attr : ℕ) (val : String) (known : IsKnown link) where
    abbrev raw : EavRow
    raw = raw_row std use_raw store link attr val

    push_varchar-IsValid :
        (d : EavData std) → IsValid d → IsValid (push_varchar std use_raw store link attr val d)
    unfolding push_varchar
    push_varchar-IsValid d v = elim (Bool-cases use_raw) [
      | inl e ↦ rw e (
          push_bucket-IsValid "varchar" raw d
            (record {
              known = known;
              in_store = refl;
              int = λ p. absurd (str_ne "varchar" "int" refl p);
              decimal = λ p. absurd (str_ne "varchar" "decimal" refl p);
              datetime = λ p. absurd (str_ne "varchar" "datetime" refl p);
            })
            v)
      | inr e ↦ rw e (record {
        raw = unfold bucket in v.raw;
        varchars = All-snoc IsTyped d.varchar_rows _ v.varchars (known, refl);
        ints = v.ints;
        decimals = v.decimals;
        texts = v.texts;
        datetimes = v.datetimes;
      })
    ]

    push_text-IsValid :
        (d : EavData std) → IsValid d → IsValid (push_text std use_raw store link attr val d)
    unfolding push_text
    push_text-IsValid d v = elim (Bool-cases use_raw) [
      | inl e ↦ rw e (
          push_bucket-IsValid "text" raw d
            (record {
              known = known;
              in_store = refl;
              int = λ p. absurd (str_ne "text" "int" refl p);
              decimal = λ p. absurd (str_ne "text" "decimal" refl p);
              datetime = λ p. absurd (str_ne "text" "datetime" refl p);
            })
            v)
      | inr e ↦ rw e (record {
        raw = unfold bucket in v.raw;
        varchars = v.varchars;
        texts = All-snoc IsTyped d.text_rows _ v.texts (known, refl);
        ints = v.ints;
        decimals = v.decimals;
        datetimes = v.datetimes;
      })
    ]

    push_int-IsValid :
        (sku code : String) (d : EavData std)
        → IsValid d
        → IsValid (push_int std use_raw store link attr val sku code d)
    unfolding push_int
    push_int-IsValid sku code d v = elim (Option-cases (atoi val)) [
      | inl n ↦ rw (n, push_int) (push_warning-IsValid _ d v)
      | inr (a, s) ↦
          rw (s, push_int)
            (elim (Bool-cases use_raw) [
              | inl e ↦ rw e (
                  push_bucket-IsValid "int" raw d
                    (record {
                      known = known;
                      in_store = refl;
                      int = λ p q. cc;
                      decimal = λ p. absurd (str_ne "int" "decimal" refl p);
                      datetime = λ p. absurd (str_ne "int" "datetime" refl p);
                    })
                    v)
              | inr e ↦ rw e (record {
                raw = unfold bucket in v.raw;
                varchars = v.varchars;
                texts = v.texts;
                ints = All-snoc IsTyped d.int_rows _ v.ints (known, refl);
                decimals = v.decimals;
                datetimes = v.datetimes;
              })
            ])
    ]

    push_datetime-IsValid :
        (sku code : String) (d : EavData std)
        → IsValid d
        → IsValid (push_datetime std use_raw store link attr val sku code d)
    unfolding push_datetime
    push_datetime-IsValid sku code d v = elim (Option-cases (parse_datetime std val)) [
      | inl n ↦ rw (n, push_datetime) (push_warning-IsValid _ d v)
      | inr (a, s) ↦
          rw (s, push_datetime)
            (elim (Bool-cases use_raw) [
              | inl e ↦ rw e (
                  push_bucket-IsValid "datetime" raw d
                    (record {
                      known = known;
                      in_store = refl;
                      int = λ p. absurd (str_ne "datetime" "int" refl p);
                      decimal = λ p. absurd (str_ne "datetime" "decimal" refl p);
                      datetime = λ p q. cc;
                    })
                    v)
              | inr e ↦ rw e (record {
                raw = unfold bucket in v.raw;
                varchars = v.varchars;
                texts = v.texts;
                ints = v.ints;
                decimals = v.decimals;
                datetimes = All-snoc IsTyped d.datetime_rows _ v.datetimes (known, refl);
              })
            ])
    ]

    push_decimal-IsValid :
        (sku code : String) (d : EavData std)
        → IsValid d
        → IsValid (push_decimal std use_raw store link attr val sku code d)
    unfolding push_decimal
    push_decimal-IsValid sku code d v = elim (Bool-cases (parse_float val).1) [
      | inr n ↦ rw (n, push_decimal) (push_warning-IsValid _ d v)
      | inl s ↦
          rw (s, push_decimal)
            (elim (Bool-cases use_raw) [
              | inl e ↦ rw e (
                  push_bucket-IsValid "decimal" raw d
                    (record {
                      known = known;
                      in_store = refl;
                      int = λ p. absurd (str_ne "decimal" "int" refl p);
                      decimal = λ p. s;
                      datetime = λ p. absurd (str_ne "decimal" "datetime" refl p);
                    })
                    v)
              | inr e ↦ rw e (record {
                raw = unfold bucket in v.raw;
                varchars = v.varchars;
                texts = v.texts;
                ints = v.ints;
                decimals = All-snoc IsTyped d.decimal_rows _ v.decimals (known, refl);
                datetimes = v.datetimes;
              })
            ])
    ]
