-- ===== src/Category/Flat.antt =====
-- model/repository/category/category_repository.go, FlattenCategoryAttributesWithLabels: the attributes of
-- a category under their codes, each with its label and store.
use magento_go.Prelude.{ℕ, String, Option, none, some, List, [], ◌∷◌, string_eq, nat_eq}
use magento_go.Prelude.Dict.{Dict, lookup, insert}
use magento_go.Prelude.Int.{ℤ}
use magento_go.Category.Tree.{Category}

-- CategoryInt, CategoryVarchar and CategoryText, by the type of value.
pub record AttributeRow {ℓ} (V : Type ℓ) : Type ℓ where
  pub attribute_id : ℕ
  pub store_id : ℕ
  pub value : V

-- What the program reads of a category besides its id and its parent's.
pub record Details : Type 0 where
  pub path : String
  pub level : ℤ
  pub product_count : ℕ
  pub ints : List (AttributeRow ℤ)
  pub varchars : List (AttributeRow String)
  pub texts : List (AttributeRow String)

abbrev pub Cat : Type 0
Cat = Category Details

pub record EavAttribute : Type 0 where
  pub attribute_id : ℕ
  pub attribute_code : String
  pub frontend_label : Option String

pub data InfoValue : Type 0 where
  int : ℤ → InfoValue
  str : String → InfoValue
  uint : ℕ → InfoValue

-- The map with the keys value, label and store_id.
pub record Info : Type 0 where
  pub value : InfoValue
  pub label : String
  pub store_id : ℕ

abbrev pub Infos : Type 0
Infos = Dict String Info

-- `label := ""; if attr.FrontendLabel != nil { label = *attr.FrontendLabel }`
abbrev pub label_of : Option String → String
label_of none = ""
label_of (some l) = l

module _ {ℓ} {V : Type ℓ} where
  abbrev pub put_info : Option EavAttribute → (V → InfoValue) → AttributeRow V → Infos → Infos
  put_info none as_value v flat = flat
  put_info (some attr) as_value v flat =
      insert attr.attribute_code
        (record {
          value = as_value v.value;
          label = label_of attr.frontend_label;
          store_id = v.store_id;
        })
        flat

  -- The loop over the rows of one type: an attribute that the metadata lacks is left out.
  unfoldable pub put_infos :
      Dict ℕ EavAttribute → (V → InfoValue) → List (AttributeRow V) → Infos → Infos
  put_infos meta as_value [] flat = flat
  put_infos meta as_value (v ∷ vs) flat =
      put_infos meta as_value vs (put_info (lookup v.attribute_id meta) as_value v flat)

unfoldable pub flatten_category : Cat → Dict ℕ EavAttribute → Infos
unfolding put_infos
flatten_category c meta =
    let flat1 = put_infos meta int c.value.ints [] in
    let flat2 = put_infos meta str c.value.varchars flat1 in
    let flat3 = put_infos meta str c.value.texts flat2 in
    insert "entity_id" (record { value = uint c.entity_id; label = "Entity ID"; store_id = 0 })
      flat3
