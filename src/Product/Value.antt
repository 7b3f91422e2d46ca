-- ===== src/Product/Value.antt =====
-- The values of the `map[string]interface{}` that hold a product, with the types that the program
-- puts there and tests for: model/repository/product/product_repository.go and
-- graphql/resolvers/product_mapper.go. `F` is float64 and `T` is time.Time.
use magento_go.Prelude.{ℕ, ◌-◌, ◌%◌, String, Option, List}
use magento_go.Prelude.Dict.{Dict}
use magento_go.Prelude.Int.{ℤ, pos, negsuc, two_64}

pub data Scalar (F T : Type 0) : Type 0 where
  nothing : Scalar F T
  str : String → Scalar F T
  uint : ℕ → Scalar F T
  uint16 : ℕ → Scalar F T
  int : ℤ → Scalar F T
  int64 : ℤ → Scalar F T
  float : F → Scalar F T
  time : T → Scalar F T

-- gqlmodels.MediaGalleryItem, without the field that nothing fills.
pub record MediaGalleryItem : Type 0 where
  pub value_id : String
  pub value : String
  pub media_type : Option String

abbrev pub Fields : Type 0 → Type 0 → Type 0
Fields F T = Dict String (Scalar F T)

pub data Value (F T : Type 0) : Type 0 where
  scalar : Scalar F T → Value F T
  uints : List ℕ → Value F T
  fields : Fields F T → Value F T
  rows : List (Fields F T) → Value F T
  media_items : List MediaGalleryItem → Value F T

abbrev pub Flat : Type 0 → Type 0 → Type 0
Flat F T = Dict String (Value F T)

-- Go's conversion `uint(val)` of an int.
unfoldable pub uint_of : ℤ → ℕ
uint_of (pos n) = n % two_64
uint_of (negsuc n) = two_64 - 1 - n % two_64

-- The type switch of toUint; `truncate` is Go's conversion of a float64.
unfoldable pub to_uint : {F T : Type 0} → (F → ℕ) → Option (Scalar F T) → ℕ
unfolding uint_of
to_uint truncate Option.none = 0
to_uint truncate (Option.some (uint n)) = n
to_uint truncate (Option.some (int z)) = uint_of z
to_uint truncate (Option.some (int64 z)) = uint_of z
to_uint truncate (Option.some (float x)) = truncate x
to_uint truncate (Option.some nothing) = 0
to_uint truncate (Option.some (str s)) = 0
to_uint truncate (Option.some (uint16 n)) = 0
to_uint truncate (Option.some (time t)) = 0
