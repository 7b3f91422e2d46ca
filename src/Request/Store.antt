-- ===== src/Request/Store.antt =====
-- The store of a GraphQL request: GetStoreID and StoreIDFromContext of graphql/context.go, and
-- storeContextMiddleware of api/graphql/graphql_api.go. `uint16_of` is Go's conversion of a float64.
use magento_go.Prelude.{
  ℕ, ◌%◌, ◌≡◌, String, Bool, Option, none, some, ◌==◌, string_eq, arith, if◌then◌else◌,
}
use magento_go.Prelude.Text.{parse_uint}

-- `variables.__Store` of the JSON body, where it decodes and has one.
pub data VarStore {ℓ} (F : Type ℓ) : Type ℓ where
  no_var : VarStore F
  text_var : String → VarStore F
  number_var : F → VarStore F
  other_var : VarStore F

-- A header or a parameter that is missing is "".
pub record Request {ℓ} (F : Type ℓ) : Type ℓ where
  pub header : String
  pub query : String
  pub is_post : Bool
  pub variable : VarStore F

-- `if s != "" { if id, err := ParseUint(s, 10, 16); err == nil { … uint16(id) } }`
unfoldable pub store_number : String → Option ℕ
store_number s =
    if s == ""
    then none
    else (let (id, err) = parse_uint 16 s in elim err [ none ↦ some (id % 65536) | some e ↦ none ])

abbrev pub or_else {ℓ} : {A : Type ℓ} → Option A → A → A
or_else none a = a
or_else (some b) a = b

module _ {ℓ} {F : Type ℓ} (uint16_of : F → ℕ) where
  -- GetStoreID: the header, then the query parameter.
  unfoldable pub get_store_id : Request F → ℕ
  get_store_id r = elim (store_number r.header) [
    | some id ↦ id
    | none ↦ elim (store_number r.query) [ some id ↦ id | none ↦ 0 ]
  ]

  -- The case of the `switch` on the variable. A text is parsed also where it is empty, which fails.
  unfoldable pub variable_store : VarStore F → ℕ → ℕ
  variable_store no_var id = id
  variable_store (text_var s) id =
      let (n, err) = parse_uint 16 s in elim err [ none ↦ n % 65536 | some e ↦ id ]
  variable_store (number_var f) id = uint16_of f
  variable_store other_var id = id

  -- The middleware: each step overwrites the store of the one before.
  unfoldable pub store_context_middleware : Request F → ℕ
  store_context_middleware r =
      let id = or_else (store_number r.header) 0 in
      let id' = if r.is_post then variable_store r.variable id else id in
      or_else (store_number r.query) id'

  -- The middleware and GetStoreID agree on every request without a variable, unless both its header
  -- and its query parameter are numbers: then the middleware takes the query parameter and GetStoreID the header.
  store_context_middleware-get_store_id :
      (r : Request F) (h q : Option ℕ)
      → store_number r.header ≡ h
      → store_number r.query ≡ q
      → r.variable ≡ no_var
      → (store_context_middleware r ≡ or_else q (or_else h 0))
        × (get_store_id r ≡ or_else h (or_else q 0))
  unfolding store_context_middleware get_store_id variable_store
  store_context_middleware-get_store_id r h q a b c =
      (ground (arith, a, b, c), ground (arith, a, b))
