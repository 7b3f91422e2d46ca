-- ===== src/Realtime/Handlers.antt =====
-- api/realtime/realtime_api.go: the handlers. The durations in the answers are left out. HMAC-SHA256 and the
-- decoding of hexadecimal are parameters, and texts stand for bytes; hmac.Equal is equality. The two
-- queries that run side by side read different tables, so that their order makes no difference.
pub mod Access
use magento_go.Prelude.{
  ℕ, Bool, true, false, not, ◌&&◌, ◌||◌, String, Option, none, some, List, [], ◌∷◌, ◌==◌, string_eq,
  if◌then◌else◌,
}
use magento_go.Prelude.Fallible.{Result, err, ok}
use magento_go.Prelude.Int.{ℤ, pos}
use magento_go.Prelude.Text.{atoi}
use magento_go.Realtime.Prices.{
  Db, Prices, Schema, TierPrice, get_lowest_price_by_sku, get_tier_prices_by_sku,
  get_quantity_by_sku,
}

pub record Crypto : Type 0 where
  pub hmac_sha256 : String → String → String
  pub hex_decode : String → Option String

-- Headers and query parameters; one that is missing is "".
pub record Request : Type 0 where
  pub customer_id : String
  pub customer_sig : String
  pub sku : String
  pub source : String
  pub customer_group : String

-- The answers with their status: 401, 400, 500, 404 with a text, and 200 with what was found.
pub data Response (F : Type 0) : Type 0 where
  unauthorized : String → Response F
  bad_request : String → Response F
  server_error : String → Response F
  not_found : String → Response F
  price_inventory : String → F → F → Response F
  price_only : String → F → Response F
  stock_only : String → F → String → Response F
  tier_prices : String → List (TierPrice F) → Response F

-- repoOnce with its error, `none` until the first request; and the schema that the price repository
-- has detected.
pub record State : Type 0 where
  pub repositories : Option (Option String)
  pub schema : Schema

-- What the handlers read beside the request: MAGENTO_CRYPT_KEY, the database, and the errors with which
-- the repositories would be created.
pub record Env (E F : Type 0) : Type 0 where
  pub crypt_key : String
  pub price_init : Option String
  pub inventory_init : Option String
  pub db : Db E F
  pub error_text : E → String

module _ (crypto : Crypto) where
  abbrev pub decoded_is : String → Option String → Bool
  decoded_is expected none = false
  decoded_is expected (some sig) = expected == sig

  unfoldable pub verify_customer_signature : String → String → String → Bool
  verify_customer_signature customer_id signature crypt_key =
      if crypt_key == "" || (customer_id == "" || signature == "")
      then false
      else decoded_is (crypto.hmac_sha256 crypt_key customer_id) (crypto.hex_decode signature)

abbrev pub first_error : Option String → Option String → Option String
first_error none e = e
first_error (some d) e = some d

-- getRepositories: the error that the first call met, for good.
abbrev pub repositories_of : {E F : Type 0} → Env E F → Option (Option String) → Option String
repositories_of env none = first_error env.price_init env.inventory_init
repositories_of env (some e) = e

abbrev pub or_default_source : String → String
or_default_source source = if source == "" then "default" else source

abbrev pub number_or_zero : Option ℤ → ℤ
number_or_zero none = pos 0
number_or_zero (some z) = z

-- `if s != "" { if id, err := strconv.Atoi(s); err == nil { … } }`
unfoldable pub group_of : String → ℤ
group_of s = if s == "" then pos 0 else number_or_zero (atoi s)

module _ {E F : Type 0} (floats : Prices F) (env : Env E F) where
  abbrev pub after_init : State → State
  after_init s = record {
    repositories = some (repositories_of env s.repositories);
    schema = s.schema;
  }

  abbrev pub with_schema : State → Schema → State
  with_schema s schema = record { repositories = s.repositories; schema = schema }

  abbrev pub both_answer : String → F × Bool → F × Bool → Response F
  both_answer sku (price, price_found) (stock, stock_found) =
      if not price_found && not stock_found
      then not_found "product not found"
      else price_inventory sku price stock

  abbrev pub ask_both : String → String → ℤ → State → Option String → State × Response F
  ask_both sku source group s (some e) = (s, server_error "repository init failed")
  ask_both sku source group s none =
      let (schema, price) = get_lowest_price_by_sku floats env.db sku group s.schema in
      (with_schema s schema, both_answer sku price (get_quantity_by_sku floats env.db sku source))

  abbrev pub price_answer : String → F × Bool → Response F
  price_answer sku (price, found) =
      if found then price_only sku price else not_found "price not found"

  abbrev pub ask_price : String → ℤ → State → Option String → State × Response F
  ask_price sku group s (some e) = (s, server_error "repository init failed")
  ask_price sku group s none =
      let (schema, price) = get_lowest_price_by_sku floats env.db sku group s.schema in
      (with_schema s schema, price_answer sku price)

  -- GET /price; the group comes from the request.
  unfoldable pub handle_price : Request → State → State × Response F
  unfolding get_lowest_price_by_sku
  handle_price r s =
      if r.sku == ""
      then (s, bad_request "sku required")
      else ask_price r.sku (group_of r.customer_group) (after_init s)
          (repositories_of env s.repositories)

  abbrev pub stock_answer : String → String → F × Bool → Response F
  stock_answer sku source (qty, found) =
      if found then stock_only sku qty source else not_found "stock not found"

  abbrev pub ask_stock : String → String → State → Option String → State × Response F
  ask_stock sku source s (some e) = (s, server_error "repository init failed")
  ask_stock sku source s none =
      (s, stock_answer sku source (get_quantity_by_sku floats env.db sku source))

  unfoldable pub handle_stock : Request → State → State × Response F
  handle_stock r s =
      if r.sku == ""
      then (s, bad_request "sku required")
      else ask_stock r.sku (or_default_source r.source) (after_init s)
          (repositories_of env s.repositories)

  abbrev pub tier_answer : String → Result E (List (TierPrice F)) → Response F
  tier_answer sku (err e) = server_error (env.error_text e)
  tier_answer sku (ok tiers) = tier_prices sku tiers

  abbrev pub ask_tiers : String → State → Option String → State × Response F
  ask_tiers sku s (some e) = (s, server_error "repository init failed")
  ask_tiers sku s none =
      let (schema, tiers) = get_tier_prices_by_sku floats env.db sku s.schema in
      (with_schema s schema, tier_answer sku tiers)

  unfoldable pub handle_tier_prices : Request → State → State × Response F
  unfolding get_tier_prices_by_sku
  handle_tier_prices r s =
      if r.sku == ""
      then (s, bad_request "sku required")
      else ask_tiers r.sku (after_init s) (repositories_of env s.repositories)

module _ (crypto : Crypto) {E F : Type 0} (floats : Prices F) (env : Env E F) where
  -- GET /price-inventory; the group is read from the customer's id.
  unfoldable pub handle_price_inventory : Request → State → State × Response F
  unfolding verify_customer_signature get_lowest_price_by_sku
  handle_price_inventory r s =
      if not (env.crypt_key == "")
        && not (verify_customer_signature crypto r.customer_id r.customer_sig env.crypt_key)
      then (s, unauthorized "invalid signature")
      else if r.sku == ""
      then (s, bad_request "sku required")
      else ask_both floats env r.sku (or_default_source r.source) (group_of r.customer_id)
          (after_init floats env s) (repositories_of env s.repositories)
