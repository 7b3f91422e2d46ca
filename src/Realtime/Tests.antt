-- ===== src/Realtime/Tests.antt =====
-- Requests to the handlers of api/realtime/realtime_api.go. The code of a text is the text itself.
use magento_go.Prelude.{
  ℕ, ◌≡◌, ◌≢◌, refl, leb, false, String, ◌<>◌, none, some, [], string_eq, arith,
}
use text.Mathlib.TextEquality.{eq_iff}
use magento_go.Prelude.Fallible.{ok}
use magento_go.Realtime.Prices.{Db, Prices, get_lowest_price_by_sku}
use magento_go.Realtime.Handlers.{
  Crypto, Request, State, Env, unauthorized, price_inventory, handle_price_inventory,
  verify_customer_signature,
}
use magento_go.Realtime.Handlers.Access.{handle_price_inventory-signed}

abbrev crypto : Crypto
crypto = record { hmac_sha256 = λ key message. key <> message; hex_decode = λ s. some s }

abbrev floats : Prices ℕ
floats = record { zero = 0; is_missing = λ x. leb 999999999 x }

-- The price is there and the stock is not.
abbrev db : Db String ℕ
db = record {
  has_row_id = some false;
  lowest_price = λ ee group sku. some (some 25);
  base_price = λ ee sku. some none;
  tier_prices = λ ee sku. ok [];
  quantity = λ sku source. none;
  quantities = λ skus source. ok [];
}

abbrev env : Env String ℕ
env = record {
  crypt_key = "k";
  price_init = none;
  inventory_init = none;
  db = db;
  error_text = λ e. e;
}

abbrev request : Request
request = record {
  customer_id = "7";
  customer_sig = "k7";
  sku = "A";
  source = "";
  customer_group = "";
}

abbrev start : State
start = record { repositories = none; schema = none }

-- A stock that was not found is shown as 0.
answered : (handle_price_inventory crypto floats env request start).1 ≡ price_inventory "A" 25 0
unfolding handle_price_inventory get_lowest_price_by_sku verify_customer_signature
answered = refl

not_refused :
    (handle_price_inventory crypto floats env request start).1 ≢ unauthorized "invalid signature"
not_refused h = cc (h, answered)

key_set : env.crypt_key ≢ ""
key_set e = absurd (ground (arith, eq_iff "k" "", e))

handle_price_inventory-signed_example :
    (request.customer_id ≢ "")
    × (crypto.hex_decode request.customer_sig
        ≡ some (crypto.hmac_sha256 env.crypt_key request.customer_id))
handle_price_inventory-signed_example =
    handle_price_inventory-signed crypto floats env request start key_set not_refused
