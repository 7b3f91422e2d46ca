-- ===== src/Realtime/Handlers/Access.antt =====
-- Who is answered by the handlers of api/realtime/realtime_api.go, and when they fail for good.
use magento_go.Prelude.{
  ◌≡◌, ◌≢◌, refl, true, false, Bool-cases, inl, inr, String, Option, none, some, ◌==◌, string_eq,
  arith,
}
use text.Mathlib.TextEquality.{eq_iff}
use magento_go.Realtime.Prices.{Prices}
use magento_go.Realtime.Handlers.{
  Crypto, Request, unauthorized, server_error, State, Env, decoded_is, first_error,
  verify_customer_signature, handle_price_inventory, handle_price, handle_stock, handle_tier_prices,
}

module _ (crypto : Crypto) where
  decoded_is-some :
      (expected : String) (sig : Option String)
      → decoded_is crypto expected sig ≡ true
      → sig ≡ some expected
  decoded_is-some expected none h = absurd (cc)
  decoded_is-some expected (some sig) h = ground (arith, eq_iff expected sig)

  verify_customer_signature-signed :
      (id sig key : String)
      → verify_customer_signature crypto id sig key ≡ true
      → (id ≢ "") × (crypto.hex_decode sig ≡ some (crypto.hmac_sha256 key id))
  unfolding verify_customer_signature
  verify_customer_signature-signed id sig key h =
      let given : (id == "") ≡ false = ground arith in
      let right : decoded_is crypto (crypto.hmac_sha256 key id) (crypto.hex_decode sig) ≡ true =
        ground arith in
      (
        λ e. absurd (ground (arith, eq_iff id "")),
        decoded_is-some (crypto.hmac_sha256 key id) (crypto.hex_decode sig) right,
      )

module _ (crypto : Crypto) {E F : Type 0} (floats : Prices F) (env : Env E F) where
  -- With a crypt key set, a request that is not refused names a customer and carries, in hexadecimal,
  -- the HMAC of the customer's id under the key.
  pub handle_price_inventory-signed :
      (r : Request) (s : State)
      → env.crypt_key ≢ ""
      → (handle_price_inventory crypto floats env r s).1 ≢ unauthorized "invalid signature"
      → (r.customer_id ≢ "")
        × (crypto.hex_decode r.customer_sig ≡ some (crypto.hmac_sha256 env.crypt_key r.customer_id))
  unfolding handle_price_inventory
  handle_price_inventory-signed r s key h =
      let set : (env.crypt_key == "") ≡ false = ground (arith, eq_iff env.crypt_key "") in
      verify_customer_signature-signed crypto r.customer_id r.customer_sig env.crypt_key
        (elim (Bool-cases
          (verify_customer_signature crypto r.customer_id r.customer_sig env.crypt_key)) [
            | inl e ↦ e
            | inr e ↦ absurd (h (rw (e, set) refl))
          ])

  -- If the repositories cannot be created for the first request for a stock, they are not created any
  -- more: later requests for a price, a stock or tier prices of a product fail, whatever the
  -- database says then.
  handle_stock-repositories_fail :
      (later : Env E F) (first r : Request) (s : State) (e : String)
      → s.repositories ≡ none
      → first_error env.price_init env.inventory_init ≡ some e
      → (first.sku == "") ≡ false
      → (r.sku == "") ≡ false
      → ((handle_price floats later r (handle_stock floats env first s).0).1
          ≡ server_error "repository init failed")
        × ((handle_stock floats later r (handle_stock floats env first s).0).1
            ≡ server_error "repository init failed")
        × ((handle_tier_prices floats later r (handle_stock floats env first s).0).1
            ≡ server_error "repository init failed")
  unfolding handle_stock handle_price handle_tier_prices
  handle_stock-repositories_fail later first r s e n h f g = rw (f, g, n, h) (refl, refl, refl)
