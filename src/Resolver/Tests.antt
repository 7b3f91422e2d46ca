-- ===== src/Resolver/Tests.antt =====
-- Runs of the resolvers, and instances of their theorems. In place of base64 and of float64 there are the
-- texts themselves and natural numbers.
use magento_go.Prelude.{ℕ, ◌-◌, ◌≡◌, refl, ltb, false, none, some, string_eq, nat_eq, arith}
use magento_go.Prelude.Dict.{lookup, insert}
use magento_go.Prelude.Int.{ℤ}
use magento_go.Product.Flat.{flatten_product, attr_key}
use magento_go.Product.Fixture.{bag, codes}
use magento_go.Resolver.Uid.{Base64, Lawful, uid_encode, uid_decode, uid_decode-uid_encode}
use magento_go.Resolver.Mapper.{filter_price_for_guest}
use magento_go.Resolver.Mapper.Laws.{priced, group_price, lookup-filter_price_for_guest}
use magento_go.Resolver.Magento.{Floats, image_url, flat_to_magento_product}
use magento_go.Resolver.Magento.Stock.{stock_status-flatten_product}
use magento_go.Resolver.Listing.{MagentoProductsArgs}

abbrev pub plain : Base64
plain = record { encode = λ s. s; decode = λ s. some s }

plain-Lawful : Lawful plain
plain-Lawful = record { decode_empty = refl; decode-encode = λ s. refl }

abbrev pub naturals : Floats
naturals = record {
  Float = ℕ;
  zero = 0;
  minus = λ x y. x - y;
  is_negative = λ x. false;
  is_positive = λ x. ltb 0 x;
  truncate = λ x. x;
}

uid_decode-uid_encode_example : uid_decode plain (uid_encode plain 42) ≡ some 42
uid_decode-uid_encode_example = uid_decode-uid_encode plain plain-Lawful 42 (omega arith)

lookup-filter_price_for_guest_example :
    (lookup "price" (filter_price_for_guest (λ x. x) (flatten_product codes bag) 0)
      ≡ priced
          (group_price 0 bag.index_prices)
          "price"
          (lookup "price" (flatten_product codes bag)))
    × (lookup "price" (
          filter_price_for_guest
            (λ x. x)
            (filter_price_for_guest (λ x. x) (flatten_product codes bag) 0)
            0)
        ≡ lookup "price" (filter_price_for_guest (λ x. x) (flatten_product codes bag) 0))
lookup-filter_price_for_guest_example = lookup-filter_price_for_guest (λ x. x) codes bag 0 "price"

stock_status-flatten_product_example :
    (flat_to_magento_product plain naturals
      (filter_price_for_guest (λ x. x) (flatten_product codes bag) 0)
      "").stock_status
    ≡ "OUT_OF_STOCK"
stock_status-flatten_product_example = stock_status-flatten_product plain naturals codes bag 0 ""

-- The gallery's image is shown before the other query has run.
image_before : image_url (flatten_product codes bag) "" ≡ "/b.jpg"
unfolding image_url flatten_product lookup insert attr_key
image_before = refl

abbrev args : MagentoProductsArgs
args = record {
  category_uid = some (record { eq = some "4"; one_of = none });
  sort_position = some "DESC";
  page_size = ℤ.pos 1;
  current_page = ℤ.pos 2;
}
