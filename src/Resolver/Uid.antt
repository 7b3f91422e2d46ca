-- ===== src/Resolver/Uid.antt =====
-- graphql/resolvers/magento_resolver.go, uidEncode and uidDecode: an id as the base64 text of its
-- decimal digits. encoding/base64 is a parameter: decoding is `none` where it fails.
use magento_go.Prelude.{ℕ, ◌<◌, ◌≡◌, ◌≢◌, ◌∙◌, sym, ap, refl, String, Option, none, some}
use magento_go.Prelude.Decimal.{format_uint, parse_uint-format_uint}
use magento_go.Prelude.Int.{two_64}
use magento_go.Prelude.Text.{NumErr, parse_uint}

pub record Base64 : Type 0 where
  pub encode : String → String
  pub decode : String → Option String

-- The documented laws of the package: decoding reads back what was encoded, and nothing from nothing.
pub record Lawful (b : Base64) : Type 0 where
  pub decode_empty : b.decode "" ≡ some ""
  pub decode-encode : (s : String) → b.decode (b.encode s) ≡ some s

abbrev pub unless_error : ℕ × Option NumErr → Option ℕ
unless_error (n, none) = some n
unless_error (n, some e) = none

abbrev pub parse_decoded : Option String → Option ℕ
parse_decoded none = none
parse_decoded (some s) = unless_error (parse_uint 64 s)

module _ (b : Base64) where
  unfoldable pub uid_encode : ℕ → String
  uid_encode entity_id = b.encode (format_uint entity_id)

  unfoldable pub uid_decode : String → Option ℕ
  uid_decode uid = parse_decoded (b.decode uid)

  -- Every id of 64 bits is read back from its UID.
  pub uid_decode-uid_encode :
      Lawful b
      → (entity_id : ℕ) → entity_id < two_64
      → uid_decode (uid_encode entity_id) ≡ some entity_id
  unfolding uid_encode uid_decode
  uid_decode-uid_encode law entity_id h =
      rw (law.decode-encode (format_uint entity_id), parse_uint-format_uint 64 entity_id h) refl

  -- The UID of an id is not empty, since the digits of a number are not.
  pub uid_encode-ne-empty :
      Lawful b → (entity_id : ℕ) → entity_id < two_64 → uid_encode entity_id ≢ ""
  unfolding uid_encode parse_uint
  uid_encode-ne-empty law entity_id h e =
      let read : some "" ≡ some (format_uint entity_id) =
        sym law.decode_empty ∙ ap b.decode (sym e) ∙ law.decode-encode (format_uint entity_id) in
      let digits : "" ≡ format_uint entity_id = cc in
      let parsed : parse_uint 64 "" ≡ (entity_id, none) =
        ap (parse_uint 64) digits ∙ parse_uint-format_uint 64 entity_id h in
      absurd (cc)
