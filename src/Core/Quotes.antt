-- ===== src/Core/Quotes.antt =====
-- packages/core/src/quote.ts: the verification of a signed quote. Dates and the
-- nonce are coerced to texts, as the program does; a price may be a number.
use ghost_bazaar.Prelude.{
  ℕ, String, ◌===◌, Bool, false, ltb, ◌||◌, Option, none, some, Result, ◌>>=◌, ◌>>◌, require,
  or_throw,
}
use ghost_bazaar.Prelude.Json.{Value, str, num, Payload, get, put, as_string}
use ghost_bazaar.Core.External.{Externals}
use ghost_bazaar.Core.Schemas.{passes, coerced, is_supported, is_nonce, is_after}

pub data QuoteCode : Type 0 where
  invalid_amount unsupported_currency malformed_quote expired_quote : QuoteCode
  invalid_nonce_format invalid_buyer_signature invalid_seller_signature : QuoteCode

-- `quoteSigningPayload`, before it is made canonical.
abbrev pub quote_signing_payload : Payload → Payload
quote_signing_payload quote = put "seller_signature" (str "") (put "buyer_signature" (str "") quote)

-- `VALID_MEMO_POLICIES`
abbrev pub is_memo_policy : String → Bool
is_memo_policy s = s === "optional" || s === "quote_id_required" || s === "hash_required"

module _ (x : Externals) where
  abbrev pub key_of : Option String → Option String
  key_of none = none
  key_of (some did) = x.did_to_public_key did

  abbrev pub is_signature_of : Payload → Option String → String → Bool
  is_signature_of quote none key = false
  is_signature_of quote (some signature) key =
      x.verify_ed25519 (quote_signing_payload quote) signature key

  -- `isValidDecimalPositive`, where `new Decimal` takes texts and numbers.
  abbrev pub is_price : Option Value → Bool
  is_price (some (str s)) = x.is_decimal_positive s
  is_price (some (num n)) = ltb 0 n
  is_price v = false

  -- `verifyQuote`, its checks in their order.
  unfoldable pub verify_quote : ℕ → Payload → Result QuoteCode (Unit {0})
  verify_quote now quote = do
    require (is_price (get quote "final_price")) invalid_amount
    require (passes is_supported (get quote "currency")) unsupported_currency
    require (passes is_memo_policy (get quote "memo_policy")) malformed_quote
    require (is_after (x.parse_date (coerced x (get quote "expires_at"))) now) expired_quote
    require (is_nonce (coerced x (get quote "nonce"))) invalid_nonce_format
    buyer_key ← or_throw (key_of (as_string (get quote "buyer"))) malformed_quote
    seller_key ← or_throw (key_of (as_string (get quote "seller"))) malformed_quote
    require (is_signature_of quote (as_string (get quote "buyer_signature")) buyer_key)
        invalid_buyer_signature
    require (is_signature_of quote (as_string (get quote "seller_signature")) seller_key)
        invalid_seller_signature
