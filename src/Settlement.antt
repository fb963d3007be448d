-- ===== src/Settlement.antt =====
-- packages/settlement/src: the quote header of execute.ts and the consumed quote ids of nonce.ts.
pub mod Transaction
pub mod Memo
pub mod Execute
pub mod Expiry
pub mod Handover
use ghost_bazaar.Prelude.{
  ℕ, ◌==◌, String, ◌===◌, Bool, true, false, not, any, List, [], ◌∷◌, Option, none, some, Result,
  ok, err, ◌>>=◌, ◌>>◌, require, or_throw, if◌then◌else◌,
}
use ghost_bazaar.Prelude.Json.{Value, null, boolean, num, str, obj, Payload, get}
use ghost_bazaar.Core.External.{Externals}
use ghost_bazaar.Core.Schemas.{is_truthy}
use ghost_bazaar.Core.Quotes.{
  QuoteCode, expired_quote, invalid_buyer_signature, invalid_seller_signature, verify_quote,
}

-- errors.ts. `unexpected` is a value thrown by a library, which is no `SettlementError`.
pub data SettlementError : Type 0 where
  malformed_quote_header buyer_signature_refused seller_signature_refused : SettlementError
  invalid_payment_signature transaction_not_found transaction_failed : SettlementError
  transaction_not_confirmed transfer_instruction_missing transfer_destination_mismatch :
      SettlementError
  transfer_mint_mismatch price_mismatch memo_missing memo_mismatch : SettlementError
  nonce_refused nonce_replayed quote_expired execution_failed unexpected : SettlementError

unfoldable pub error_code : SettlementError → String
error_code malformed_quote_header = "malformed_quote_header"
error_code buyer_signature_refused = "invalid_buyer_signature"
error_code seller_signature_refused = "invalid_seller_signature"
error_code invalid_payment_signature = "invalid_payment_signature"
error_code transaction_not_found = "transaction_not_found"
error_code transaction_failed = "transaction_failed"
error_code transaction_not_confirmed = "transaction_not_confirmed"
error_code transfer_instruction_missing = "transfer_instruction_missing"
error_code transfer_destination_mismatch = "transfer_destination_mismatch"
error_code transfer_mint_mismatch = "transfer_mint_mismatch"
error_code price_mismatch = "price_mismatch"
error_code memo_missing = "memo_missing"
error_code memo_mismatch = "memo_mismatch"
error_code nonce_refused = "invalid_nonce_format"
error_code nonce_replayed = "nonce_replayed"
error_code quote_expired = "expired_quote"
error_code execution_failed = "execution_failed"
error_code unexpected = "internal_error"

-- The HTTP status of an error; the server answers 500 to what is no `SettlementError`.
unfoldable pub http_status : SettlementError → ℕ
http_status malformed_quote_header = 400
http_status buyer_signature_refused = 401
http_status seller_signature_refused = 401
http_status invalid_payment_signature = 400
http_status transaction_not_found = 404
http_status nonce_replayed = 409
http_status execution_failed = 500
http_status unexpected = 500
http_status _ = 422

-- Step 1: the header, once it is decoded and parsed; `none` if that throws.
unfoldable pub read_quote_header : Option Value → Result SettlementError Payload
read_quote_header (some (obj quote)) =
    require (is_truthy (get quote "quote_id")) malformed_quote_header >> ok quote
read_quote_header _ = err malformed_quote_header

-- What `verifySettlement` makes of the outcome of `verifyQuote`.
unfoldable pub recording_outcome : Result QuoteCode (Unit {0}) → Result SettlementError (Unit {0})
recording_outcome (ok u) = ok tt
recording_outcome (err invalid_buyer_signature) = err buyer_signature_refused
recording_outcome (err invalid_seller_signature) = err seller_signature_refused
recording_outcome (err expired_quote) = ok tt
recording_outcome (err _) = err malformed_quote_header

-- What `verifyAndExecute` makes of it.
unfoldable pub execution_outcome : Result QuoteCode (Unit {0}) → Result SettlementError (Unit {0})
execution_outcome (ok u) = ok tt
execution_outcome (err invalid_buyer_signature) = err buyer_signature_refused
execution_outcome (err invalid_seller_signature) = err seller_signature_refused
execution_outcome (err expired_quote) = err quote_expired
execution_outcome (err _) = err malformed_quote_header

module _ (x : Externals) where
  -- Steps 1 to 3 of `verifySettlement`.
  unfoldable pub quote_for_recording : ℕ → Option Value → Result SettlementError Payload
  unfolding read_quote_header recording_outcome
  quote_for_recording now header = do
    quote ← read_quote_header header
    recording_outcome (verify_quote x now quote)
    ok quote

  -- Steps 1 to 3 of `verifyAndExecute`.
  unfoldable pub quote_for_execution : ℕ → Option Value → Result SettlementError Payload
  unfolding read_quote_header execution_outcome
  quote_for_execution now header = do
    quote ← read_quote_header header
    execution_outcome (verify_quote x now quote)
    ok quote

-- `===` on JSON values that were parsed apart: two arrays or two objects are never the same.
abbrev pub same_value : Option Value → Option Value → Bool
same_value none none = true
same_value (some null) (some null) = true
same_value (some (boolean true)) (some (boolean b)) = b
same_value (some (boolean false)) (some (boolean b)) = not b
same_value (some (num m)) (some (num n)) = m == n
same_value (some (str s)) (some (str t)) = s === t
same_value v w = false

-- nonce.ts: the set of consumed quote ids. `verifyQuote` does not ask for a text, so that an id is
-- whatever value the quote has there.
unfoldable pub is_nonce_consumed : Option Value → List (Option Value) → Bool
is_nonce_consumed quote_id consumed = any (λ q. same_value q quote_id) consumed

unfoldable pub consume_nonce : Option Value → List (Option Value) → List (Option Value)
consume_nonce quote_id consumed =
    if is_nonce_consumed quote_id consumed then consumed else quote_id ∷ consumed
