-- ===== src/Settlement/Execute.antt =====
-- packages/settlement/src/execute.ts: `verifySettlement` and `verifyAndExecute` as a whole. The first
-- awaits nothing but the quote and the node; the second is cut in two where it awaits the executor.
pub mod Payment
pub mod Once
pub mod Twice
use Prim.Native.String.{◌++◌}
use ghost_bazaar.Prelude.{
  ℕ, ◌*◌, String, ◌===◌, Bool, true, false, not, ◌&&◌, ◌==◌, ltb, List, length, Option, none, some,
  any, Result, ok, err, ◌>>=◌, ◌>>◌, require, or_throw, if◌then◌else◌,
}
use ghost_bazaar.Prelude.Dict.{Dict}
use ghost_bazaar.Prelude.Json.{Value, str, obj, Payload, get, as_string}
use ghost_bazaar.Core.External.{Externals}
use ghost_bazaar.Core.Amounts.{normalize_amount}
use ghost_bazaar.Core.Schemas.{is_truthy, says, coerced, is_nonce, is_after}
use ghost_bazaar.Core.Quotes.{key_of}
use ghost_bazaar.Engine.ControlEnvelope.{nonempty}
use ghost_bazaar.Settlement.{
  SettlementError, malformed_quote_header, invalid_payment_signature, transaction_not_found,
  transaction_failed, transaction_not_confirmed, transfer_instruction_missing,
  transfer_destination_mismatch, transfer_mint_mismatch, price_mismatch, memo_missing,
  memo_mismatch, nonce_refused, nonce_replayed, quote_expired, unexpected, quote_for_recording,
  quote_for_execution, is_nonce_consumed, consume_nonce, execution_failed,
}
use ghost_bazaar.Settlement.Transaction.{
  Chain, Transaction, TransferInfo, BigInt, natural, negative, not_an_integer, extract_spl_transfer,
}
use ghost_bazaar.Settlement.Memo.{includes, extract_memo}

pub record SettlementRequest : Type 0 where
  pub quote_header : String
  pub payment_signature : String
  pub usdc_mint : String
  pub cluster : Option String

pub record VerificationResult : Type 0 where
  pub quote : Payload
  pub tx_sig : String
  pub block_time : Option String
  pub solana_explorer : String

-- The link for a transaction; the default cluster is "devnet".
abbrev pub explorer_link : Option String → String → String
explorer_link none signature = "https://explorer.solana.com/tx/" ++ signature ++ "?cluster=devnet"
explorer_link (some cluster) signature =
    "https://explorer.solana.com/tx/"
    ++ signature
    ++ (if cluster === "mainnet-beta" then "" else "?cluster=" ++ cluster)

-- `BigInt(a) === b`, where `BigInt` throws on what is no integer.
abbrev pub is_amount : BigInt → ℕ → Result SettlementError Bool
is_amount (natural n) amount = ok (n == amount)
is_amount (negative n) amount = ok false
is_amount not_an_integer amount = err unexpected

-- The test of step 9, as each of the two functions writes it.
abbrev pub mint_recorded : String → TransferInfo → Bool
mint_recorded mint info = says info.mint mint

abbrev pub mint_executed : String → TransferInfo → Bool
mint_executed mint info = is_truthy info.mint && says info.mint mint

module _ (c : Chain) where
  -- Steps 4 to 6.
  unfoldable pub fetch_transaction : String → Result SettlementError Transaction
  fetch_transaction signature = do
    bytes ← or_throw (c.base58_decode signature) invalid_payment_signature
    require (length bytes == 64) invalid_payment_signature
    tx ← or_throw (c.get_transaction signature) transaction_not_found
    require (not tx.failed) transaction_failed
    require (ltb 0 tx.slot) transaction_not_confirmed
    ok tx

  -- The id as the program looks for it in a memo.
  abbrev pub id_of : Payload → String
  id_of quote = elim (as_string (get quote "quote_id")) [
    | some id ↦ id
    | none ↦ c.to_text (get quote "quote_id")
  ]

  unfoldable pub memo_matches : Payload → String → Result SettlementError (Unit {0})
  memo_matches quote memo =
      if says (get quote "memo_policy") "quote_id_required"
      then require (includes memo (id_of quote)) memo_mismatch
      else if says (get quote "memo_policy") "hash_required"
      then require (includes memo (c.quote_hash (obj quote))) memo_mismatch
      else ok tt

  -- Steps 11 and 12. The hash is a text of 64 digits, so that `!hash` is false.
  unfoldable pub check_memo : Payload → Transaction → Result SettlementError (Unit {0})
  unfolding memo_matches
  check_memo quote tx =
      if says (get quote "memo_policy") "optional"
      then ok tt
      else do memo ← or_throw (nonempty (extract_memo c tx)) memo_missing; memo_matches quote memo

module _ (x : Externals) (c : Chain) (decimals : Dict ℕ) where
  -- Steps 7 to 10.
  unfoldable pub check_transfer :
      (TransferInfo → Bool) → String → Payload → Transaction → Result SettlementError (Unit {0})
  check_transfer mint_matched mint quote tx = do
    key ← or_throw (key_of x (as_string (get quote "seller"))) malformed_quote_header
    price ← or_throw (as_string (get quote "final_price")) unexpected
    amount ← or_throw (normalize_amount price mint decimals) unexpected
    destination ← or_throw (c.token_account mint key) unexpected
    found ← extract_spl_transfer c tx
    info ← or_throw found transfer_instruction_missing
    require (says info.destination destination) transfer_destination_mismatch
    require (mint_matched info) transfer_mint_mismatch
    paid ← is_amount (c.big_int info.amount) amount
    require paid price_mismatch

  unfoldable pub verify_settlement :
      ℕ → SettlementRequest → Result SettlementError VerificationResult
  verify_settlement now request = do
    quote ← quote_for_recording x now (c.decode_header request.quote_header)
    tx ← fetch_transaction c request.payment_signature
    check_transfer (mint_recorded request.usdc_mint) request.usdc_mint quote tx
    check_memo c quote tx
    ok (record {
      quote = quote;
      tx_sig = request.payment_signature;
      block_time = elim tx.block_time [
        | none ↦ none
        | some t ↦ if t == 0 then none else some (x.iso_date (t * 1000))
      ];
      solana_explorer = explorer_link request.cluster request.payment_signature;
    })

  -- Steps 1 to 15 of `verifyAndExecute`. The quote is verified at `now`; the node has answered by
  -- `later`, when `consumed` are the quote ids in the set of nonces.
  unfoldable pub admit_execution :
      ℕ → ℕ → List (Option Value) → SettlementRequest → Result SettlementError Payload
  admit_execution now later consumed request = do
    quote ← quote_for_execution x now (c.decode_header request.quote_header)
    tx ← fetch_transaction c request.payment_signature
    check_transfer (mint_executed request.usdc_mint) request.usdc_mint quote tx
    check_memo c quote tx
    require (is_nonce (coerced x (get quote "nonce"))) nonce_refused
    require (not (is_nonce_consumed (get quote "quote_id") consumed)) nonce_replayed
    require (is_after (x.parse_date (coerced x (get quote "expires_at"))) later) quote_expired
    ok quote

  -- Steps 16 and 17, once the executor has returned or thrown: the outcome, and the set of nonces.
  unfoldable pub finish_execution :
      Bool → Payload → List (Option Value) → Result SettlementError (Unit {0}) × List (Option Value)
  finish_execution true quote consumed = (ok tt, consume_nonce (get quote "quote_id") consumed)
  finish_execution false quote consumed = (err execution_failed, consumed)

  -- `verifyAndExecute` when no other request comes in between.
  unfoldable pub verify_and_execute :
      ℕ
      → ℕ
      → Bool
      → List (Option Value)
      → SettlementRequest
      → Result SettlementError (Unit {0}) × List (Option Value)
  verify_and_execute now later succeeds consumed request =
      elim (admit_execution now later consumed request) [
        | ok quote ↦ finish_execution succeeds quote consumed
        | err e ↦ (err e, consumed)
      ]

-- receipt.ts
pub record DealReceipt : Type 0 where
  pub quote_id : Option Value
  pub final_price : Option Value
  pub buyer_pubkey : Option Value
  pub seller_pubkey : Option Value
  pub settled_at : String
  pub explorer_tx : String

abbrev pub text_of_key : Option String → Option Value → Option Value
text_of_key none did = did
text_of_key (some key) did = some (str key)

module _ (x : Externals) where
  -- `buildReceipt`, but for the time that the settlement took.
  unfoldable pub build_receipt : Payload → String → ℕ → Option String → DealReceipt
  build_receipt quote signature now cluster = record {
    quote_id = get quote "quote_id";
    final_price = get quote "final_price";
    buyer_pubkey = text_of_key (key_of x (as_string (get quote "buyer"))) (get quote "buyer");
    seller_pubkey = text_of_key (key_of x (as_string (get quote "seller"))) (get quote "seller");
    settled_at = x.iso_date now;
    explorer_tx = explorer_link cluster signature;
  }
