-- ===== src/Examples/Chain.antt =====
-- A payment on the chain for the quote of the examples, and what the theorems on it say.
use ghost_bazaar.Prelude.{
  ℕ, ◌≡◌, refl, ◌===◌, any, true, false, List, [], ◌∷◌, ◌++◌, length, Option, none, some, ok,
  if◌then◌else◌, arith,
}
use ghost_bazaar.Prelude.Dict.{lookup}
use ghost_bazaar.Prelude.Json.{Value, Payload, arr, cons, nil, str, obj, field, end, get, put}
use ghost_bazaar.Prelude.Text.{matches}
use ghost_bazaar.Core.Amounts.{
  devnet_usdc, mint_decimals, normalize_amount, normalize_with_decimals, normalize_parts,
  split_point, is_decimal, all_digits, read_digits, fit,
}
use ghost_bazaar.Core.Schemas.{says, coerced, is_after, is_nonce}
use ghost_bazaar.Core.Quotes.{verify_quote}
use ghost_bazaar.Settlement.{
  is_nonce_consumed, consume_nonce, quote_for_execution, quote_for_recording, read_quote_header,
  execution_outcome, recording_outcome,
}
use ghost_bazaar.Settlement.Transaction.{
  Chain, Transaction, Instruction, natural, not_an_integer, collect_instructions, first_parsed,
  parsed_transfer, extract_spl_transfer, token_program, read_u64_le,
}
use ghost_bazaar.Settlement.Transaction.Amount.{le_bytes, read_u64_le-le_bytes}
use ghost_bazaar.Settlement.Memo.{extract_memo}
use ghost_bazaar.Settlement.Execute.{
  SettlementRequest, VerificationResult, fetch_transaction, check_transfer, check_memo,
  verify_settlement, admit_execution, finish_execution, verify_and_execute,
}
use ghost_bazaar.Settlement.Execute.Payment.{IsPaid, recorded-IsPaid, executed-IsPaid}
use ghost_bazaar.Settlement.Execute.Once.{
  Executions, nothing_executed, Step, admitted, finished, Serial, started, next, executed_once,
}
use ghost_bazaar.Settlement.Execute.Once.Texts.{texts, IsDistinct}
use ghost_bazaar.Settlement.Execute.Twice.{
  concurrent_requests_execute_twice, array_id_executes_again,
}
use ghost_bazaar.Examples.World.{world, now}
use ghost_bazaar.Examples.Settlements.{final_quote}

abbrev transfer : Instruction
transfer = record {
  parsed = some (
      obj (
        field "type" (str "transferChecked") (
          field "info"
            (obj (
              field "source" (str "buyer-account") (
                field "destination" (str "seller-account") (
                  field "mint" (str devnet_usdc)
                    (field "tokenAmount" (obj (field "amount" (str "28500000") end)) end)))))
            end)));
  program_id = some token_program;
  program = some "spl-token";
  program_id_index = 0;
  accounts = [];
  raw_data = none;
}

abbrev memo : Instruction
memo = record {
  parsed = some (str "GhostBazaar:quote_id:quote-1");
  program_id = none;
  program = some "spl-memo";
  program_id_index = 0;
  accounts = [];
  raw_data = none;
}

abbrev transaction : Transaction
transaction = record {
  failed = false;
  slot = 7;
  block_time = none;
  instructions = memo ∷ transfer ∷ [];
  account_keys = none;
  inner_instructions = [];
  log_messages = [];
}

abbrev pub chain : Chain
chain = record {
  decode_header = λ s. some (obj final_quote);
  encode_header = λ v. "header";
  base58_decode = λ s. some (le_bytes 64 0);
  utf8 = λ bytes. "";
  to_text = λ v. "";
  big_int = λ v. if says (some v) "28500000" then natural 28500000 else not_an_integer;
  show_number = λ n. "1";
  get_transaction = λ s. if s === "payment-1" then some transaction else none;
  token_account = λ mint key. some "seller-account";
  quote_hash = λ v. "0";
}

abbrev request : SettlementRequest
request = record {
  quote_header = "header";
  payment_signature = "payment-1";
  usdc_mint = devnet_usdc;
  cluster = none;
}

abbrev pub verified : VerificationResult
verified = record {
  quote = final_quote;
  tx_sig = "payment-1";
  block_time = none;
  solana_explorer = "https://explorer.solana.com/tx/payment-1?cluster=devnet";
}

payment_verified : verify_settlement world chain mint_decimals now request ≡ ok verified
unfolding verify_settlement quote_for_recording read_quote_header recording_outcome verify_quote
    fetch_transaction check_transfer extract_spl_transfer first_parsed parsed_transfer
    collect_instructions normalize_amount normalize_with_decimals normalize_parts split_point
    is_decimal all_digits read_digits fit check_memo extract_memo is_nonce matches any get put
    lookup ◌===◌
payment_verified = refl

payment_admitted : admit_execution world chain mint_decimals now now [] request ≡ ok final_quote
unfolding admit_execution quote_for_execution read_quote_header execution_outcome verify_quote
    is_nonce_consumed fetch_transaction check_transfer extract_spl_transfer first_parsed
    parsed_transfer collect_instructions normalize_amount normalize_with_decimals normalize_parts
    split_point is_decimal all_digits read_digits fit check_memo extract_memo is_nonce matches any
    get put lookup ◌===◌
payment_admitted = refl

recorded-IsPaid_example : IsPaid world chain mint_decimals request final_quote
recorded-IsPaid_example =
    recorded-IsPaid world chain mint_decimals now request verified payment_verified

executed-IsPaid_example :
    IsPaid world chain mint_decimals request final_quote
    × (quote_for_execution world now (some (obj final_quote)) ≡ ok final_quote)
    × (is_nonce_consumed (get final_quote "quote_id") [] ≡ false)
    × (is_after (world.parse_date (coerced world (get final_quote "expires_at"))) now ≡ true)
executed-IsPaid_example =
    executed-IsPaid world chain mint_decimals now now [] request final_quote payment_admitted

abbrev tag : List ℕ
tag = 12 ∷ []

read_u64_le-le_bytes_example :
    read_u64_le (tag ++ (le_bytes 8 28500000 ++ 6 ∷ [])) (length tag) ≡ 28500000
read_u64_le-le_bytes_example = read_u64_le-le_bytes 28500000 tag (6 ∷ []) (omega arith)

abbrev executing : Executions
executing = record { consumed = []; running = final_quote ∷ []; completed = [] }

abbrev first_id : Option Value
first_id = some (str "quote-1")

abbrev executed : Executions
executed = record { consumed = first_id ∷ []; running = []; completed = first_id ∷ [] }

executing-Serial : Serial world chain mint_decimals executing
unfolding is_nonce_consumed any
executing-Serial =
    next nothing_executed executing started
      (admitted nothing_executed now now request final_quote payment_admitted) (λ q e. refl)

executed-Serial : Serial world chain mint_decimals executed
unfolding finish_execution consume_nonce is_nonce_consumed any get put ◌===◌
executed-Serial =
    next executing executed executing-Serial (finished executing [] [] final_quote true refl)
      (λ q e. absurd (cc))

executed_once_example : IsDistinct (texts executed.completed)
executed_once_example = executed_once world chain mint_decimals executed executed-Serial

concurrent_requests_execute_twice_example :
    (t u v w : Executions) × Step world chain mint_decimals nothing_executed t
    × Step world chain mint_decimals t u
    × Step world chain mint_decimals u v
    × Step world chain mint_decimals v w
    × (is_nonce_consumed first_id v.consumed ≡ true)
    × (w.completed ≡ first_id ∷ first_id ∷ [])
unfolding get put ◌===◌
concurrent_requests_execute_twice_example =
    concurrent_requests_execute_twice world chain mint_decimals nothing_executed now now now now
      request request final_quote final_quote "quote-1" payment_admitted payment_admitted refl refl

-- The same quote, its id in an array.
abbrev array_quote : Payload
array_quote = put "quote_id" (arr (cons (str "quote-1") nil)) final_quote

abbrev array_chain : Chain
array_chain = record chain { decode_header = λ s. some (obj array_quote) }

array_admitted : admit_execution world array_chain mint_decimals now now [] request ≡ ok array_quote
unfolding admit_execution quote_for_execution read_quote_header execution_outcome verify_quote
    is_nonce_consumed fetch_transaction check_transfer extract_spl_transfer first_parsed
    parsed_transfer collect_instructions normalize_amount normalize_with_decimals normalize_parts
    split_point is_decimal all_digits read_digits fit check_memo extract_memo is_nonce matches any
    get put lookup ◌===◌
array_admitted = refl

array_id_executes_again_example :
    (verify_and_execute world array_chain mint_decimals now now true [] request
      ≡ (ok tt, some (arr (cons (str "quote-1") nil)) ∷ []))
    × (admit_execution world array_chain mint_decimals now now
          (some (arr (cons (str "quote-1") nil)) ∷ [])
          request
        ≡ ok array_quote)
unfolding get put ◌===◌
array_id_executes_again_example =
    array_id_executes_again world array_chain mint_decimals now now [] request array_quote
      (cons (str "quote-1") nil) array_admitted refl
