-- ===== src/Settlement/Transaction.antt =====
-- packages/settlement/src/execute.ts: what the helpers at its end read from a Solana transaction, the
-- token transfer and the memo.
pub mod Found
pub mod Amount
use Prim.Native.String.{slice, len, find as position}
use text.Mathlib.Text.{starts_with}
use ghost_bazaar.Prelude.{
  ℕ, zero, suc, ◌+◌, ◌-◌, ◌*◌, ◌^◌, String, ◌===◌, Bool, true, false, not, ◌&&◌, ◌||◌, ◌==◌, leb,
  List, [], ◌∷◌, ◌++◌, length, get_elem?, Option, none, some, any, Result, ok, err, ◌>>=◌, or_throw,
  if◌then◌else◌,
}
use ghost_bazaar.Prelude.Json.{Value, null, str}
use ghost_bazaar.Prelude.Text.{codes, is_digit}
use ghost_bazaar.Core.Schemas.{is_truthy, member, says}
use ghost_bazaar.Settlement.{SettlementError, unexpected}

-- An instruction of the message or of a call inside it. `parsed` is there if the node decoded it.
pub record Instruction : Type 0 where
  pub parsed : Option Value
  pub program_id : Option String
  pub program : Option String
  pub program_id_index : ℕ
  pub accounts : List ℕ
  pub raw_data : Option String

-- The fields of the RPC's answer that the program reads. `account_keys` is missing in a message whose
-- keys stand elsewhere; `failed` is a truthy `meta.err`.
pub record Transaction : Type 0 where
  pub failed : Bool
  pub slot : ℕ
  pub block_time : Option ℕ
  pub instructions : List Instruction
  pub account_keys : Option (List String)
  pub inner_instructions : List (List Instruction)
  pub log_messages : List String

pub record TransferInfo : Type 0 where
  pub source : Option Value
  pub destination : Option Value
  pub amount : Value
  pub mint : Option Value

-- The outcomes of `BigInt(v)`.
pub data BigInt : Type 0 where
  natural : ℕ → BigInt
  negative : ℕ → BigInt
  not_an_integer : BigInt

-- The libraries and the chain: the JSON in a base64 text and back, base58, UTF-8, `String(v)` and `BigInt(v)` of the runtime, the RPC node,
-- the address of the token account of an owner and a mint, SHA-256 over the canonical quote.
pub record Chain : Type 0 where
  pub decode_header : String → Option Value
  pub encode_header : Value → String
  pub base58_decode : String → Option (List ℕ)
  pub utf8 : List ℕ → String
  pub to_text : Option Value → String
  pub big_int : Value → BigInt
  pub show_number : ℕ → String
  pub get_transaction : String → Option Transaction
  pub token_account : String → String → Option String
  pub quote_hash : Value → String

abbrev pub token_program : String
token_program = "TokenkegQfeZyiNwAJbNbGKPFXCWuBvf9Ss623VQ5DA"

-- `MEMO_PROGRAM_V2` and `MEMO_PROGRAM_V1`
abbrev pub is_memo_program : String → Bool
is_memo_program id =
    id === "MemoSq4gqABAXKb96qnH8TysNcWxMyWCqXgDLGmfcHr"
    || id === "Memo1UhkJBfCR1EPHNqwLDxhZMM2Yfc3G2YfZeVMQwE1"

-- `ix.programId?.toString?.() ?? ix.program ?? ""`
abbrev pub program_of : Instruction → String
program_of ix = elim ix.program_id [
  | some id ↦ id
  | none ↦ elim ix.program [ some name ↦ name | none ↦ "" ]
]

abbrev pub is_named : Option String → String → Bool
is_named none name = false
is_named (some s) name = s === name

abbrev pub non_null : Option Value → Option Value
non_null (some null) = none
non_null v = v

-- The part of `collectInstructions` for the calls inside the transaction.
unfoldable pub flatten : List (List Instruction) → List Instruction
flatten [] = []
flatten (ixs ∷ rest) = ixs ++ flatten rest

unfoldable pub collect_instructions : Transaction → List Instruction
unfolding flatten
collect_instructions tx = tx.instructions ++ flatten tx.inner_instructions

abbrev pub value_of : Option ℕ → ℕ
value_of none = 0
value_of (some b) = b

abbrev pub byte_at : List ℕ → ℕ → ℕ
byte_at bytes i = value_of (get_elem? bytes i)

-- The loop of `readU64LE`, with the rounds that are left. The bits of a byte are new, so that `|=`
-- adds them; the callers have checked that the bytes are there.
unfoldable pub read_rounds : ℕ → List ℕ → ℕ → ℕ → ℕ → ℕ
read_rounds zero bytes offset i value = value
read_rounds (suc left) bytes offset i value =
    read_rounds left bytes offset (suc i) (value + byte_at bytes (offset + i) * 2 ^ (i * 8))

unfoldable pub read_u64_le : List ℕ → ℕ → ℕ
unfolding read_rounds
read_u64_le bytes offset = read_rounds 8 bytes offset 0 0

-- `String(key)` of a key that is not there is "undefined".
unfoldable pub resolve_account_key : List String → Option ℕ → String
resolve_account_key keys none = "undefined"
resolve_account_key keys (some i) = elim (get_elem? keys i) [ none ↦ "undefined" | some key ↦ key ]

module _ (c : Chain) where
  -- `parsed.info.tokenAmount?.amount ?? String(parsed.info.amount)`
  abbrev pub checked_amount : Option Value → Value
  checked_amount info = elim (non_null (member (member info "tokenAmount") "amount")) [
    | some v ↦ v
    | none ↦ str (c.to_text (member info "amount"))
  ]

  -- The body of the first loop of `extractSplTransfer`.
  unfoldable pub parsed_transfer : Instruction → Option TransferInfo
  parsed_transfer ix =
      let info = member ix.parsed "info" in
      if not (is_truthy ix.parsed)
      then none
      else if not (program_of ix === token_program || is_named ix.program "spl-token")
      then none
      else if says (member ix.parsed "type") "transferChecked" && is_truthy info
      then some (record {
        source = member info "source";
        destination = member info "destination";
        amount = checked_amount info;
        mint = non_null (member info "mint");
      })
      else if says (member ix.parsed "type") "transfer" && is_truthy info
      then some (record {
        source = member info "source";
        destination = member info "destination";
        amount = str (c.to_text (member info "amount"));
        mint = none;
      })
      else none

  unfoldable pub first_parsed : List Instruction → Option TransferInfo
  first_parsed [] = none
  first_parsed (ix ∷ ixs) = elim (parsed_transfer ix) [
    | some info ↦ some info
    | none ↦ first_parsed ixs
  ]

  -- A transfer (type 3) or a checked transfer (type 12) in the bytes of an instruction.
  unfoldable pub transfer_of_bytes : List String → List ℕ → List ℕ → Option TransferInfo
  transfer_of_bytes keys accounts bytes =
      if byte_at bytes 0 == 3 && leb 9 (length bytes)
      then some (record {
        source = some (str (resolve_account_key keys (get_elem? accounts 0)));
        destination = some (str (resolve_account_key keys (get_elem? accounts 1)));
        amount = str (c.show_number (read_u64_le bytes 1));
        mint = none;
      })
      else if byte_at bytes 0 == 12 && leb 10 (length bytes)
      then some (record {
        source = some (str (resolve_account_key keys (get_elem? accounts 0)));
        destination = some (str (resolve_account_key keys (get_elem? accounts 2)));
        amount = str (c.show_number (read_u64_le bytes 1));
        mint = some (str (resolve_account_key keys (get_elem? accounts 1)));
      })
      else none

  -- The body of the second loop. base58 may throw.
  unfoldable pub raw_transfer :
      List String → Instruction → Result SettlementError (Option TransferInfo)
  unfolding transfer_of_bytes
  raw_transfer keys ix = elim ix.raw_data [
    | none ↦ ok none
    | some text ↦
        if is_named (get_elem? keys ix.program_id_index) token_program && not (text === "")
        then (do
          bytes ← or_throw (c.base58_decode text) unexpected
          ok (transfer_of_bytes keys ix.accounts bytes))
        else ok none
  ]

  unfoldable pub first_raw :
      List String → List Instruction → Result SettlementError (Option TransferInfo)
  first_raw keys [] = ok none
  first_raw keys (ix ∷ ixs) = do
    found ← raw_transfer keys ix
    elim found [ some info ↦ ok (some info) | none ↦ first_raw keys ixs ]

  unfoldable pub extract_spl_transfer : Transaction → Result SettlementError (Option TransferInfo)
  extract_spl_transfer tx = elim (first_parsed (collect_instructions tx)) [
    | some info ↦ ok (some info)
    | none ↦ elim tx.account_keys [ none ↦ ok none | some keys ↦ first_raw keys tx.instructions ]
  ]
