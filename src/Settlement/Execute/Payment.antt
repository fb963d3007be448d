-- ===== src/Settlement/Execute/Payment.antt =====
-- What a settlement that is accepted says of the chain: the seller was paid the price of the quote.
use ghost_bazaar.Prelude.{
  ℕ, ◌<◌, String, ===_iff, ◌≡◌, ap, ◌∙◌, subst, true, false, not, ◌==◌, ltb, ltb→lt, Bool,
  Bool-cases, List, length, Option, none, some, ◌⊎◌, inl, inr, ok, >>=-eq-ok, require-eq-ok,
  require-true, or_throw, arith,
}
use ghost_bazaar.Prelude.Dict.{Dict}
use ghost_bazaar.Prelude.Json.{Value, str, obj, Payload, get, as_string}
use ghost_bazaar.Core.External.{Externals}
use ghost_bazaar.Core.Amounts.{normalize_amount}
use ghost_bazaar.Core.Schemas.{says, coerced, is_nonce, is_after}
use ghost_bazaar.Core.Quotes.{key_of}
use ghost_bazaar.Engine.ControlEnvelope.{nonempty}
use ghost_bazaar.Engine.Session.Inversion.{or_throw-eq-ok}
use ghost_bazaar.Settlement.{quote_for_recording, quote_for_execution, is_nonce_consumed}
use ghost_bazaar.Settlement.Transaction.{
  Chain, Transaction, TransferInfo, BigInt, natural, negative, not_an_integer, extract_spl_transfer,
}
use ghost_bazaar.Settlement.Transaction.Found.{Transfers, extract_spl_transfer-Transfers}
use ghost_bazaar.Settlement.Memo.{includes, extract_memo}
use ghost_bazaar.Settlement.Execute.{
  SettlementRequest, VerificationResult, is_amount, mint_recorded, mint_executed, fetch_transaction,
  check_transfer, id_of, memo_matches, check_memo, verify_settlement, admit_execution,
}

module _ (x : Externals) (c : Chain) (decimals : Dict ℕ) where
  -- The node knows the transaction, it succeeded and has a slot.
  abbrev pub IsConfirmed : String → Transaction → Type 0
  IsConfirmed signature tx =
      (c.get_transaction signature ≡ some tx) × (tx.failed ≡ false) × (0 < tx.slot)

  -- The price of the quote in units of the mint, and the seller's account for the mint.
  abbrev pub IsOwed : String → Payload → ℕ → String → Type 0
  IsOwed mint quote amount account =
      (key price : String) × (key_of x (as_string (get quote "seller")) ≡ some key)
      × (as_string (get quote "final_price") ≡ some price)
      × (normalize_amount price mint decimals ≡ some amount)
      × (c.token_account mint key ≡ some account)

  -- A checked transfer in the transaction moves that amount of the mint to that account.
  abbrev pub PaysTo : Transaction → String → ℕ → String → Type 0
  PaysTo tx mint amount account =
      (info : TransferInfo) × Transfers c tx info
      × (info.destination ≡ some (str account))
      × (info.mint ≡ some (str mint))
      × (c.big_int info.amount ≡ natural amount)

  -- The memo holds what the policy of the quote asks for.
  abbrev pub IsNoted : Payload → Transaction → Type 0
  IsNoted quote tx =
      (says (get quote "memo_policy") "optional" ≡ true)
      ⊎ ((memo : String) × (extract_memo c tx ≡ some memo)
          × (says (get quote "memo_policy") "quote_id_required" ≡ true
              → includes memo (id_of c quote) ≡ true)
          × (says (get quote "memo_policy") "hash_required" ≡ true
              → says (get quote "memo_policy") "quote_id_required" ≡ false
              → includes memo (c.quote_hash (obj quote)) ≡ true))

  abbrev pub IsPaid : SettlementRequest → Payload → Type 0
  IsPaid request quote =
      (tx : Transaction) × (amount : ℕ) × (account : String) × IsConfirmed request.payment_signature
        tx
      × IsOwed request.usdc_mint quote amount account
      × PaysTo tx request.usdc_mint amount account
      × IsNoted quote tx

  says-eq_some : (o : Option Value) (s : String) → says o s ≡ true → o ≡ some (str s)
  says-eq_some none s h = absurd (cc)
  says-eq_some (some (str t)) s h = ap (λ u. some (str u)) ((===_iff t s).0 h)
  says-eq_some (some _) s h = absurd (cc)

  is_amount-eq : (b : BigInt) (n : ℕ) → is_amount b n ≡ ok true → b ≡ natural n
  is_amount-eq (natural m) n h =
      let same : (m == n) ≡ true = cc in ap natural (ground (arith, same))
  is_amount-eq (negative m) n h = absurd (cc)
  is_amount-eq not_an_integer n h = absurd (cc)

  fetch_transaction-IsConfirmed :
      (signature : String) (tx : Transaction)
      → fetch_transaction c signature ≡ ok tx
      → IsConfirmed signature tx
  unfolding fetch_transaction
  fetch_transaction-IsConfirmed signature tx h =
      let (bytes, _, h₁) = >>=-eq-ok (or_throw (c.base58_decode signature) _) _ h in
      let (_, h₂) = require-eq-ok (length bytes == 64) _ _ h₁ in
      let (t, found, h₃) = >>=-eq-ok (or_throw (c.get_transaction signature) _) _ h₂ in
      let (worked, h₄) = require-eq-ok (not t.failed) _ _ h₃ in
      let (slot, done) = require-eq-ok (ltb 0 t.slot) _ _ h₄ in
      let same : t ≡ tx = cc in
      subst (IsConfirmed signature) same
        (or_throw-eq-ok _ _ found, ground arith, ltb→lt 0 t.slot slot)

  check_transfer-PaysTo :
      (test : TransferInfo → Bool) (mint : String) (quote : Payload) (tx : Transaction)
      → ((info : TransferInfo) → test info ≡ true → says info.mint mint ≡ true)
      → check_transfer x c decimals test mint quote tx ≡ ok tt
      → (amount : ℕ) × (account : String) × IsOwed mint quote amount account
        × PaysTo tx mint amount account
  unfolding check_transfer
  check_transfer-PaysTo test mint quote tx names h =
      let (key, seller, h₁) =
        >>=-eq-ok (or_throw (key_of x (as_string (get quote "seller"))) _) _ h in
      let (price, text, h₂) = >>=-eq-ok (or_throw (as_string (get quote "final_price")) _) _ h₁ in
      let (amount, units, h₃) =
        >>=-eq-ok (or_throw (normalize_amount price mint decimals) _) _ h₂ in
      let (account, owned, h₄) = >>=-eq-ok (or_throw (c.token_account mint key) _) _ h₃ in
      let (found, extracted, h₅) = >>=-eq-ok (extract_spl_transfer c tx) _ h₄ in
      let (info, there, h₆) = >>=-eq-ok (or_throw found _) _ h₅ in
      let (destination, h₇) = require-eq-ok (says info.destination account) _ _ h₆ in
      let (matched, h₈) = require-eq-ok (test info) _ _ h₇ in
      let minted = says-eq_some info.mint mint (names info matched) in
      let (equal, compared, h₉) = >>=-eq-ok (is_amount (c.big_int info.amount) amount) _ h₈ in
      let paid =
        is_amount-eq (c.big_int info.amount) amount (compared ∙ ap ok (require-true _ _ h₉)) in
      (
        amount,
        account,
        (
          key,
          price,
          or_throw-eq-ok _ _ seller,
          or_throw-eq-ok _ _ text,
          or_throw-eq-ok _ _ units,
          or_throw-eq-ok _ _ owned,
        ),
        (
          info,
          extract_spl_transfer-Transfers c tx info (str mint)
              (extracted ∙ ap ok (or_throw-eq-ok _ _ there)) minted,
          says-eq_some info.destination account destination,
          minted,
          paid,
        ),
      )

  nonempty-eq_some : (o : Option String) (s : String) → nonempty o ≡ some s → o ≡ some s
  nonempty-eq_some none s h = absurd (cc)
  nonempty-eq_some (some t) s h = ground arith

  check_memo-IsNoted :
      (quote : Payload) (tx : Transaction) → check_memo c quote tx ≡ ok tt → IsNoted quote tx
  unfolding check_memo memo_matches
  check_memo-IsNoted quote tx h = elim (Bool-cases (says (get quote "memo_policy") "optional")) [
    | inl optional ↦ inl optional
    | inr other ↦
        let (memo, found, matches) =
          >>=-eq-ok (or_throw (nonempty (extract_memo c tx)) _) _ (rw other at h) in
        inr (
          memo,
          nonempty-eq_some _ _ (or_throw-eq-ok _ _ found),
          λ policy. require-true _ _ (rw policy at matches),
          λ policy unlike. require-true _ _ (rw (unlike, policy) at matches),
        )
  ]

  -- What verifySettlement accepts is paid: the node knows the transaction, it succeeded and has a
  -- slot; a checked transfer that stands in it moves exactly the price, in units of the mint, to
  -- the account of the quote's seller; and the memo holds what the policy of the quote asks for.
  pub recorded-IsPaid :
      (now : ℕ) (request : SettlementRequest) (r : VerificationResult)
      → verify_settlement x c decimals now request ≡ ok r
      → IsPaid request r.quote
  unfolding verify_settlement
  recorded-IsPaid now request r h =
      let (quote, _, h₁) =
        >>=-eq-ok (quote_for_recording x now (c.decode_header request.quote_header)) _ h in
      let (tx, fetched, h₂) = >>=-eq-ok (fetch_transaction c request.payment_signature) _ h₁ in
      let (_, transferred, h₃) =
        >>=-eq-ok (check_transfer x c decimals (mint_recorded request.usdc_mint) _ quote tx) _ h₂ in
      let (_, noted, h₄) = >>=-eq-ok (check_memo c quote tx) _ h₃ in
      let (amount, account, owed, pays) =
        check_transfer-PaysTo (mint_recorded request.usdc_mint) request.usdc_mint quote tx
          (λ info t. t) transferred in
      let same : quote ≡ r.quote = cc in
      subst (IsPaid request) same (
        tx,
        amount,
        account,
        fetch_transaction-IsConfirmed request.payment_signature tx fetched,
        owed,
        pays,
        check_memo-IsNoted quote tx noted,
      )

  -- A request that passes the first 15 steps of verifyAndExecute is paid in the same sense; its
  -- quote passed the first three steps, its id is not in the set of nonces, and it has not
  -- expired when the node has answered.
  pub executed-IsPaid :
      (now later : ℕ) (consumed : List (Option Value)) (request : SettlementRequest)
      (quote : Payload)
      → admit_execution x c decimals now later consumed request ≡ ok quote
      → IsPaid request quote
        × (quote_for_execution x now (c.decode_header request.quote_header) ≡ ok quote)
        × (is_nonce_consumed (get quote "quote_id") consumed ≡ false)
        × (is_after (x.parse_date (coerced x (get quote "expires_at"))) later ≡ true)
  unfolding admit_execution
  executed-IsPaid now later consumed request quote h =
      let (q, verified, h₁) =
        >>=-eq-ok (quote_for_execution x now (c.decode_header request.quote_header)) _ h in
      let (tx, fetched, h₂) = >>=-eq-ok (fetch_transaction c request.payment_signature) _ h₁ in
      let (_, transferred, h₃) =
        >>=-eq-ok (check_transfer x c decimals (mint_executed request.usdc_mint) _ q tx) _ h₂ in
      let (_, noted, h₄) = >>=-eq-ok (check_memo c q tx) _ h₃ in
      let (_, h₅) = require-eq-ok (is_nonce (coerced x (get q "nonce"))) _ _ h₄ in
      let (unused, h₆) =
        require-eq-ok (not (is_nonce_consumed (get q "quote_id") consumed)) _ _ h₅ in
      let (unexpired, done) =
        require-eq-ok (is_after (x.parse_date (coerced x (get q "expires_at"))) later) _ _ h₆ in
      let (amount, account, owed, pays) =
        check_transfer-PaysTo (mint_executed request.usdc_mint) request.usdc_mint q tx
          (λ info t. ground arith) transferred in
      let same : q ≡ quote = cc in
      (
        subst (IsPaid request) same (
          tx,
          amount,
          account,
          fetch_transaction-IsConfirmed request.payment_signature tx fetched,
          owed,
          pays,
          check_memo-IsNoted q tx noted,
        ),
        verified ∙ ap ok same,
        subst (λ p. is_nonce_consumed (get p "quote_id") consumed ≡ false) same (ground arith),
        subst (λ p. is_after (x.parse_date (coerced x (get p "expires_at"))) later ≡ true) same
            unexpired,
      )
