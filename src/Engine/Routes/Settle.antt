-- ===== src/Engine/Routes/Settle.antt =====
-- packages/engine/src/routes/execute.ts and settle-report.ts: two ways to record that a committed
-- quote is paid, POST /execute by the buyer and POST /rfqs/:id/settle-report by the seller.
pub mod Recorded
pub mod Once
use ghost_bazaar.Prelude.{
  ℕ, leb, ltb, String, ◌===◌, Bool, true, false, ◌&&◌, List, [], ◌∷◌, any, Option, none, some,
  Result, ok, err, ◌>>=◌, ◌>>◌, require, or_throw, if◌then◌else◌,
}
use ghost_bazaar.Prelude.Dict.{Dict}
use ghost_bazaar.Prelude.Json.{
  Value, null, boolean, num, str, obj, Payload, field, end, get, put, as_string, as_object,
  opt_field,
}
use ghost_bazaar.Core.External.{Externals}
use ghost_bazaar.Core.Schemas.{says, member}
use ghost_bazaar.Engine.Types.{
  NegotiationEvent, EventType, settlement_confirmed, committed, is_state,
}
use ghost_bazaar.Engine.Session.{DerivedSession, is_selected}
use ghost_bazaar.Engine.EventStore.{get_all_events}
use ghost_bazaar.Engine.SessionManager.{
  SessionManager, ManagerError, get_session, append_event, enter_lock, leave_lock,
}
use ghost_bazaar.Engine.Http.{Failure, http, Reply, Moment, lift}
use ghost_bazaar.Engine.ControlEnvelope.{nonempty}
use ghost_bazaar.Engine.Routes.Cosign.{or_blank}
use ghost_bazaar.Settlement.{SettlementError, unexpected, error_code, http_status}
use ghost_bazaar.Settlement.Transaction.{Chain}
use ghost_bazaar.Settlement.Execute.{SettlementRequest, VerificationResult, verify_settlement}

-- `e.type === "SETTLEMENT_CONFIRMED"`
abbrev pub is_settlement : EventType → Bool
is_settlement settlement_confirmed = true
is_settlement _ = false

abbrev pub already_settled : List NegotiationEvent → Bool
already_settled = any (λ e. is_settlement e.type)

-- `result.verification`; every test of a verification that succeeds came out true.
abbrev pub verification : VerificationResult → Payload
verification r = field "amount_matched" (boolean true) (
    field "mint_matched" (boolean true) (
      field "destination_matched" (boolean true) (
        field "memo_matched" (boolean true) (
          field "confirmations" (num 1) (
            field "block_time" (elim r.block_time [ none ↦ null | some t ↦ str t ])
              (field "solana_explorer" (str r.solana_explorer) end))))))

abbrev pub settlement_event : String → Option Value → VerificationResult → Moment → NegotiationEvent
settlement_event rfq_id quote_id r t = record {
  event_id = t.uuid;
  rfq_id = rfq_id;
  type = settlement_confirmed;
  timestamp = t.timestamp;
  actor = "system:settlement-verifier";
  payload = field "tx_sig" (str r.tx_sig) (
      opt_field "quote_id" quote_id (
        opt_field "final_price" (get r.quote "final_price") (
          opt_field "buyer" (get r.quote "buyer") (
            opt_field "seller" (get r.quote "seller") (
              field "verified_at" (str t.timestamp)
                (field "verification" (obj (verification r)) end))))));
}

unfoldable pub append_unless :
    Bool → String → NegotiationEvent → ℕ → SessionManager → Result ManagerError SessionManager
append_unless true k e now m = ok (leave_lock k m)
append_unless false k e now m = do (s, m₁) ← append_event k e now m; ok (leave_lock k m₁)

-- The section under the lock: nothing is appended if the log holds a settlement.
unfoldable pub record_settlement :
    String
    → Option Value
    → VerificationResult
    → Moment
    → SessionManager
    → Result ManagerError SessionManager
unfolding append_unless
record_settlement k quote_id r t m = do
  (session, m₁) ← get_session k t.now (enter_lock k m)
  append_unless (already_settled (get_all_events k m₁.store)) k (settlement_event k quote_id r t)
      t.now m₁

-- `session.unsignedQuote?.quote_id`, where the empty text counts as none.
abbrev pub committed_quote_id : DerivedSession → Option String
committed_quote_id s = nonempty (as_string (member s.unsigned_quote "quote_id"))

abbrev pub check_quote_id : DerivedSession → Option Value → Reply (Unit {0})
check_quote_id s quote_id = elim (committed_quote_id s) [
  | none ↦ ok tt
  | some id ↦ require (says quote_id id) (http 422 "quote_mismatch")
]

-- The answer to a settlement error: a status from 400 to 499 stays, and any other becomes 422. What is
-- thrown by a library, or by the session manager, gets the handler's own answer.
abbrev pub answer : Failure → SettlementError → Failure
answer other unexpected = other
answer other e =
    let status = http_status e in
    http (if leb 400 status && ltb status 500 then status else 422) (error_code e)

abbrev pub or_answer {ℓ} : {A : Type ℓ} → Failure → Result SettlementError A → Reply A
or_answer other (ok a) = ok a
or_answer other (err e) = err (answer other e)

abbrev pub caught {ℓ} : {A : Type ℓ} → Failure → Result ManagerError A → Reply A
caught other (ok a) = ok a
caught other (err e) = err other

-- `quoteWithSigs`
abbrev pub quote_with_signatures : DerivedSession → Option Payload
quote_with_signatures s = elim s.unsigned_quote [
  | some (obj q) ↦ some (
      put "seller_signature" (str (or_blank s.seller_signature))
        (put "buyer_signature" (str (or_blank s.buyer_signature)) q))
  | _ ↦ none
]

module _ (x : Externals) (c : Chain) (decimals : Dict ℕ) (mint : String)
    (cluster : Option String) where
  -- `before` is the manager when the node has answered, `m` the manager when the lock is granted.
  unfoldable pub post_execute :
      Option String
      → Option String
      → ℕ
      → SessionManager
      → Moment
      → SessionManager
      → Reply (VerificationResult × SessionManager)
  post_execute quote_header payment_signature now before t m = do
    header ← or_throw (nonempty quote_header) (http 400 "malformed_quote_header")
    signature ← or_throw (nonempty payment_signature) (http 400 "invalid_payment_signature")
    r ← or_answer (http 500 "internal_error") (
        verify_settlement x c decimals now (record {
          quote_header = header;
          payment_signature = signature;
          usdc_mint = mint;
          cluster = cluster;
        }))
    k ← or_throw (as_string (get r.quote "rfq_id")) (http 404 "session_not_found")
    (session, _) ← caught (http 500 "internal_error") (get_session k now before)
    s ← or_throw session (http 404 "session_not_found")
    require (is_state s.state committed) (http 409 "invalid_state")
    check_quote_id s (get r.quote "quote_id")
    m' ← caught (http 500 "internal_error") (record_settlement k (get r.quote "quote_id") r t m)
    ok (r, m')

  -- `caller` is the DID that `authenticateCaller` has found; a body that is no JSON is `none`.
  unfoldable pub post_settle_report :
      String
      → String
      → Option Payload
      → ℕ
      → SessionManager
      → Moment
      → SessionManager
      → Reply (VerificationResult × SessionManager)
  post_settle_report k caller body now before t m = do
    (session, _) ← lift (get_session k now before)
    s ← or_throw session (http 404 "session_not_found")
    require (is_state s.state committed) (http 409 "invalid_state")
    require (is_selected caller s.selected_seller) (http 403 "forbidden")
    b ← or_throw body (http 500 "internal_error")
    signature ← or_throw (nonempty (as_string (get b "tx_sig"))) (http 400 "bad_request")
    quote_id ← or_throw (nonempty (as_string (get b "quote_id"))) (http 400 "bad_request")
    check_quote_id s (some (str quote_id))
    quote ← or_throw (quote_with_signatures s) (http 409 "no_quote")
    r ← or_answer (http 422 "verification_failed") (
        verify_settlement x c decimals now (record {
          quote_header = c.encode_header (obj quote);
          payment_signature = signature;
          usdc_mint = mint;
          cluster = cluster;
        }))
    m' ← caught (http 422 "verification_failed") (record_settlement k (some (str quote_id)) r t m)
    ok (r, m')
