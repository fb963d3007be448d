-- ===== src/Engine/Routes/Counters.antt =====
-- packages/engine/src/routes/counters.ts: POST /rfqs/:id/counter.
use ghost_bazaar.Prelude.{
  ℕ, ltb, max, String, ◌===◌, not, any, List, [], ◌∷◌, Option, none, some, Result, ok, err, ◌>>=◌,
  ◌>>◌, require, or_throw, if◌then◌else◌,
}
use ghost_bazaar.Prelude.Json.{str, num, Payload, field, end, get, opt_field, as_string}
use ghost_bazaar.Core.External.{Externals}
use ghost_bazaar.Core.Amounts.{normalize_amount, mint_decimals}
use ghost_bazaar.Core.Schemas.{
  Code, invalid_amount, currency_mismatch, invalid_expiry, invalid_round, missing_budget_proof,
  invalid_budget_proof, unexpected_budget_proof, rfq_id_mismatch, validate_counter, says, member,
  is_truthy,
}
use ghost_bazaar.Engine.Types.{NegotiationEvent, counter_sent, negotiating}
use ghost_bazaar.Engine.Session.{DerivedSession, RecordedCounter, has_seller}
use ghost_bazaar.Engine.SessionManager.{SessionManager, get_session}
use ghost_bazaar.Engine.Http.{
  Failure, http, Reply, Moment, lift, text_of, assert_state, has_passed, require_positive_amount,
  mint_for, pre_check_signature_format, verify_signature, locked_append,
}
use ghost_bazaar.Engine.Routes.Offers.{terms_of, check_extensions}

abbrev counter_failure : Code → Failure
counter_failure invalid_amount = http 422 "invalid_amount"
counter_failure currency_mismatch = http 422 "currency_mismatch"
counter_failure invalid_expiry = http 422 "invalid_expiry"
counter_failure invalid_round = http 422 "invalid_round"
counter_failure missing_budget_proof = http 422 "missing_budget_proof"
counter_failure invalid_budget_proof = http 422 "invalid_budget_proof"
counter_failure unexpected_budget_proof = http 422 "unexpected_budget_proof"
counter_failure rfq_id_mismatch = http 400 "rfq_id_mismatch"
counter_failure _ = http 400 "malformed_payload"

abbrev checked_counter : Result Code (Unit {0}) → Reply (Unit {0})
checked_counter (ok u) = ok tt
checked_counter (err c) = err (counter_failure c)

-- `body.round as number`
abbrev pub round_of : Payload → ℕ
round_of body = elim (get body "round") [ some (num n) ↦ n | _ ↦ 0 ]

-- `counters.reduce((max, ct) => Math.max(max, ct.round), 0)`
unfoldable pub max_round : ℕ → List RecordedCounter → ℕ
max_round n [] = n
max_round n (c ∷ cs) = max_round (max n c.round) cs

-- `extractCounterFields`
abbrev signed_counter_fields : Payload → Payload
signed_counter_fields body = opt_field "counter_id" (get body "counter_id") (
    opt_field "rfq_id" (get body "rfq_id") (
      opt_field "round" (get body "round") (
        opt_field "from" (get body "from") (
          opt_field "to" (get body "to") (
            opt_field "price" (get body "price") (
              opt_field "currency" (get body "currency") (
                opt_field "valid_until" (get body "valid_until") (
                  opt_field "signature" (get body "signature") (
                    opt_field "budget_proof" (get body "budget_proof")
                      (opt_field "extensions" (get body "extensions") end))))))))))

abbrev pub counter_event : String → Payload → Moment → NegotiationEvent
counter_event rfq_id body t = record {
  event_id = t.uuid;
  rfq_id = rfq_id;
  type = counter_sent;
  timestamp = t.timestamp;
  actor = text_of body "from";
  payload = field "rfq_id" (str rfq_id) (
      field "counter_id" (str (text_of body "counter_id")) (
        field "round" (num (round_of body)) (
          field "from" (str (text_of body "from")) (
            field "to" (str (text_of body "to")) (
              field "price" (str (text_of body "price")) (
                field "currency" (str (text_of body "currency")) (
                  field "valid_until" (str (text_of body "valid_until")) (
                    field "signature" (str (text_of body "signature")) (
                      opt_field "budget_proof" (get body "budget_proof")
                        (opt_field "extensions" (get body "extensions") end))))))))));
}

module _ (x : Externals) where
  -- Step 9: the proof speaks of this price, and the verifier accepts it.
  unfoldable pub check_proof : Payload → String → Option String → Reply (Unit {0})
  check_proof body currency none = elim (get body "budget_proof") [
    | none ↦ ok tt
    | some p ↦ err (http 422 "unexpected_budget_proof")
  ]
  check_proof body currency (some commitment) =
      if commitment === ""
      then elim (get body "budget_proof") [
        | none ↦ ok tt
        | some p ↦ err (http 422 "unexpected_budget_proof")
      ]
      else do
        require (is_truthy (get body "budget_proof")) (http 422 "missing_budget_proof")
        proof ← or_throw (get body "budget_proof") (http 422 "missing_budget_proof")
        mint ← mint_for currency
        expected ←
            or_throw (normalize_amount (text_of body "price") mint mint_decimals)
              (http 500 "internal_error")
        require (says (member (some proof) "counter_price_scaled") (x.show_number expected))
            (http 422 "proof_price_mismatch")
        require (x.verify_budget_proof proof expected commitment) (http 422 "invalid_budget_proof")

  -- Steps 2 to 10, before the lock, in the order of the specification.
  unfoldable pub check_counter : String → Payload → ℕ → DerivedSession → Reply (Unit {0})
  check_counter rfq_id body now s = do
    checked_counter (validate_counter x now body (terms_of s.rfq))
    require_positive_amount (text_of body "price") s.rfq.currency "invalid_amount"
    check_extensions x (get body "extensions")
    require (says (get body "rfq_id") rfq_id) (http 400 "rfq_id_mismatch")
    require (says (get body "from") s.rfq.buyer) (http 422 "unauthorized_counter")
    require (any (has_seller (text_of body "to")) s.offers) (http 422 "unauthorized_counter")
    check_proof body s.rfq.currency s.rfq.budget_commitment
    verify_signature x (signed_counter_fields body) (text_of body "signature") (text_of body "from")
        "invalid_buyer_signature"

  -- Steps 11 and 12, inside the lock.
  unfoldable pub decide_counter :
      String → Payload → Moment → DerivedSession → Reply NegotiationEvent
  decide_counter rfq_id body t s = do
    require (not (has_passed x s.rfq.deadline t.now)) (http 409 "session_expired")
    assert_state s.state (negotiating ∷ [])
    require (any (has_seller (text_of body "to")) s.offers) (http 422 "unauthorized_counter")
    require (not (any (λ c. c.counter_id === text_of body "counter_id") s.counters))
        (http 409 "duplicate_object_id")
    require (ltb (max_round 0 s.counters) (round_of body)) (http 422 "invalid_round")
    ok (counter_event rfq_id body t)

  -- The whole handler; the format of the signature is checked before the session is looked up.
  unfoldable pub post_counter :
      String
      → Option Payload
      → ℕ
      → SessionManager
      → Moment
      → SessionManager
      → Reply (DerivedSession × SessionManager)
  post_counter rfq_id body now before t m = do
    b ← or_throw body (http 400 "malformed_payload")
    pre_check_signature_format x (as_string (get b "signature")) (as_string (get b "from"))
    (session, _) ← lift (get_session rfq_id now before)
    s ← or_throw session (http 404 "session_not_found")
    check_counter rfq_id b now s
    locked_append rfq_id t (decide_counter rfq_id b t) m
