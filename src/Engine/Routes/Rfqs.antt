-- ===== src/Engine/Routes/Rfqs.antt =====
-- packages/engine/src/routes/rfqs.ts: POST /rfqs opens a session.
use ghost_bazaar.Prelude.{
  ℕ, leb, not, Option, none, some, Result, ok, err, ◌>>=◌, ◌>>◌, require, or_throw,
}
use ghost_bazaar.Prelude.Json.{obj, Payload, end, get, opt_field, as_string}
use ghost_bazaar.Core.External.{Externals}
use ghost_bazaar.Core.Schemas.{
  Code, invalid_amount, invalid_deadline, unsupported_currency, invalid_budget_commitment_format,
  currency_mismatch, validate_rfq,
}
use ghost_bazaar.Engine.Types.{NegotiationEvent, rfq_created}
use ghost_bazaar.Engine.Session.{DerivedSession}
use ghost_bazaar.Engine.SessionManager.{
  SessionManager, has_session, append_event, enter_lock, leave_lock,
}
use ghost_bazaar.Engine.Http.{
  Failure, http, Reply, Moment, lift, text_of, require_positive_amount, pre_check_signature_format,
  verify_signature,
}
use ghost_bazaar.Engine.ControlEnvelope.{as_plain_object}

-- The status and the name of a validation error.
abbrev rfq_failure : Code → Failure
rfq_failure invalid_amount = http 422 "invalid_amount"
rfq_failure invalid_deadline = http 422 "invalid_deadline"
rfq_failure currency_mismatch = http 422 "currency_mismatch"
rfq_failure unsupported_currency = http 422 "unsupported_currency"
rfq_failure invalid_budget_commitment_format = http 422 "invalid_budget_commitment_format"
rfq_failure _ = http 400 "malformed_payload"

abbrev checked_rfq : Result Code (Unit {0}) → Reply (Unit {0})
checked_rfq (ok u) = ok tt
checked_rfq (err c) = err (rfq_failure c)

-- The event that opens a session.
abbrev pub rfq_event : Payload → Moment → NegotiationEvent
rfq_event body t = record {
  event_id = t.uuid;
  rfq_id = text_of body "rfq_id";
  type = rfq_created;
  timestamp = t.timestamp;
  actor = text_of body "buyer";
  payload = opt_field "rfq_id" (get body "rfq_id") (
      opt_field "protocol" (get body "protocol") (
        opt_field "buyer" (get body "buyer") (
          opt_field "service_type" (get body "service_type") (
            opt_field "spec" (get body "spec") (
              opt_field "anchor_price" (get body "anchor_price") (
                opt_field "currency" (get body "currency") (
                  opt_field "deadline" (get body "deadline") (
                    opt_field "signature" (get body "signature") (
                      opt_field "budget_commitment" (get body "budget_commitment")
                        (opt_field "extensions" (get body "extensions") end))))))))));
}

-- `extractRfqFields`
abbrev signed_rfq_fields : Payload → Payload
signed_rfq_fields body = (rfq_event body (record { now = 0; uuid = ""; timestamp = "" })).payload

module _ (x : Externals) where
  abbrev check_object : ℕ → Option Payload → Reply (Unit {0})
  check_object limit none = err (http 400 "malformed_payload")
  check_object limit (some p) =
      require (leb (x.json_length (obj p)) limit) (http 400 "malformed_payload")

  -- `validateSpecAndExtensions`
  unfoldable pub validate_spec_and_extensions : Payload → Reply (Unit {0})
  validate_spec_and_extensions body = do
    check_object 8192 (as_plain_object (get body "spec"))
    elim (get body "extensions") [
      | none ↦ ok tt
      | some v ↦ check_object 4096 (as_plain_object (some v))
    ]

  -- Steps 1 to 5, before the lock.
  unfoldable pub check_rfq : Payload → ℕ → Reply (Unit {0})
  check_rfq body now = do
    checked_rfq (validate_rfq x now body)
    validate_spec_and_extensions body
    require_positive_amount (text_of body "anchor_price") (text_of body "currency") "invalid_amount"
    pre_check_signature_format x (as_string (get body "signature")) (as_string (get body "buyer"))
    verify_signature x (signed_rfq_fields body) (text_of body "signature") (text_of body "buyer")
        "invalid_buyer_signature"

  -- The whole handler; `before` is the manager at the first look, the lock is granted on `m`.
  unfoldable pub post_rfq :
      Option Payload
      → ℕ
      → SessionManager
      → Moment
      → SessionManager
      → Reply (DerivedSession × SessionManager)
  post_rfq body now before t m = do
    b ← or_throw body (http 400 "malformed_payload")
    check_rfq b now
    require (not (has_session (text_of b "rfq_id") before)) (http 409 "duplicate_object_id")
    let k = text_of b "rfq_id"
    require (not (has_session k m)) (http 409 "duplicate_object_id")
    (s, m') ← lift (append_event k (rfq_event b t) t.now (enter_lock k m))
    ok (s, leave_lock k m')
