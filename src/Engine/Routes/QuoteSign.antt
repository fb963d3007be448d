-- ===== src/Engine/Routes/QuoteSign.antt =====
-- packages/engine/src/routes/quote-sign.ts: PUT /rfqs/:id/quote/sign.
use ghost_bazaar.Prelude.{
  ℕ, String, Bool, true, false, not, [], ◌∷◌, Option, none, some, ok, ◌>>=◌, ◌>>◌, require,
  or_throw,
}
use ghost_bazaar.Prelude.Json.{Value, null, str, obj, Payload, field, end, get, as_string}
use ghost_bazaar.Core.External.{Externals}
use ghost_bazaar.Engine.Types.{NegotiationEvent, quote_signed, commit_pending}
use ghost_bazaar.Engine.Session.{DerivedSession}
use ghost_bazaar.Engine.SessionManager.{SessionManager, get_session}
use ghost_bazaar.Engine.Http.{
  http, Reply, Moment, lift, assert_state, has_passed, pre_check_signature_format,
  verify_quote_signature, locked_append,
}

-- The fields that `{ ...quote }` copies. The engine stores an object, never an array.
abbrev pub quote_of : Value → Payload
quote_of (obj p) = p
quote_of _ = end

abbrev pub is_none {ℓ} : {A : Type ℓ} → Option A → Bool
is_none none = true
is_none (some a) = false

-- A text that may be `null`.
abbrev pub nullable : Option String → Value
nullable none = null
nullable (some s) = str s

abbrev pub quote_signed_event : String → String → Moment → DerivedSession → NegotiationEvent
quote_signed_event rfq_id signature t s = record {
  event_id = t.uuid;
  rfq_id = rfq_id;
  type = quote_signed;
  timestamp = t.timestamp;
  actor = s.rfq.buyer;
  payload =
      field "seller" (nullable s.selected_seller) (field "buyer_signature" (str signature) end);
}

module _ (x : Externals) where
  -- Step 3b, which comes before the state guard.
  unfoldable pub check_quote_expiry : Option Value → ℕ → Reply (Unit {0})
  check_quote_expiry none now = ok tt
  check_quote_expiry (some q) now = elim (as_string (get (quote_of q) "expires_at")) [
    | none ↦ ok tt
    | some e ↦ require (not (has_passed x e now)) (http 422 "quote_expired")
  ]

  -- Steps 3a to 3g, inside the lock.
  unfoldable pub decide_quote_sign :
      String → String → Moment → DerivedSession → Reply NegotiationEvent
  decide_quote_sign rfq_id signature t s = do
    require (not (has_passed x s.rfq.deadline t.now)) (http 409 "session_expired")
    check_quote_expiry s.unsigned_quote t.now
    assert_state s.state (commit_pending ∷ [])
    quote ← or_throw s.unsigned_quote (http 404 "quote_not_found")
    require (is_none s.buyer_signature) (http 409 "already_signed")
    verify_quote_signature x (quote_of quote) signature s.rfq.buyer "invalid_buyer_signature"
    ok (quote_signed_event rfq_id signature t s)

  -- The whole handler; other requests may run between the first read and the lock.
  unfoldable pub put_quote_sign :
      String
      → Option Payload
      → ℕ
      → SessionManager
      → Moment
      → SessionManager
      → Reply (DerivedSession × SessionManager)
  put_quote_sign rfq_id body now before t m = do
    b ← or_throw body (http 400 "malformed_payload")
    signature ← or_throw (as_string (get b "buyer_signature")) (http 400 "malformed_payload")
    (session, _) ← lift (get_session rfq_id now before)
    s ← or_throw session (http 404 "session_not_found")
    pre_check_signature_format x (some signature) (some s.rfq.buyer)
    locked_append rfq_id t (decide_quote_sign rfq_id signature t) m
