-- ===== src/Engine/Routes/Cosign.antt =====
-- packages/engine/src/routes/cosign.ts: PUT /rfqs/:id/cosign.
use ghost_bazaar.Prelude.{
  ℕ, String, not, [], ◌∷◌, Option, none, some, ok, ◌>>=◌, ◌>>◌, require, or_throw,
}
use ghost_bazaar.Prelude.Json.{Value, put, str, Payload, field, end, get, as_string}
use ghost_bazaar.Core.External.{Externals}
use ghost_bazaar.Engine.Types.{NegotiationEvent, quote_committed, commit_pending}
use ghost_bazaar.Engine.Session.{DerivedSession}
use ghost_bazaar.Engine.SessionManager.{SessionManager, get_session}
use ghost_bazaar.Engine.Http.{
  http, Reply, Moment, lift, assert_state, has_passed, pre_check_signature_format,
  verify_quote_signature, locked_append,
}
use ghost_bazaar.Engine.ControlEnvelope.{nonempty}
use ghost_bazaar.Engine.Routes.QuoteSign.{quote_of, is_none, check_quote_expiry}

abbrev pub quote_committed_event : String → String → String → Moment → NegotiationEvent
quote_committed_event rfq_id signature seller t = record {
  event_id = t.uuid;
  rfq_id = rfq_id;
  type = quote_committed;
  timestamp = t.timestamp;
  actor = seller;
  payload = field "seller" (str seller) (field "seller_signature" (str signature) end);
}

-- `session.selectedSeller`, where the empty text counts as no seller.
abbrev pub committed_seller : Option DerivedSession → Option String
committed_seller none = none
committed_seller (some s) = nonempty s.selected_seller

-- `s ?? ""`
abbrev pub or_blank : Option String → String
or_blank none = ""
or_blank (some s) = s

abbrev pub stored_quote : Option Value → Payload
stored_quote none = end
stored_quote (some q) = quote_of q

-- Step 4: the fully signed quote of the response.
abbrev pub cosigned_quote : DerivedSession → Payload
cosigned_quote s =
    put "seller_signature" (str (or_blank s.seller_signature))
      (put "buyer_signature" (str (or_blank s.buyer_signature)) (stored_quote s.unsigned_quote))

module _ (x : Externals) where
  -- Steps 3a to 3g, inside the lock. A seller that is `null` has no public key.
  unfoldable pub decide_cosign : String → String → Moment → DerivedSession → Reply NegotiationEvent
  decide_cosign rfq_id signature t s = do
    require (not (has_passed x s.rfq.deadline t.now)) (http 409 "session_expired")
    check_quote_expiry x s.unsigned_quote t.now
    assert_state s.state (commit_pending ∷ [])
    quote ← or_throw s.unsigned_quote (http 404 "quote_not_found")
    require (not (is_none s.buyer_signature)) (http 409 "buyer_not_signed")
    seller ← or_throw s.selected_seller (http 400 "malformed_payload")
    verify_quote_signature x (quote_of quote) signature seller "invalid_seller_signature"
    ok (quote_committed_event rfq_id signature seller t)

  -- The whole handler; other requests may run between the first read and the lock.
  unfoldable pub put_cosign :
      String
      → Option Payload
      → ℕ
      → SessionManager
      → Moment
      → SessionManager
      → Reply (DerivedSession × SessionManager)
  put_cosign rfq_id body now before t m = do
    b ← or_throw body (http 400 "malformed_payload")
    signature ← or_throw (as_string (get b "seller_signature")) (http 400 "malformed_payload")
    (session, _) ← lift (get_session rfq_id now before)
    seller ← or_throw (committed_seller session) (http 404 "session_not_found")
    pre_check_signature_format x (some signature) (some seller)
    locked_append rfq_id t (decide_cosign rfq_id signature t) m
