-- ===== src/Engine/Routes/Decline.antt =====
-- packages/engine/src/routes/decline.ts: PUT /rfqs/:id/decline.
use ghost_bazaar.Prelude.{
  ℕ, String, ◌===◌, not, [], ◌∷◌, Option, ok, ◌>>=◌, ◌>>◌, require, or_throw,
}
use ghost_bazaar.Prelude.Json.{str, Payload, field, end}
use ghost_bazaar.Core.External.{Externals}
use ghost_bazaar.Engine.Types.{NegotiationEvent, cosign_declined, commit_pending}
use ghost_bazaar.Engine.Session.{DerivedSession}
use ghost_bazaar.Engine.SessionManager.{SessionManager, get_session}
use ghost_bazaar.Engine.Http.{http, Reply, Moment, lift, assert_state, has_passed, locked_append}
use ghost_bazaar.Engine.ControlEnvelope.{Tombstones, nonempty, validate_control_envelope}
use ghost_bazaar.Engine.Routes.Cosign.{committed_seller}

abbrev pub cosign_declined_event : String → String → Moment → NegotiationEvent
cosign_declined_event rfq_id seller t = record {
  event_id = t.uuid;
  rfq_id = rfq_id;
  type = cosign_declined;
  timestamp = t.timestamp;
  actor = seller;
  payload = field "seller" (str seller) end;
}

module _ (x : Externals) where
  -- Steps 3a to 3d, inside the lock; `signer` is the seller that was selected before it.
  unfoldable pub decide_decline :
      String → String → String → Moment → DerivedSession → Reply NegotiationEvent
  decide_decline rfq_id signer revision t s = do
    require (not (has_passed x s.rfq.deadline t.now)) (http 409 "session_expired")
    assert_state s.state (commit_pending ∷ [])
    seller ← or_throw (nonempty s.selected_seller) (http 409 "invalid_state_transition")
    require (seller === signer) (http 409 "stale_revision")
    require (revision === s.last_event_id) (http 409 "stale_revision")
    ok (cosign_declined_event rfq_id seller t)

  -- The whole handler. The envelope is used up as soon as it is validated; the second component are
  -- the tombstones after the request.
  unfoldable pub put_decline :
      String
      → Option Payload
      → ℕ
      → Tombstones
      → ℕ
      → Tombstones
      → SessionManager
      → Moment
      → SessionManager
      → Reply (Reply (DerivedSession × SessionManager) × Tombstones)
  put_decline rfq_id body now tombs later tombs_later before t m = do
    b ← or_throw body (http 400 "malformed_payload")
    (session, _) ← lift (get_session rfq_id now before)
    signer ← or_throw (committed_seller session) (http 404 "session_not_found")
    (envelope, tombs') ←
        validate_control_envelope x b "decline" rfq_id signer "invalid_seller_signature" now tombs
          later tombs_later
    ok (locked_append rfq_id t (decide_decline rfq_id signer envelope.session_revision t) m, tombs')
