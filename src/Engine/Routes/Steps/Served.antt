-- ===== src/Engine/Routes/Steps/Served.antt =====
-- Every request that is served takes a step of Routes/Steps on the session that the log derives, and
-- touches no other session: the handlers refine the step relation.
use ghost_bazaar.Prelude.{ℕ, String, ◌≡◌, Option, ok, or_throw, >>=-eq-ok}
use ghost_bazaar.Prelude.Dict.{Dict}
use ghost_bazaar.Prelude.Json.{Payload, get, as_string}
use ghost_bazaar.Core.External.{Externals}
use ghost_bazaar.Engine.Types.{NegotiationEvent}
use ghost_bazaar.Engine.Session.{DerivedSession}
use ghost_bazaar.Engine.SessionManager.{SessionManager, get_session}
use ghost_bazaar.Engine.SessionManager.Soundness.{IsSound}
use ghost_bazaar.Engine.Http.{Reply, Moment, lift, pre_check_signature_format, locked_append}
use ghost_bazaar.Engine.Http.Locked.{Advances, locked_append-Advances, ok-pair}
use ghost_bazaar.Engine.ControlEnvelope.{Tombstones, validate_control_envelope}
use ghost_bazaar.Engine.Routes.Offers.{Listing, check_offer, post_offer}
use ghost_bazaar.Engine.Routes.Counters.{check_counter, post_counter}
use ghost_bazaar.Engine.Routes.Accept.{QuoteIds, post_accept}
use ghost_bazaar.Engine.Routes.QuoteSign.{put_quote_sign}
use ghost_bazaar.Engine.Routes.Cosign.{committed_seller, put_cosign}
use ghost_bazaar.Engine.Routes.Decline.{put_decline}
use ghost_bazaar.Engine.Routes.Steps.{
  Decided, by_offer, by_counter, by_accept, by_quote_sign, by_cosign, by_decline,
}

module _ (x : Externals) where
  -- A request to the session `k` that was served: the manager on which its lock was granted, the
  -- session that it returned, and the manager after it.
  pub data Served (k : String) (m : SessionManager) (s' : DerivedSession) (m' : SessionManager)
      : Type 0 where
    offer_served :
        (body : Option Payload) (listings : Dict Listing) (now : ℕ) (before : SessionManager)
        (t : Moment)
        → post_offer x k body listings now before t m ≡ ok (s', m')
        → Served k m s' m'
    counter_served :
        (body : Option Payload) (now : ℕ) (before : SessionManager) (t : Moment)
        → post_counter x k body now before t m ≡ ok (s', m')
        → Served k m s' m'
    accept_served :
        (window : Option ℕ) (body : Option Payload) (ids : QuoteIds) (now later : ℕ)
        (tombs tombs_later tombs' : Tombstones) (before : SessionManager) (t : Moment)
        → post_accept x window k body ids now tombs later tombs_later before t m
          ≡ ok (ok (s', m'), tombs')
        → Served k m s' m'
    quote_sign_served :
        (body : Option Payload) (now : ℕ) (before : SessionManager) (t : Moment)
        → put_quote_sign x k body now before t m ≡ ok (s', m')
        → Served k m s' m'
    cosign_served :
        (body : Option Payload) (now : ℕ) (before : SessionManager) (t : Moment)
        → put_cosign x k body now before t m ≡ ok (s', m')
        → Served k m s' m'
    decline_served :
        (body : Option Payload) (now later : ℕ) (tombs tombs_later tombs' : Tombstones)
        (before : SessionManager) (t : Moment)
        → put_decline x k body now tombs later tombs_later before t m ≡ ok (ok (s', m'), tombs')
        → Served k m s' m'

  abbrev pub StepsOn : String → SessionManager → DerivedSession → SessionManager → Type 0
  StepsOn k m s' m' =
      (s : DerivedSession) × (e : NegotiationEvent) × Decided x s e × Advances k s e s' m m'

  locked_step :
      (k : String) (t : Moment) (decide : DerivedSession → Reply NegotiationEvent)
      (m m' : SessionManager) (s' : DerivedSession)
      → IsSound m
      → ((s : DerivedSession) (e : NegotiationEvent) → decide s ≡ ok e → Decided x s e)
      → locked_append k t decide m ≡ ok (s', m')
      → StepsOn k m s' m'
  locked_step k t decide m m' s' v by h =
      let (s, e, decided, advances) = locked_append-Advances k t decide m m' s' v h in
      (s, e, by s e decided, advances)

  -- A request that is served takes one step of its session, decided on the session as its log
  -- derives it under the lock; the log grows by exactly the event of that step, the other logs
  -- stay as they are and the manager stays sound.
  pub Served-Advances :
      (k : String) (m m' : SessionManager) (s' : DerivedSession)
      → IsSound m
      → Served k m s' m'
      → StepsOn k m s' m'
  unfolding post_offer post_counter post_accept put_quote_sign put_cosign put_decline
  Served-Advances k m m' s' v (offer_served body listings now before t h) =
      let (b, _, h₁) = >>=-eq-ok (or_throw body _) _ h in
      let ((session, _), _, h₂) = >>=-eq-ok (lift (get_session k now before)) _ h₁ in
      let (s, _, h₃) = >>=-eq-ok (or_throw session _) _ h₂ in
      let (_, _, h₄) = >>=-eq-ok (check_offer x k b now s) _ h₃ in
      locked_step k t _ m m' s' v (λ s e d. by_offer k b listings t d) h₄
  Served-Advances k m m' s' v (counter_served body now before t h) =
      let (b, _, h₁) = >>=-eq-ok (or_throw body _) _ h in
      let (_, _, h₂) = >>=-eq-ok (pre_check_signature_format x _ _) _ h₁ in
      let ((session, _), _, h₃) = >>=-eq-ok (lift (get_session k now before)) _ h₂ in
      let (s, _, h₄) = >>=-eq-ok (or_throw session _) _ h₃ in
      let (_, _, h₅) = >>=-eq-ok (check_counter x k b now s) _ h₄ in
      locked_step k t _ m m' s' v (λ s e d. by_counter k b t d) h₅
  Served-Advances k m m' s' v
        (accept_served window body ids now later tombs tombs_later tombs' before t h) =
      let (b, _, h₁) = >>=-eq-ok (or_throw body _) _ h in
      let ((session, _), _, h₂) = >>=-eq-ok (lift (get_session k now before)) _ h₁ in
      let (s, _, h₃) = >>=-eq-ok (or_throw session _) _ h₂ in
      let ((envelope, _), _, h₄) =
        >>=-eq-ok (validate_control_envelope x b _ k _ _ now tombs later tombs_later) _ h₃ in
      let (inner, _) = ok-pair h₄ in
      let (seller, _, h₅) =
        >>=-eq-ok (or_throw (as_string (get envelope.payload "seller")) _) _ inner in
      let (offer_id, _, h₆) =
        >>=-eq-ok (or_throw (as_string (get envelope.payload "offer_id")) _) _ h₅ in
      locked_step k t _ m m' s' v
        (λ s e d. by_accept window k seller offer_id envelope.session_revision ids t d) h₆
  Served-Advances k m m' s' v (quote_sign_served body now before t h) =
      let (b, _, h₁) = >>=-eq-ok (or_throw body _) _ h in
      let (signature, _, h₂) = >>=-eq-ok (or_throw (as_string (get b "buyer_signature")) _) _ h₁ in
      let ((session, _), _, h₃) = >>=-eq-ok (lift (get_session k now before)) _ h₂ in
      let (s, _, h₄) = >>=-eq-ok (or_throw session _) _ h₃ in
      let (_, _, h₅) = >>=-eq-ok (pre_check_signature_format x _ _) _ h₄ in
      locked_step k t _ m m' s' v (λ s e d. by_quote_sign k signature t d) h₅
  Served-Advances k m m' s' v (cosign_served body now before t h) =
      let (b, _, h₁) = >>=-eq-ok (or_throw body _) _ h in
      let (signature, _, h₂) = >>=-eq-ok (or_throw (as_string (get b "seller_signature")) _) _ h₁ in
      let ((session, _), _, h₃) = >>=-eq-ok (lift (get_session k now before)) _ h₂ in
      let (s, _, h₄) = >>=-eq-ok (or_throw (committed_seller session) _) _ h₃ in
      let (_, _, h₅) = >>=-eq-ok (pre_check_signature_format x _ _) _ h₄ in
      locked_step k t _ m m' s' v (λ s e d. by_cosign k signature t d) h₅
  Served-Advances k m m' s' v (decline_served body now later tombs tombs_later tombs' before t h) =
      let (b, _, h₁) = >>=-eq-ok (or_throw body _) _ h in
      let ((session, _), _, h₂) = >>=-eq-ok (lift (get_session k now before)) _ h₁ in
      let (signer, _, h₃) = >>=-eq-ok (or_throw (committed_seller session) _) _ h₂ in
      let ((envelope, _), _, h₄) =
        >>=-eq-ok (validate_control_envelope x b _ k _ _ now tombs later tombs_later) _ h₃ in
      let (inner, _) = ok-pair h₄ in
      locked_step k t _ m m' s' v (λ s e d. by_decline k signer envelope.session_revision t d) inner
