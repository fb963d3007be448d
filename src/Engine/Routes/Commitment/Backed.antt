-- ===== src/Engine/Routes/Commitment/Backed.antt =====
-- The commitment invariant of the reachable sessions.
use ghost_bazaar.Prelude.{
  ℕ, String, ◌≡◌, ◌≢◌, refl, sym, ap, ◌∙◌, subst, false, Option, none, some, ok,
}
use ghost_bazaar.Prelude.Json.{Value, Payload}
use ghost_bazaar.Core.External.{Externals}
use ghost_bazaar.Engine.Types.{
  settlement_confirmed, SessionState, negotiating, commit_pending, committed, expired,
  NegotiationEvent,
}
use ghost_bazaar.Engine.StateMachine.{is_valid_transition}
use ghost_bazaar.Engine.StateMachine.Targets.{
  offer_leads, counter_leads, accept_leads, sign_leads, cosign_leads, decline_leads, timeout_leads,
  expiry_leads, settlement_stays,
}
use ghost_bazaar.Engine.Session.{DerivedSession, handle, apply_event, initial}
use ghost_bazaar.Engine.Session.Inversion.{entered, apply_event-eq_ok, open_session-eq_ok}
use ghost_bazaar.Engine.Session.Invariant.{PhaseAt, IsUncommitted}
use ghost_bazaar.Engine.Session.Invariant.Phase.{apply_event-PhaseAt, opened-PhaseAt}
use ghost_bazaar.Engine.Http.{Moment}
use ghost_bazaar.Engine.DeadlineEnforcer.{expired_event, timeout_event}
use ghost_bazaar.Engine.Routes.Offers.{offer_event}
use ghost_bazaar.Engine.Routes.Counters.{counter_event}
use ghost_bazaar.Engine.Routes.Decline.{cosign_declined_event}
use ghost_bazaar.Engine.Routes.Steps.Decisions.{
  decide_offer-eq_ok, decide_counter-eq_ok, decide_decline-eq_ok, decide_expire-eq_some,
  decide_timeout-eq_some,
}
use ghost_bazaar.Engine.Routes.Accept.{QuoteIds, quote_fields, hash_of, accept_event, decide_accept}
use ghost_bazaar.Engine.Routes.QuoteSign.{is_none, quote_signed_event, decide_quote_sign}
use ghost_bazaar.Engine.Routes.Cosign.{quote_committed_event, decide_cosign}
use ghost_bazaar.Engine.Routes.Commitment.{IsBacked, IsSignedBy, IsQuoteOf}
use ghost_bazaar.Engine.Routes.Commitment.Decisions.{
  winner_of_accept, signed_by_buyer, signed_by_seller, decide_accept-eq_ok, decide_quote_sign-eq_ok,
  decide_cosign-eq_ok,
}
use ghost_bazaar.Engine.Routes.Steps.{
  Decided, by_offer, by_counter, by_accept, by_quote_sign, by_cosign, by_decline, by_expiry,
  by_timeout, Reachable, opened, stepped, paid,
}
use ghost_bazaar.Engine.Session.Final.{settled}
use ghost_bazaar.Engine.Routes.Commitment.Transitions.{next_state}

module _ (x : Externals) where
  -- Without a commitment there is nothing to back.
  uncommitted-IsBacked : (s : DerivedSession) → IsUncommitted s → s.state ≢ committed → IsBacked x s
  uncommitted-IsBacked s (_, _, quote, buyer, seller, _) not_yet = record {
    quoted = λ q h. absurd (none-some (sym quote ∙ h));
    buyer_signed = λ c h. absurd (none-some (sym buyer ∙ h));
    seller_signed = λ c h. absurd (none-some (sym seller ∙ h));
    committed_signed = λ h. absurd (not_yet h);
  }
    where
      none-some : {A : Type 0} {a : A} → ◌≢◌ {A = Option A} none (some a)
      none-some p = cc

  negotiating-IsBacked :
      (t : DerivedSession) → PhaseAt t.state t → t.state ≡ negotiating → IsBacked x t
  negotiating-IsBacked t p at =
      uncommitted-IsBacked t (subst (λ n. PhaseAt n t) at p).0 (λ h. other (sym at ∙ h))
    where
      other : negotiating ≢ committed
      other q = cc

  accept-IsBacked :
      (window : Option ℕ) (k seller offer_id revision : String) (ids : QuoteIds) (m : Moment)
      (s t : DerivedSession) (e : NegotiationEvent)
      → decide_accept x window k seller offer_id revision ids m s ≡ ok e
      → apply_event e s ≡ ok t
      → IsBacked x t
  unfolding handle
  accept-IsBacked window k seller offer_id revision ids m s t e d h =
      let (o, at, found, _, _, event) =
        decide_accept-eq_ok x window k seller offer_id revision ids m s e d in
      let q : Payload = quote_fields s.rfq o ids at (hash_of x s.rfq.spec) in
      let (_, handled) =
        next_state (accept_event k seller offer_id q m s) s t commit_pending accept_leads
          (subst (λ f. apply_event f s ≡ ok t) event h) in
      let (o', found', owner, same) =
        winner_of_accept k seller offer_id q m s
          (entered (accept_event k seller offer_id q m s) s commit_pending) t handled in
      let one : o ≡ o' = cc in
      subst (IsBacked x) (sym same) (record {
        quoted = λ v p. (
          o,
          offer_id,
          ids,
          at,
          refl,
          found,
          ap some (sym owner ∙ ap (λ i. i.seller) (sym one)),
          cc,
        );
        buyer_signed = λ c p. absurd (cc);
        seller_signed = λ c p. absurd (cc);
        committed_signed = λ p. absurd (cc);
      })

  sign-IsBacked :
      (k signature : String) (m : Moment) (s t : DerivedSession) (e : NegotiationEvent)
      → decide_quote_sign x k signature m s ≡ ok e
      → apply_event e s ≡ ok t
      → IsBacked x s
      → IsBacked x t
  unfolding handle
  sign-IsBacked k signature m s t e d h b =
      let (q, quote, signed, event) = decide_quote_sign-eq_ok x k signature m s e d in
      let f : NegotiationEvent = quote_signed_event k signature m s in
      let (_, handled) =
        next_state f s t commit_pending sign_leads (subst (λ g. apply_event g s ≡ ok t) event h) in
      let same = signed_by_buyer k signature m s (entered f s commit_pending) t handled in
      subst (IsBacked x) (sym same) (record {
        quoted = b.quoted;
        buyer_signed = λ c p. (q, quote, subst (IsSignedBy x s.rfq.buyer q) (cc) signed);
        seller_signed = b.seller_signed;
        committed_signed = λ p. absurd (cc);
      })

  cosign-IsBacked :
      (k signature : String) (m : Moment) (s t : DerivedSession) (e : NegotiationEvent)
      → decide_cosign x k signature m s ≡ ok e
      → apply_event e s ≡ ok t
      → IsBacked x s
      → IsBacked x t
  unfolding handle
  cosign-IsBacked k signature m s t e d h b =
      let (q, seller, quote, before, selected, signed, event) =
        decide_cosign-eq_ok x k signature m s e d in
      let f : NegotiationEvent = quote_committed_event k signature seller m in
      let (_, handled) =
        next_state f s t committed cosign_leads (subst (λ g. apply_event g s ≡ ok t) event h) in
      let (_, same) = signed_by_seller k signature seller m (entered f s committed) t handled in
      subst (IsBacked x) (sym same) (record {
        quoted = b.quoted;
        buyer_signed = b.buyer_signed;
        seller_signed =
            λ c p. (q, seller, quote, selected, subst (IsSignedBy x seller q) (cc) signed);
        committed_signed = λ p. (present s.buyer_signature before, (signature, refl));
      })
    where
      present : (o : Option String) → is_none o ≡ false → (c : String) × (o ≡ some c)
      present none p = absurd (cc)
      present (some c) p = (c, refl)

  -- An event that changes nothing but the state, and does not commit.
  idle-IsBacked :
      (e : NegotiationEvent) (s t : DerivedSession) (next : SessionState)
      → (next ≡ committed → s.state ≡ committed)
      → IsBacked x s
      → t ≡ entered e s next
      → IsBacked x t
  idle-IsBacked e s t next stays b same = subst (IsBacked x) (sym same) (record {
    quoted = b.quoted;
    buyer_signed = b.buyer_signed;
    seller_signed = b.seller_signed;
    committed_signed = λ p. b.committed_signed (stays p);
  })

  pub step-IsBacked :
      (s t : DerivedSession) (e : NegotiationEvent)
      → Decided x s e
      → apply_event e s ≡ ok t
      → PhaseAt s.state s
      → IsBacked x s
      → IsBacked x t
  unfolding handle is_valid_transition
  step-IsBacked s t e (by_offer k body listings m d) h p b =
      let (listing, _, _, _, _, event) = decide_offer-eq_ok x k body listings m s e d in
      let (at, _) =
        next_state (offer_event k body listing m) s t negotiating offer_leads
          (subst (λ f. apply_event f s ≡ ok t) event h) in
      negotiating-IsBacked t (apply_event-PhaseAt e s t h p) at
  step-IsBacked s t e (by_counter k body m d) h p b =
      let (_, _, event) = decide_counter-eq_ok x k body m s e d in
      let (at, _) =
        next_state (counter_event k body m) s t negotiating counter_leads
          (subst (λ f. apply_event f s ≡ ok t) event h) in
      negotiating-IsBacked t (apply_event-PhaseAt e s t h p) at
  step-IsBacked s t e (by_accept window k seller offer_id revision ids m d) h p b =
      accept-IsBacked window k seller offer_id revision ids m s t e d h
  step-IsBacked s t e (by_quote_sign k signature m d) h p b =
      sign-IsBacked k signature m s t e d h b
  step-IsBacked s t e (by_cosign k signature m d) h p b = cosign-IsBacked k signature m s t e d h b
  step-IsBacked s t e (by_decline k signer revision m d) h p b =
      let (seller, _, _, _, event) = decide_decline-eq_ok x k signer revision m s e d in
      let (at, _) =
        next_state (cosign_declined_event k seller m) s t negotiating decline_leads
          (subst (λ f. apply_event f s ≡ ok t) event h) in
      negotiating-IsBacked t (apply_event-PhaseAt e s t h p) at
  step-IsBacked s t e (by_expiry k m d) h p b =
      let event = decide_expire-eq_some x k m s e d in
      let (_, same) =
        next_state (expired_event k m) s t expired expiry_leads
          (subst (λ f. apply_event f s ≡ ok t) event h) in
      idle-IsBacked (expired_event k m) s t expired (λ q. absurd (cc)) b (cc)
  step-IsBacked s t e (by_timeout timeout k m d) h p b =
      let (seller, event) = decide_timeout-eq_some x timeout k m s e d in
      let (at, _) =
        next_state (timeout_event k seller m) s t negotiating timeout_leads
          (subst (λ f. apply_event f s ≡ ok t) event h) in
      negotiating-IsBacked t (apply_event-PhaseAt e s t h p) at

  paid-IsBacked :
      (s t : DerivedSession) (e : NegotiationEvent)
      → e.type ≡ settlement_confirmed
      → apply_event e s ≡ ok t
      → IsBacked x s
      → IsBacked x t
  unfolding is_valid_transition
  paid-IsBacked s t e type h b =
      let (next, valid, handled) = apply_event-eq_ok e s t h in
      let (from, to) =
        settlement_stays s.state next
          (subst (λ i. is_valid_transition s.state i ≡ some next) type valid) in
      idle-IsBacked e s t next (λ q. from) b
        (settled e (entered e s next) t
          (subst (λ i. handle i e (entered e s next) ≡ ok t) type handled))

  pub Reachable-PhaseAt : (s : DerivedSession) → Reachable x s → PhaseAt s.state s
  Reachable-PhaseAt _ (opened first s h) = opened-PhaseAt first s h
  Reachable-PhaseAt _ (stepped s t e r d h) = apply_event-PhaseAt e s t h (Reachable-PhaseAt s r)
  Reachable-PhaseAt _ (paid s t e r type h) = apply_event-PhaseAt e s t h (Reachable-PhaseAt s r)

  -- In every session that the routes reach: a quote that is stored is the one that was built for the
  -- selected offer, and each signature that is stored verifies over it, under the key of the buyer and
  -- of the selected seller; a committed session has both.
  pub Reachable-IsBacked : (s : DerivedSession) → Reachable x s → IsBacked x s
  unfolding initial
  Reachable-IsBacked _ (opened first s h) =
      let (rfq, _, same) = open_session-eq_ok first s h in
      uncommitted-IsBacked s (subst IsUncommitted (sym same) (refl, refl, refl, refl, refl, refl))
        (λ c. absurd (cc))
  Reachable-IsBacked _ (stepped s t e r d h) =
      step-IsBacked s t e d h (Reachable-PhaseAt s r) (Reachable-IsBacked s r)
  Reachable-IsBacked _ (paid s t e r type h) = paid-IsBacked s t e type h (Reachable-IsBacked s r)

  -- A session that the routes reach and that is committed holds one quote; it is the quote of the
  -- selected offer, the buyer's signature over it verifies under the buyer's key, and the
  -- seller's under the key of the seller that made that offer.
  pub committed_quote_is_signed :
      (s : DerivedSession)
      → Reachable x s
      → s.state ≡ committed
      → (q : Value) × (seller b c : String) × (s.unsigned_quote ≡ some q)
        × IsQuoteOf x s q
        × (s.selected_seller ≡ some seller)
        × (s.buyer_signature ≡ some b)
        × IsSignedBy x s.rfq.buyer q b
        × (s.seller_signature ≡ some c)
        × IsSignedBy x seller q c
  committed_quote_is_signed s r at =
      let i = Reachable-IsBacked s r in
      let ((b, has_b), (c, has_c)) = i.committed_signed at in
      let (q, quote, signed) = i.buyer_signed b has_b in
      let (q', seller, quote', selected, signed') = i.seller_signed c has_c in
      let one : q' ≡ q = cc in
      (
        q,
        seller,
        b,
        c,
        quote,
        i.quoted q quote,
        selected,
        has_b,
        signed,
        has_c,
        subst (λ v. IsSignedBy x seller v c) one signed',
      )
