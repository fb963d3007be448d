-- ===== src/Engine/Session/Invariant/Phase.antt =====
-- Every accepted event takes the commitment fields from one phase to the next.
use ghost_bazaar.Prelude.{
  ◌≡◌, refl, sym, ap, subst, List, [], ◌∷◌, none, some, inl, inr, arith, length-append, Bool, true,
  false, Result, ok,
}
use ghost_bazaar.Engine.Types.{
  SessionState, open_state, negotiating, commit_pending, committed, expired, cancelled, EventType,
  NegotiationEvent, offer_submitted, counter_sent, winner_selected, commit_pending_event,
  quote_signed, quote_committed, cosign_declined, cosign_timeout, negotiation_expired,
  negotiation_cancelled, settlement_confirmed,
}
use ghost_bazaar.Engine.StateMachine.{transition_rules, is_valid_transition}
use ghost_bazaar.Engine.Session.{
  DerivedSession, on_offer, on_counter, on_winner, on_rollback, on_quote_signed, on_quote_committed,
  handle, apply_event, open_session, initial, derive_state,
}
use ghost_bazaar.Engine.Session.Inversion.{
  entered, apply_event-eq_ok, on_offer-eq_ok, on_counter-eq_ok, on_winner-eq_ok, on_rollback-eq_ok,
  on_quote_signed-eq_ok, on_quote_committed-eq_ok, open_session-eq_ok,
}
use ghost_bazaar.Engine.Session.Replay.{derive_state_ind}
use ghost_bazaar.Engine.Session.Invariant.{IsUncommitted, PhaseAt}

ok-injective {ℓ κ} :
    {E : Type ℓ} {A : Type κ} {a b : A} → ◌≡◌ {A = Result E A} (ok a) (ok b) → a ≡ b
ok-injective h = cc

none≢some {ℓ} : {A : Type ℓ} {a : A} → ¬ (none ≡ some a)
none≢some h = cc

-- Handlers leave the state to the transition table.
pub handle-state :
    (type : EventType) (e : NegotiationEvent) (s t : DerivedSession)
    → handle type e s ≡ ok t
    → t.state ≡ s.state
unfolding handle
handle-state offer_submitted e s t h = let (_, _, _, same) = on_offer-eq_ok e s t h in cc
handle-state counter_sent e s t h = let (_, _, _, _, _, same) = on_counter-eq_ok e s t h in cc
handle-state winner_selected e s t h = let (_, _, _, _, _, _, same) = on_winner-eq_ok e s t h in cc
handle-state cosign_declined e s t h = let (_, _, _, same) = on_rollback-eq_ok true e s t h in cc
handle-state cosign_timeout e s t h = let (_, _, _, same) = on_rollback-eq_ok false e s t h in cc
handle-state quote_signed e s t h = let (_, _, _, _, same) = on_quote_signed-eq_ok e s t h in cc
handle-state quote_committed e s t h = let (_, _, same) = on_quote_committed-eq_ok e s t h in cc
handle-state _ e s t h = cc

offer-PhaseAt :
    (e : NegotiationEvent) (s t : DerivedSession)
    → on_offer e s ≡ ok t
    → IsUncommitted s
    → PhaseAt negotiating t
offer-PhaseAt e s t h p =
    let (o, _, _, same) = on_offer-eq_ok e s t h in
    rw same (p, omega (arith, length-append s.offers (o ∷ [])))

winner-PhaseAt :
    (e : NegotiationEvent) (s t : DerivedSession)
    → on_winner e s ≡ ok t
    → PhaseAt negotiating s
    → PhaseAt commit_pending t
winner-PhaseAt e s t h p =
    let (seller, offer_id, o, _, found, owner, same) = on_winner-eq_ok e s t h in
    rw same ((offer_id, e.timestamp, o, ap some (sym owner), refl, found, refl), refl, p.1)

rollback-PhaseAt :
    (checked : Bool) (e : NegotiationEvent) (s t : DerivedSession)
    → on_rollback checked e s ≡ ok t
    → PhaseAt commit_pending s
    → PhaseAt negotiating t
rollback-PhaseAt checked e s t h p =
    let (_, _, _, same) = on_rollback-eq_ok checked e s t h in
    rw same ((refl, refl, refl, refl, refl, refl), p.2)

counter-PhaseAt :
    (e : NegotiationEvent) (s t : DerivedSession)
    → on_counter e s ≡ ok t
    → PhaseAt negotiating s
    → PhaseAt negotiating t
counter-PhaseAt e s t h p = let (_, _, _, _, _, same) = on_counter-eq_ok e s t h in rw same p

signed-PhaseAt :
    (e : NegotiationEvent) (s t : DerivedSession)
    → on_quote_signed e s ≡ ok t
    → PhaseAt commit_pending s
    → PhaseAt commit_pending t
signed-PhaseAt e s t h p = let (_, _, _, _, same) = on_quote_signed-eq_ok e s t h in rw same p

committed-PhaseAt :
    (e : NegotiationEvent) (s t : DerivedSession)
    → on_quote_committed e s ≡ ok t
    → PhaseAt commit_pending s
    → PhaseAt committed t
committed-PhaseAt e s t h p =
    let (signature, _, same) = on_quote_committed-eq_ok e s t h in rw same (p.0, (signature, refl))

-- One case for each entry of the transition table; the others have no next state.
step-PhaseAt :
    (at : SessionState) (type : EventType) (e : NegotiationEvent) (s t : DerivedSession)
    (next : SessionState)
    → transition_rules at type ≡ some next
    → handle type e (entered e s next) ≡ ok t
    → PhaseAt at s
    → PhaseAt next t
unfolding transition_rules handle
step-PhaseAt open_state offer_submitted e s t next v h p =
    let n : next ≡ negotiating = cc in
    rw n (offer-PhaseAt e (entered e s negotiating) t (rw n at h) p.0)
step-PhaseAt open_state negotiation_expired e s t next v h p =
    let n : next ≡ expired = cc in
    rw n (subst (PhaseAt expired) (ok-injective (rw n at h)) (inl p.0, p.0.4))
step-PhaseAt open_state negotiation_cancelled e s t next v h p =
    let n : next ≡ cancelled = cc in rw n (subst (PhaseAt cancelled) (ok-injective (rw n at h)) p.0)
step-PhaseAt negotiating offer_submitted e s t next v h p =
    let n : next ≡ negotiating = cc in
    rw n (offer-PhaseAt e (entered e s negotiating) t (rw n at h) p.0)
step-PhaseAt negotiating counter_sent e s t next v h p =
    let n : next ≡ negotiating = cc in
    rw n (counter-PhaseAt e (entered e s negotiating) t (rw n at h) p)
step-PhaseAt negotiating winner_selected e s t next v h p =
    let n : next ≡ commit_pending = cc in
    rw n (winner-PhaseAt e (entered e s commit_pending) t (rw n at h) p)
step-PhaseAt negotiating negotiation_expired e s t next v h p =
    let n : next ≡ expired = cc in
    rw n (subst (PhaseAt expired) (ok-injective (rw n at h)) (inl p.0, p.0.4))
step-PhaseAt negotiating negotiation_cancelled e s t next v h p =
    let n : next ≡ cancelled = cc in rw n (subst (PhaseAt cancelled) (ok-injective (rw n at h)) p.0)
step-PhaseAt commit_pending commit_pending_event e s t next v h p =
    let n : next ≡ commit_pending = cc in
    rw n (subst (PhaseAt commit_pending) (ok-injective (rw n at h)) p)
step-PhaseAt commit_pending quote_signed e s t next v h p =
    let n : next ≡ commit_pending = cc in
    rw n (signed-PhaseAt e (entered e s commit_pending) t (rw n at h) p)
step-PhaseAt commit_pending quote_committed e s t next v h p =
    let n : next ≡ committed = cc in
    rw n (committed-PhaseAt e (entered e s committed) t (rw n at h) p)
step-PhaseAt commit_pending cosign_declined e s t next v h p =
    let n : next ≡ negotiating = cc in
    rw n (rollback-PhaseAt true e (entered e s negotiating) t (rw n at h) p)
step-PhaseAt commit_pending cosign_timeout e s t next v h p =
    let n : next ≡ negotiating = cc in
    rw n (rollback-PhaseAt false e (entered e s negotiating) t (rw n at h) p)
step-PhaseAt commit_pending negotiation_expired e s t next v h p =
    let n : next ≡ expired = cc in
    rw n (subst (PhaseAt expired) (ok-injective (rw n at h)) (inr p.0, p.1))
step-PhaseAt committed settlement_confirmed e s t next v h p =
    let n : next ≡ committed = cc in rw n (subst (PhaseAt committed) (ok-injective (rw n at h)) p)
step-PhaseAt _ _ e s t next v h p = absurd (none≢some v)

-- The phase is an invariant of every accepted event.
pub apply_event-PhaseAt :
    (e : NegotiationEvent) (s t : DerivedSession)
    → apply_event e s ≡ ok t
    → PhaseAt s.state s
    → PhaseAt t.state t
unfolding is_valid_transition
apply_event-PhaseAt e s t h p =
    let (next, valid, handled) = apply_event-eq_ok e s t h in
    subst (λ n. PhaseAt n t) (sym (handle-state e.type e (entered e s next) t handled))
      (step-PhaseAt s.state e.type e s t next valid handled p)

pub opened-PhaseAt :
    (first : NegotiationEvent) (s : DerivedSession) → open_session first ≡ ok s → PhaseAt s.state s
unfolding initial
opened-PhaseAt first s h =
    let (rfq, _, same) = open_session-eq_ok first s h in
    rw same ((refl, refl, refl, refl, refl, refl), refl, refl)

-- In every session that a log derives, the commitment fields are those of its state.
pub derive_state-PhaseAt :
    (es : List NegotiationEvent) (s : DerivedSession)
    → derive_state es ≡ ok (some s)
    → PhaseAt s.state s
derive_state-PhaseAt = derive_state_ind (λ s. PhaseAt s.state s) opened-PhaseAt apply_event-PhaseAt
