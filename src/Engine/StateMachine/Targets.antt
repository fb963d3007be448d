-- ===== src/Engine/StateMachine/Targets.antt =====
-- Where an event leads, for the types that have one next state in every row of the table.
use ghost_bazaar.Prelude.{◌≡◌, refl, some}
use ghost_bazaar.Engine.Types.{
  SessionState, open_state, negotiating, commit_pending, committed, expired, offer_submitted,
  counter_sent, winner_selected, quote_signed, quote_committed, cosign_declined, cosign_timeout,
  negotiation_expired, settlement_confirmed,
}
use ghost_bazaar.Engine.StateMachine.{transition_rules}

pub offer_leads :
    (at n : SessionState) → transition_rules at offer_submitted ≡ some n → n ≡ negotiating
unfolding transition_rules
offer_leads open_state n h = cc
offer_leads negotiating n h = cc
offer_leads _ n h = absurd (cc)

pub counter_leads :
    (at n : SessionState) → transition_rules at counter_sent ≡ some n → n ≡ negotiating
unfolding transition_rules
counter_leads negotiating n h = cc
counter_leads _ n h = absurd (cc)

pub accept_leads :
    (at n : SessionState) → transition_rules at winner_selected ≡ some n → n ≡ commit_pending
unfolding transition_rules
accept_leads negotiating n h = cc
accept_leads _ n h = absurd (cc)

pub sign_leads :
    (at n : SessionState) → transition_rules at quote_signed ≡ some n → n ≡ commit_pending
unfolding transition_rules
sign_leads commit_pending n h = cc
sign_leads _ n h = absurd (cc)

pub cosign_leads :
    (at n : SessionState) → transition_rules at quote_committed ≡ some n → n ≡ committed
unfolding transition_rules
cosign_leads commit_pending n h = cc
cosign_leads _ n h = absurd (cc)

pub decline_leads :
    (at n : SessionState) → transition_rules at cosign_declined ≡ some n → n ≡ negotiating
unfolding transition_rules
decline_leads commit_pending n h = cc
decline_leads _ n h = absurd (cc)

pub timeout_leads :
    (at n : SessionState) → transition_rules at cosign_timeout ≡ some n → n ≡ negotiating
unfolding transition_rules
timeout_leads commit_pending n h = cc
timeout_leads _ n h = absurd (cc)

pub expiry_leads :
    (at n : SessionState) → transition_rules at negotiation_expired ≡ some n → n ≡ expired
unfolding transition_rules
expiry_leads open_state n h = cc
expiry_leads negotiating n h = cc
expiry_leads commit_pending n h = cc
expiry_leads _ n h = absurd (cc)

pub settlement_stays :
    (at n : SessionState)
    → transition_rules at settlement_confirmed ≡ some n
    → (at ≡ committed) × (n ≡ committed)
unfolding transition_rules
settlement_stays committed n h = (refl, cc)
settlement_stays _ n h = absurd (cc)
