-- ===== src/Engine/DeadlineEnforcer/Progress.antt =====
-- What the callbacks are for: what is expirable can expire, and an overdue commitment is taken back.
use ghost_bazaar.Prelude.{
  ℕ, leb, ◌-◌, String, ◌===◌, ===_refl, ◌≡◌, refl, arith, true, false, none, some, Option-cases,
  inl, inr, ok, ◌&&◌,
}
use ghost_bazaar.Prelude.Json.{get}
use ghost_bazaar.Core.External.{Externals}
use ghost_bazaar.Engine.Types.{
  SessionState, open_state, negotiating, commit_pending, committed, expired, cancelled,
  NegotiationEvent, negotiation_expired,
}
use ghost_bazaar.Engine.StateMachine.{is_valid_transition, transition_rules}
use ghost_bazaar.Engine.Session.{DerivedSession, apply_event, handle, on_rollback}
use ghost_bazaar.Engine.Http.{Moment}
use ghost_bazaar.Engine.ControlEnvelope.{nonempty}
use ghost_bazaar.Engine.DeadlineEnforcer.{
  is_terminal_state, is_expirable_state, timeout_event, is_overdue, is_recent, decide_timeout,
}

pub expirable-leads :
    (at : SessionState)
    → is_expirable_state at ≡ true
    → (transition_rules at negotiation_expired ≡ some expired) × (is_terminal_state at ≡ false)
unfolding is_expirable_state is_terminal_state transition_rules
expirable-leads open_state h = (refl, refl)
expirable-leads negotiating h = (refl, refl)
expirable-leads commit_pending h = (refl, refl)
expirable-leads committed h = absurd (cc)
expirable-leads expired h = absurd (cc)
expirable-leads cancelled h = absurd (cc)

-- If a session is pending commitment, a seller is selected and the commitment is overdue, neither
-- text being empty, the callback of tryCosignTimeout decides on an event that the reducer
-- accepts, and the session negotiates again after it, without seller and quote.
pub timeout_succeeds :
    (x : Externals) (timeout : ℕ) (k : String) (t : Moment) (s : DerivedSession)
    (at seller : String)
    → s.state ≡ commit_pending
    → s.commit_pending_at ≡ some at
    → is_overdue x (some at) timeout t.now ≡ true
    → nonempty (some at) ≡ some at
    → s.selected_seller ≡ some seller
    → nonempty (some seller) ≡ some seller
    → (e : NegotiationEvent) × (s' : DerivedSession) × (decide_timeout x timeout k t s ≡ some e)
      × (apply_event e s ≡ ok s')
      × (s'.state ≡ negotiating)
      × (s'.selected_seller ≡ none)
      × (s'.unsigned_quote ≡ none)
unfolding decide_timeout is_recent is_overdue apply_event handle is_valid_transition
    transition_rules on_rollback get ◌===◌
timeout_succeeds x timeout k t s at seller pending since overdue real selected named = (
  timeout_event k seller t,
  record s {
    last_event_id = t.uuid;
    state = negotiating;
    selected_seller = none;
    selected_offer_id = none;
    unsigned_quote = none;
    buyer_signature = none;
    seller_signature = none;
    commit_pending_at = none;
  },
  rw (pending, since, real, selected, named) (rw (not_recent) refl),
  rw (pending, selected) (rw (===_refl seller) refl),
  refl,
  refl,
  refl,
)
  where
    overdue_at :
        (d : ℕ) → x.parse_date at ≡ some d → (leb d t.now && leb timeout (t.now - d)) ≡ true
    overdue_at d read = rw (read, is_overdue) at overdue

    not_recent : is_recent x at timeout t.now ≡ false
    not_recent = elim (Option-cases (x.parse_date at)) [
      | inl unread ↦ rw (unread, is_recent) refl
      | inr (d, read) ↦ rw (read, is_recent) (ground (arith, overdue_at d read))
    ]
