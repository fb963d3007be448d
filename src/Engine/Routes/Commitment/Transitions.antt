-- ===== src/Engine/Routes/Commitment/Transitions.antt =====
-- The state after an event.
use ghost_bazaar.Prelude.{◌≡◌, ◌∙◌, subst, some, ok}
use ghost_bazaar.Engine.Types.{SessionState, NegotiationEvent}
use ghost_bazaar.Engine.StateMachine.{is_valid_transition, transition_rules}
use ghost_bazaar.Engine.Session.{DerivedSession, handle, apply_event}
use ghost_bazaar.Engine.Session.Inversion.{entered, apply_event-eq_ok}
use ghost_bazaar.Engine.Session.Invariant.Phase.{handle-state}

-- The state after an event, where the table has one row for its type.
pub next_state :
    (e : NegotiationEvent) (s t : DerivedSession) (next : SessionState)
    → ((at : SessionState) (n : SessionState) → transition_rules at e.type ≡ some n → n ≡ next)
    → apply_event e s ≡ ok t
    → (t.state ≡ next) × (handle e.type e (entered e s next) ≡ ok t)
unfolding is_valid_transition
next_state e s t next only h =
    let (n, valid, handled) = apply_event-eq_ok e s t h in
    let same : n ≡ next = only s.state n valid in
    (
      handle-state e.type e (entered e s n) t handled ∙ same,
      subst (λ i. handle e.type e (entered e s i) ≡ ok t) same handled,
    )
