-- ===== src/Engine/Session/Final.antt =====
-- The end of a session: what the replay accepts after it.
use ghost_bazaar.Prelude.{
  ◌≡◌, ◌≢◌, ◌⊎◌, inl, inr, refl, sym, ap, subst, List, [], ◌∷◌, some, ok, err, Result-cases, arith,
  All, ◌∙◌,
}
use ghost_bazaar.Engine.Types.{
  SessionState, open_state, negotiating, commit_pending, committed, expired, cancelled, EventType,
  settlement_confirmed, NegotiationEvent,
}
use ghost_bazaar.Engine.StateMachine.{is_valid_transition, transition_rules}
use ghost_bazaar.Engine.Session.{DeriveError, DerivedSession, handle, apply_event, replay}
use ghost_bazaar.Engine.Session.Inversion.{entered, apply_event-eq_ok}

-- The states that the table calls terminal.
abbrev pub IsFinal : SessionState → Type 0
IsFinal s = (s ≡ committed) ⊎ ((s ≡ expired) ⊎ (s ≡ cancelled))

final_row :
    (at n : SessionState) (type : EventType)
    → IsFinal at
    → transition_rules at type ≡ some n
    → (at ≡ committed) × (type ≡ settlement_confirmed) × (n ≡ committed)
unfolding transition_rules
final_row committed n settlement_confirmed f h = (refl, refl, cc)
final_row committed n _ f h = absurd (cc)
final_row expired n _ f h = absurd (cc)
final_row cancelled n _ f h = absurd (cc)
final_row open_state n type f h = absurd (not_final)
  where
    not_final : ⊥
    not_final = ground arith
final_row negotiating n type f h = absurd (not_final)
  where
    not_final : ⊥
    not_final = ground arith
final_row commit_pending n type f h = absurd (not_final)
  where
    not_final : ⊥
    not_final = ground arith

pub settled :
    (e : NegotiationEvent) (s t : DerivedSession) → handle settlement_confirmed e s ≡ ok t → t ≡ s
unfolding handle
settled e s t h = cc

-- After the end an accepted event records a settlement and moves the last event's id only.
apply_event-final :
    (e : NegotiationEvent) (s t : DerivedSession)
    → IsFinal s.state
    → apply_event e s ≡ ok t
    → (s.state ≡ committed)
      × (e.type ≡ settlement_confirmed)
      × (t ≡ record s { last_event_id = e.event_id })
unfolding is_valid_transition
apply_event-final e s t final h =
    let (next, valid, handled) = apply_event-eq_ok e s t h in
    let (at, type, same) = final_row s.state next e.type final valid in
    let handled' = subst (λ y. handle y e (entered e s next) ≡ ok t) type handled in
    (at, type, settled e _ t handled' ∙ ap (entered e s) (same ∙ sym at))

-- Whatever events the replay accepts in a session that is committed, expired or cancelled: the
-- session stays as it was but for the id of its last event, each of the events confirms a
-- settlement, and a session that is not committed accepts none.
pub final_session_stays :
    (es : List NegotiationEvent) (s t : DerivedSession)
    → IsFinal s.state
    → replay s es ≡ ok t
    → (t ≡ record s { last_event_id = t.last_event_id })
      × All (λ e. e.type ≡ settlement_confirmed) es
      × ((s.state ≢ committed) → es ≡ [])
unfolding replay
final_session_stays [] s t final h =
    let same : t ≡ s = cc in
    (subst (λ u. u ≡ record s { last_event_id = u.last_event_id }) (sym same) refl, tt, λ _. refl)
final_session_stays (e ∷ es) s t final h = elim (Result-cases (apply_event e s)) [
  | inl (u, p) ↦
      let (at, type, moved) = apply_event-final e s u final p in
      let (kept, settlements, _) =
        final_session_stays es u t (subst IsFinal (sym (ap (λ v. v.state) moved)) final)
          (rw (p, replay) at h) in
      (
        subst (λ v. t ≡ record v { last_event_id = t.last_event_id }) moved kept,
        (type, settlements),
        λ other. absurd (other at),
      )
  | inr (x, p) ↦ absurd (thrown x p)
]
  where
    thrown : (x : DeriveError) → apply_event e s ≡ err x → ⊥
    thrown x p = ground arith
