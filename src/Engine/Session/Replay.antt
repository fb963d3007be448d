-- ===== src/Engine/Session/Replay.antt =====
-- `deriveState` is a fold: a longer log is derived by one more step.
use ghost_bazaar.Prelude.{
  ◌≡◌, refl, List, [], ◌∷◌, ◌++◌, none, some, inl, inr, arith, ok, err, ◌>>=◌, Result-cases,
  >>=-eq-ok, ◌≢◌, subst,
}
use ghost_bazaar.Engine.Types.{NegotiationEvent}
use ghost_bazaar.Engine.Session.{
  DeriveError, DerivedSession, apply_event, replay, open_session, derive_state,
}

pub replay-append :
    (s : DerivedSession) (es fs : List NegotiationEvent)
    → replay s (es ++ fs) ≡ (replay s es >>= λ t. replay t fs)
unfolding replay
replay-append s [] fs = refl
replay-append s (e ∷ es) fs = elim (Result-cases (apply_event e s)) [
  | inl (t, p) ↦ rw (p, replay) (replay-append t es fs)
  | inr (x, p) ↦ rw (p, replay)
]

pub replay-snoc :
    (s : DerivedSession) (es : List NegotiationEvent) (e : NegotiationEvent)
    → replay s (es ++ e ∷ []) ≡ (replay s es >>= apply_event e)
unfolding replay
replay-snoc s [] e = elim (Result-cases (apply_event e s)) [
  | inl (t, p) ↦ rw (p, replay)
  | inr (x, p) ↦ rw (p, replay)
]
replay-snoc s (f ∷ es) e = elim (Result-cases (apply_event f s)) [
  | inl (t, p) ↦ rw (p, replay) (replay-snoc t es e)
  | inr (x, p) ↦ rw (p, replay)
]

-- What a derived log is made of: its first event opens the session and the others are replayed.
pub derive_state-eq_ok :
    (first : NegotiationEvent) (rest : List NegotiationEvent) (s : DerivedSession)
    → derive_state (first ∷ rest) ≡ ok (some s)
    → (s₀ : DerivedSession) × (open_session first ≡ ok s₀) × (replay s₀ rest ≡ ok s)
unfolding derive_state
derive_state-eq_ok first rest s h =
    let (s₀, opened, more) = >>=-eq-ok (open_session first) _ h in
    let (t, replayed, same) = >>=-eq-ok (replay s₀ rest) (λ t. ok (some t)) more in
    (s₀, opened, rw replayed (cc))

-- One more event on a log that is derived already costs one step of the loop.
pub derive_state-snoc :
    (es : List NegotiationEvent) (e : NegotiationEvent) (s : DerivedSession)
    → derive_state es ≡ ok (some s)
    → derive_state (es ++ e ∷ []) ≡ (apply_event e s >>= λ t. ok (some t))
unfolding derive_state
derive_state-snoc [] e s h = cc
derive_state-snoc (first ∷ rest) e s h =
    let (s₀, opened, replayed) = derive_state-eq_ok first rest s h in
    rw (opened, replay-snoc s₀ rest e, replayed)

-- A log that is not empty derives a session or throws.
pub derive_state-ne_none :
    (first : NegotiationEvent) (rest : List NegotiationEvent)
    → derive_state (first ∷ rest) ≢ ok none
unfolding derive_state
derive_state-ne_none first rest h =
    let (s₀, opened, more) = >>=-eq-ok (open_session first) _ h in
    let (t, replayed, same) = >>=-eq-ok (replay s₀ rest) (λ t. ok (some t)) more in cc

-- Induction over logs: what every opened session has and every accepted event keeps.
module _ {ℓ} (P : DerivedSession → Type ℓ)
    (opens : (first : NegotiationEvent) (s : DerivedSession) → open_session first ≡ ok s → P s)
    (keeps : (e : NegotiationEvent) (s t : DerivedSession)
      → apply_event e s ≡ ok t
      → P s
      → P t) where
  pub replay_ind :
      (es : List NegotiationEvent) (s t : DerivedSession) → replay s es ≡ ok t → P s → P t
  unfolding replay
  replay_ind [] s t h p = subst P (cc) p
  replay_ind (e ∷ es) s t h p = elim (Result-cases (apply_event e s)) [
    | inl (u, q) ↦ replay_ind es u t (rw (q, replay) at h) (keeps e s u q p)
    | inr (x, q) ↦ absurd (replay_err x q)
  ]
    where
      replay_err : (x : DeriveError) → apply_event e s ≡ err x → ⊥
      replay_err x q = ground arith

  pub derive_state_ind :
      (es : List NegotiationEvent) (s : DerivedSession) → derive_state es ≡ ok (some s) → P s
  unfolding derive_state
  derive_state_ind [] s h = absurd (cc)
  derive_state_ind (first ∷ rest) s h =
      let (s₀, opened, replayed) = derive_state-eq_ok first rest s h in
      replay_ind rest s₀ s replayed (opens first s₀ opened)
