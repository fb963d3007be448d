-- ===== src/Engine/Http/Locked.antt =====
-- A handler that works inside `withLock`: if it succeeds, the session under the lock made one step.
use ghost_bazaar.Prelude.{
  ℕ, String, ◌===◌, ◌≡◌, sym, ap, ◌∙◌, subst, false, [], ◌∷◌, ◌++◌, Option, some, Result, ok, err,
  or_throw, >>=-eq-ok,
}
use ghost_bazaar.Engine.Types.{NegotiationEvent}
use ghost_bazaar.Engine.Session.{DerivedSession, apply_event, derive_state}
use ghost_bazaar.Engine.Session.Inversion.{or_throw-eq-ok}
use ghost_bazaar.Engine.EventStore.{get_all_events}
use ghost_bazaar.Engine.EventStore.Log.{get_all_events-append}
use ghost_bazaar.Engine.SessionManager.{
  SessionManager, ManagerError, get_session, append_event, enter_lock, leave_lock,
}
use ghost_bazaar.Engine.SessionManager.Soundness.{
  IsSound, get_session-Reads, append_event-eq_ok, append_event-IsSound,
}
use ghost_bazaar.Engine.Http.{Reply, Moment, lift, locked_append}

-- One step from the session `s` to the session `t` by the event `e`: it is what the log derived
-- before, the event is accepted, and the new log derives `t`.
pub record Advances (k : String) (s : DerivedSession) (e : NegotiationEvent) (t : DerivedSession)
    (m m' : SessionManager) : Type 0 where
  pub derived_before : derive_state (get_all_events k m.store) ≡ ok (some s)
  pub accepted : apply_event e s ≡ ok t
  pub derived_after : derive_state (get_all_events k m'.store) ≡ ok (some t)
  pub log_extended : get_all_events k m'.store ≡ get_all_events k m.store ++ e ∷ []
  pub others_kept :
      (j : String) → (k === j) ≡ false → get_all_events j m'.store ≡ get_all_events j m.store
  pub sound_after : IsSound m'

pub lift-eq-ok {ℓ} : {A : Type ℓ} (r : Result ManagerError A) {a : A} → lift r ≡ ok a → r ≡ ok a
lift-eq-ok (ok a) h = cc
lift-eq-ok (err e) h = absurd (cc)

pub ok-pair {ℓ κ μ} :
    {E : Type ℓ} {A : Type κ} {B : Type μ} {a c : A} {b d : B}
    → ◌≡◌ {A = Result E (A × B)} (ok (a, b)) (ok (c, d))
    → (a ≡ c) × (b ≡ d)
ok-pair h = (cc, cc)

pub enter_lock-IsSound : (k : String) (m : SessionManager) → IsSound m → IsSound (enter_lock k m)
unfolding enter_lock
enter_lock-IsSound k m v = record { valid = v.valid; cached = v.cached }

pub leave_lock-IsSound : (k : String) (m : SessionManager) → IsSound m → IsSound (leave_lock k m)
unfolding leave_lock
leave_lock-IsSound k m v = record { valid = v.valid; cached = v.cached }

-- A successful read under the lock, and the session it is about.
pub read_under_lock :
    (k : String) (now : ℕ) (m m₁ : SessionManager) (session : Option DerivedSession)
    → IsSound m
    → get_session k now (enter_lock k m) ≡ ok (session, m₁)
    → (m₁.store ≡ m.store) × (derive_state (get_all_events k m.store) ≡ ok session) × IsSound m₁
unfolding enter_lock
read_under_lock k now m m₁ session v h =
    let (o, m₂, read, derived, same, _, sound) =
      get_session-Reads k now (enter_lock k m) (enter_lock-IsSound k m v) in
    let (found, managed) = ok-pair (sym h ∙ read) in
    (
      ap (λ n. n.store) managed ∙ same,
      derived ∙ ap ok (sym found),
      subst IsSound (sym managed) sound,
    )

-- An append leaves the logs of the other sessions as they are.
pub append_event-others :
    (k j : String) (e : NegotiationEvent) (now : ℕ) (m m' : SessionManager) (s : DerivedSession)
    → append_event k e now m ≡ ok (s, m')
    → (k === j) ≡ false
    → get_all_events j m'.store ≡ get_all_events j m.store
append_event-others k j e now m m' s h other =
    let (st, _, _, stored, same) = append_event-eq_ok k e now m m' s h in
    rw same (rw other at (get_all_events-append k j e m.store st stored))

-- The step of a session under its lock, once its event is decided.
pub append-Advances :
    (k : String) (e : NegotiationEvent) (now : ℕ) (m m₁ m₂ : SessionManager) (s s' : DerivedSession)
    → derive_state (get_all_events k m.store) ≡ ok (some s)
    → m₁.store ≡ m.store
    → IsSound m₁
    → append_event k e now m₁ ≡ ok (s', m₂)
    → Advances k s e s' m (leave_lock k m₂)
unfolding leave_lock
append-Advances k e now m m₁ m₂ s s' before kept v h =
    let (sound, derived, log, steps) = append_event-IsSound k e now m₁ m₂ s' v h in
    record {
      derived_before = before;
      accepted = steps s (ap (λ st. derive_state (get_all_events k st)) kept ∙ before);
      derived_after = derived;
      log_extended = log ∙ ap (λ st. get_all_events k st ++ e ∷ []) kept;
      others_kept =
          λ j other. append_event-others k j e now m₁ m₂ s' h other ∙ ap (get_all_events j) kept;
      sound_after = leave_lock-IsSound k m₂ sound;
    }

-- A locked request that succeeds did one step: its decision, on the session that the log derives,
-- gave an event, the reducer accepted it, and the log grew by exactly that event.
pub locked_append-Advances :
    (k : String) (t : Moment) (decide : DerivedSession → Reply NegotiationEvent)
    (m m' : SessionManager) (s' : DerivedSession)
    → IsSound m
    → locked_append k t decide m ≡ ok (s', m')
    → (s : DerivedSession) × (e : NegotiationEvent) × (decide s ≡ ok e) × Advances k s e s' m m'
unfolding locked_append
locked_append-Advances k t decide m m' s' v h =
    let ((session, m₁), read, after) =
      >>=-eq-ok (lift (get_session k t.now (enter_lock k m))) _ h in
    let (s, found, later) = >>=-eq-ok (or_throw session _) _ after in
    let (e, decided, rest) = >>=-eq-ok (decide s) _ later in
    let ((s₂, m₂), appended, done) = >>=-eq-ok (lift (append_event k e t.now m₁)) _ rest in
    let (same, managed) = ok-pair done in
    let (kept, before, sound) =
      read_under_lock k t.now m m₁ (some s) v
        (lift-eq-ok _ read ∙ ap (λ o. ok (o, m₁)) (or_throw-eq-ok _ _ found)) in
    (
      s,
      e,
      decided,
      subst (λ n. Advances k s e s' m n) managed
          (subst (λ u. Advances k s e u m (leave_lock k m₂)) same
            (append-Advances k e t.now m m₁ m₂ s s₂ before kept sound (lift-eq-ok _ appended))),
    )
