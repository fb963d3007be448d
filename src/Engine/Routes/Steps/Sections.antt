-- ===== src/Engine/Routes/Steps/Sections.antt =====
-- What one section under the lock does to the manager.
use ghost_bazaar.Prelude.{
  ℕ, String, ◌===◌, ◌≡◌, sym, ap, ◌∙◌, subst, true, false, not, [], ◌∷◌, ◌++◌, Option, none, some,
  ◌⊎◌, inl, inr, ok, >>=-eq-ok, Option-cases, arith,
}
use ghost_bazaar.Engine.Types.{NegotiationEvent}
use ghost_bazaar.Engine.Session.{DerivedSession, derive_state, open_session, replay}
use ghost_bazaar.Engine.Session.Replay.{derive_state-eq_ok}
use ghost_bazaar.Engine.EventStore.{get_all_events, empty_store}
use ghost_bazaar.Engine.SessionManager.{
  SessionManager, get_session, append_event, enter_lock, leave_lock, has_session,
}
use ghost_bazaar.Engine.SessionManager.Soundness.{
  IsSound, append_event-IsSound, length-eq_zero, size-length,
}
use ghost_bazaar.Engine.Http.{Moment}
use ghost_bazaar.Engine.Http.Locked.{
  Advances, append-Advances, append_event-others, read_under_lock, enter_lock-IsSound,
  leave_lock-IsSound,
}
use ghost_bazaar.Engine.DeadlineEnforcer.{locked_maybe, append_if, event_for}

-- The manager of a fresh process.
abbrev pub fresh : SessionManager
fresh = record { store = empty_store; active_locks = []; session_cache = [] }

-- What a scan did: it appended nothing, or it took one step.
abbrev pub ScanResult :
    String → (DerivedSession → Option NegotiationEvent) → SessionManager → SessionManager → Type 0
ScanResult k decide m m' =
    ((m'.store ≡ m.store) × IsSound m')
    ⊎ ((s s' : DerivedSession) × (e : NegotiationEvent) × (decide s ≡ some e)
        × Advances k s e s' m m')

append_if-steps :
    (k : String) (now : ℕ) (decide : DerivedSession → Option NegotiationEvent)
    (m m₁ m' : SessionManager) (session : Option DerivedSession)
    → m₁.store ≡ m.store
    → derive_state (get_all_events k m.store) ≡ ok session
    → IsSound m₁
    → append_if k (event_for decide session) now m₁ ≡ ok m'
    → ScanResult k decide m m'
unfolding append_if leave_lock
append_if-steps k now decide m m₁ m' none kept before v h =
    inl (subst (λ n. (n.store ≡ m.store) × IsSound n) (cc) (kept, leave_lock-IsSound k m₁ v))
append_if-steps k now decide m m₁ m' (some s) kept before v h = elim (Option-cases (decide s)) [
  | inl nothing ↦
      let done : ok (leave_lock k m₁) ≡ ok m' = rw (nothing, append_if) at h in
      inl (subst (λ n. (n.store ≡ m.store) × IsSound n) (cc) (kept, leave_lock-IsSound k m₁ v))
  | inr (e, decided) ↦
      let ((s', m₂), appended, done) =
        >>=-eq-ok (append_event k e now m₁) _ (rw (decided, append_if) at h) in
      inr (
        s,
        s',
        e,
        decided,
        subst (λ n. Advances k s e s' m n) (cc)
            (append-Advances k e now m m₁ m₂ s s' before kept v appended),
      )
]

pub locked_maybe-steps :
    (k : String) (t : Moment) (decide : DerivedSession → Option NegotiationEvent)
    (m m' : SessionManager)
    → IsSound m
    → locked_maybe k t decide m ≡ ok m'
    → ScanResult k decide m m'
unfolding locked_maybe
locked_maybe-steps k t decide m m' v h =
    let ((session, m₁), read, after) = >>=-eq-ok (get_session k t.now (enter_lock k m)) _ h in
    let (kept, before, sound) = read_under_lock k t.now m m₁ session v read in
    append_if-steps k t.now decide m m₁ m' session kept before sound after

-- The session that a single event derives.
one_event-opens :
    (e : NegotiationEvent) (s : DerivedSession)
    → derive_state (e ∷ []) ≡ ok (some s)
    → open_session e ≡ ok s
unfolding replay
one_event-opens e s h = let (s₀, opens, same) = derive_state-eq_ok e [] s h in opens ∙ same

-- The session `k` has just been created by the event `e`; the other logs are as they were.
pub record Opens (k : String) (e : NegotiationEvent) (s : DerivedSession) (m m' : SessionManager)
    : Type 0 where
  pub only_event : get_all_events k m'.store ≡ e ∷ []
  pub opens : open_session e ≡ ok s
  pub derived_opened : derive_state (get_all_events k m'.store) ≡ ok (some s)
  pub others_kept :
      (j : String) → (k === j) ≡ false → get_all_events j m'.store ≡ get_all_events j m.store
  pub sound_opened : IsSound m'

pub append-Opens :
    (k : String) (e : NegotiationEvent) (now : ℕ) (m m₁ : SessionManager) (s : DerivedSession)
    → IsSound m
    → get_all_events k m.store ≡ []
    → append_event k e now (enter_lock k m) ≡ ok (s, m₁)
    → Opens k e s m (leave_lock k m₁)
unfolding enter_lock leave_lock
append-Opens k e now m m₁ s v no_events h =
    let (sound, derived, log, _) =
      append_event-IsSound k e now (enter_lock k m) m₁ s (enter_lock-IsSound k m v) h in
    let only : get_all_events k m₁.store ≡ e ∷ [] = log ∙ ap (λ es. es ++ e ∷ []) no_events in
    record {
      only_event = only;
      opens = one_event-opens e s (ap derive_state (sym only) ∙ derived);
      derived_opened = derived;
      others_kept = λ j other. append_event-others k j e now (enter_lock k m) m₁ s h other;
      sound_opened = leave_lock-IsSound k m₁ sound;
    }

pub no_session-empty :
    (k : String) (m : SessionManager) → not (has_session k m) ≡ true → get_all_events k m.store ≡ []
unfolding has_session
no_session-empty k m h = length-eq_zero _ (ground (arith, size-length k m.store))
