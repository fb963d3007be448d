-- ===== src/Engine/DeadlineEnforcer/Scan/Timeouts.antt =====
-- packages/engine/src/deadline-enforcer.ts: what the callback makes of a commitment that is overdue.
use ghost_bazaar.Prelude.{
  ℕ, String, ===_refl, ◌≡◌, refl, sym, ap, ◌∙◌, true, false, any, none, some, ok,
}
use ghost_bazaar.Core.External.{Externals}
use ghost_bazaar.Engine.Types.{NegotiationEvent, commit_pending, negotiating}
use ghost_bazaar.Engine.Session.{DerivedSession, derive_state, apply_event}
use ghost_bazaar.Engine.Session.Replay.{derive_state-snoc}
use ghost_bazaar.Engine.EventStore.{get_all_events}
use ghost_bazaar.Engine.EventStore.Log.{is_seen}
use ghost_bazaar.Engine.SessionManager.{
  SessionManager, append_event, is_locked, enter_lock, leave_lock, persisted,
}
use ghost_bazaar.Engine.SessionManager.Soundness.{IsSound, get_session-Reads, append_event-IsSound}
use ghost_bazaar.Engine.Http.{Moment}
use ghost_bazaar.Engine.Http.Locked.{enter_lock-IsSound}
use ghost_bazaar.Engine.ControlEnvelope.{nonempty}
use ghost_bazaar.Engine.Routes.Steps.Decisions.{decide_timeout-eq_some}
use ghost_bazaar.Engine.DeadlineEnforcer.{decide_timeout, locked_maybe, append_if, is_overdue}
use ghost_bazaar.Engine.DeadlineEnforcer.Progress.{timeout_succeeds}
use ghost_bazaar.Engine.DeadlineEnforcer.Scan.Expires.{append_works}

-- An event that the reducer accepts is appended, and the log derives what the reducer made of it.
append_if_works :
    (k : String) (e : NegotiationEvent) (now : ℕ) (m : SessionManager) (s s' : DerivedSession)
    → IsSound m
    → is_locked k m ≡ true
    → e.rfq_id ≡ k
    → is_seen e.event_id m.store ≡ false
    → derive_state (get_all_events k m.store) ≡ ok (some s)
    → apply_event e s ≡ ok s'
    → (m' : SessionManager) × ((append_if k (some e) now m ≡ ok m')
        × (derive_state (get_all_events k m'.store) ≡ ok (some s')))
unfolding append_event append_if leave_lock
append_if_works k e now m s s' v locked own fresh derived accepted =
    let (st, stored) = append_works k e m.store own fresh in
    let appended : append_event k e now m ≡ ok (s', persisted k s' now st m) =
      rw (locked, derive_state-snoc (get_all_events k m.store) e s derived, accepted, stored)
        refl in
    let (_, after, _, _) = append_event-IsSound k e now m _ _ v appended in
    (leave_lock k (persisted k s' now st m), (rw (append_if, appended) refl, after))

module _ (x : Externals) (timeout : ℕ) where
  -- A commitment that is pending for the timeout or longer, of a named seller.
  pub record IsOverdue (k : String) (t : Moment) (m : SessionManager) : Type 0 where
    pub session : DerivedSession
    pub since : String
    pub seller : String
    pub derived : derive_state (get_all_events k m.store) ≡ ok (some session)
    pub pending : session.state ≡ commit_pending
    pub began : session.commit_pending_at ≡ some since
    pub overdue : is_overdue x (some since) timeout t.now ≡ true
    pub dated : nonempty (some since) ≡ some since
    pub selected : session.selected_seller ≡ some seller
    pub named : nonempty (some seller) ≡ some seller

  -- The log derives a session that negotiates and has neither a selected seller nor a quote.
  pub record IsReleased (k : String) (m : SessionManager) : Type 0 where
    pub session : DerivedSession
    pub derived : derive_state (get_all_events k m.store) ≡ ok (some session)
    pub negotiates : session.state ≡ negotiating
    pub unselected : session.selected_seller ≡ none
    pub unquoted : session.unsigned_quote ≡ none

  -- On a sound manager, if the commitment of a session is pending for the timeout or longer and
  -- names a seller, and the id of the moment is unused: the callback of tryCosignTimeout, when
  -- its lock is granted, appends an event after which the log derives a session that negotiates,
  -- without seller and quote.
  pub timeout_releases :
      (k : String) (t : Moment) (m : SessionManager)
      → IsSound m
      → is_seen t.uuid m.store ≡ false
      → IsOverdue k t m
      → (m' : SessionManager) × ((locked_maybe k t (decide_timeout x timeout k t) m ≡ ok m')
          × IsReleased k m')
  unfolding locked_maybe enter_lock any
  timeout_releases k t m v fresh due =
      let (o, m₁, read, derived, same, locks, sound) =
        get_session-Reads k t.now (enter_lock k m) (enter_lock-IsSound k m v) in
      let locked : is_locked k m₁ ≡ true = rw (locks, ===_refl k) refl in
      let (e, s', decided, accepted, negotiates, unselected, unquoted) =
        timeout_succeeds x timeout k t due.session due.since due.seller due.pending due.began
          due.overdue due.dated due.selected due.named in
      let (seller, event) = decide_timeout-eq_some x timeout k t due.session e decided in
      let both : ok o ≡ ok (some due.session) = sym derived ∙ due.derived in
      let found : o ≡ some due.session = cc in
      let (m', (done, after)) =
        append_if_works k e t.now m₁ due.session s' sound locked (ap (λ f. f.rfq_id) event)
          (ap (λ f. is_seen f.event_id m₁.store) event ∙ ap (is_seen t.uuid) same ∙ fresh)
          (ap (λ st. derive_state (get_all_events k st)) same ∙ due.derived) accepted in
      (
        m',
        (
          rw (read, locked_maybe) (rw (found, decided) done),
          record {
            session = s';
            derived = after;
            negotiates = negotiates;
            unselected = unselected;
            unquoted = unquoted;
          },
        ),
      )
