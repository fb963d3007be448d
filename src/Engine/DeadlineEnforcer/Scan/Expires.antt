-- ===== src/Engine/DeadlineEnforcer/Scan/Expires.antt =====
-- packages/engine/src/deadline-enforcer.ts: what the callback makes of a session past its deadline.
use ghost_bazaar.Prelude.{
  ℕ, ◌≤◌, String, ===_refl, ◌≡◌, refl, sym, ap, ◌∙◌, subst, true, false, any, ltb, Option, none,
  some, ok, arith,
}
use ghost_bazaar.Core.External.{Externals}
use ghost_bazaar.Engine.Types.{NegotiationEvent, expired}
use ghost_bazaar.Engine.StateMachine.{is_valid_transition}
use ghost_bazaar.Engine.Session.{DerivedSession, derive_state, apply_event, handle}
use ghost_bazaar.Engine.Session.Replay.{derive_state-snoc}
use ghost_bazaar.Engine.EventStore.{
  EventStore, append, get_all_events, store_event, notify_subscribers, notify_terminal,
}
use ghost_bazaar.Engine.EventStore.Log.{is_seen}
use ghost_bazaar.Engine.SessionManager.{
  SessionManager, append_event, is_locked, enter_lock, leave_lock, persisted,
}
use ghost_bazaar.Engine.SessionManager.Soundness.{IsSound, get_session-Reads, append_event-IsSound}
use ghost_bazaar.Engine.Http.{Moment}
use ghost_bazaar.Engine.Http.Locked.{enter_lock-IsSound}
use ghost_bazaar.Engine.DeadlineEnforcer.{
  decide_expire, expired_event, locked_maybe, append_if, event_for, is_expirable_state,
}
use ghost_bazaar.Engine.DeadlineEnforcer.Progress.{expirable-leads}

pub append_works :
    (k : String) (e : NegotiationEvent) (st : EventStore)
    → e.rfq_id ≡ k
    → is_seen e.event_id st ≡ false
    → (st' : EventStore) × (append k e st ≡ ok st')
unfolding append
append_works k e st own fresh = (
  notify_terminal k e (notify_subscribers k e (store_event k e st)),
  rw (own, ===_refl k, fresh) refl,
)

module _ (x : Externals) where
  -- A session in an expirable state whose deadline is not later than the moment.
  pub record IsDue (k : String) (t : Moment) (m : SessionManager) : Type 0 where
    pub session : DerivedSession
    pub deadline : ℕ
    pub derived : derive_state (get_all_events k m.store) ≡ ok (some session)
    pub expirable : is_expirable_state session.state ≡ true
    pub parsed : x.parse_date session.rfq.deadline ≡ some deadline
    pub late : deadline ≤ t.now

  pub record IsExpired (k : String) (m : SessionManager) : Type 0 where
    pub session : DerivedSession
    pub derived : derive_state (get_all_events k m.store) ≡ ok (some session)
    pub is_expired : session.state ≡ expired

  decide_late :
      (k : String) (t : Moment) (s : DerivedSession) (deadline : ℕ)
      → is_expirable_state s.state ≡ true
      → x.parse_date s.rfq.deadline ≡ some deadline
      → deadline ≤ t.now
      → decide_expire x k t s ≡ some (expired_event k t)
  unfolding decide_expire
  decide_late k t s deadline expirable parsed late =
      let (_, open_yet) = expirable-leads s.state expirable in
      let early : ltb t.now deadline ≡ false = ground (arith, late) in
      rw (open_yet, expirable, parsed, early) refl

  apply_late :
      (k : String) (t : Moment) (s : DerivedSession)
      → is_expirable_state s.state ≡ true
      → apply_event (expired_event k t) s
        ≡ ok (record s { last_event_id = t.uuid; state = expired })
  unfolding apply_event handle is_valid_transition
  apply_late k t s expirable = let (rule, _) = expirable-leads s.state expirable in rw rule refl

  abbrev expired_session : Moment → DerivedSession → DerivedSession
  expired_session t s = record s { last_event_id = t.uuid; state = expired }

  append_late :
      (k : String) (t : Moment) (m : SessionManager) (s : DerivedSession)
      → is_locked k m ≡ true
      → is_seen t.uuid m.store ≡ false
      → derive_state (get_all_events k m.store) ≡ ok (some s)
      → is_expirable_state s.state ≡ true
      → (st : EventStore) × (append_event k (expired_event k t) t.now m
          ≡ ok (expired_session t s, persisted k (expired_session t s) t.now st m))
  unfolding append_event
  append_late k t m s locked fresh derived expirable =
      let (st, stored) = append_works k (expired_event k t) m.store refl fresh in
      (
        st,
        rw
            (
              locked,
              derive_state-snoc (get_all_events k m.store) (expired_event k t) s derived,
              apply_late k t s expirable,
              stored,
            )
            refl,
      )

  -- The callback on what `getSession` has found under the lock.
  append_if_late :
      (k : String) (t : Moment) (m : SessionManager) (o : Option DerivedSession)
      → IsSound m
      → is_locked k m ≡ true
      → is_seen t.uuid m.store ≡ false
      → derive_state (get_all_events k m.store) ≡ ok o
      → IsDue k t m
      → (m' : SessionManager) × ((append_if k (event_for (decide_expire x k t) o) t.now m ≡ ok m')
          × IsExpired k m')
  unfolding append_if leave_lock
  append_if_late k t m none v locked fresh derived due =
      absurd (let e : ok none ≡ ok (some due.session) = sym derived ∙ due.derived in cc)
  append_if_late k t m (some s) v locked fresh derived due =
      let e : ok (some s) ≡ ok (some due.session) = sym derived ∙ due.derived in
      let same : due.session ≡ s = cc in
      let expirable = subst (λ c. is_expirable_state c.state ≡ true) same due.expirable in
      let parsed = subst (λ c. x.parse_date c.rfq.deadline ≡ some due.deadline) same due.parsed in
      let (st, appended) = append_late k t m s locked fresh derived expirable in
      let (_, after, _, _) = append_event-IsSound k (expired_event k t) t.now m _ _ v appended in
      (
        leave_lock k (persisted k (expired_session t s) t.now st m),
        (
          rw (decide_late k t s due.deadline expirable parsed due.late, append_if, appended) refl,
          record { session = expired_session t s; derived = after; is_expired = refl },
        ),
      )

  pub same_store-IsDue :
      (k : String) (t : Moment) (m m' : SessionManager)
      → get_all_events k m'.store ≡ get_all_events k m.store
      → IsDue k t m
      → IsDue k t m'
  same_store-IsDue k t m m' same due = record {
    session = due.session;
    deadline = due.deadline;
    derived = ap derive_state same ∙ due.derived;
    expirable = due.expirable;
    parsed = due.parsed;
    late = due.late;
  }

  pub expire_works :
      (k : String) (t : Moment) (m : SessionManager)
      → IsSound m
      → is_seen t.uuid m.store ≡ false
      → IsDue k t m
      → (m' : SessionManager) × ((locked_maybe k t (decide_expire x k t) m ≡ ok m')
          × IsExpired k m')
  unfolding locked_maybe enter_lock any
  expire_works k t m v fresh due =
      let (o, m₁, read, derived, same, locks, sound) =
        get_session-Reads k t.now (enter_lock k m) (enter_lock-IsSound k m v) in
      let locked : is_locked k m₁ ≡ true = rw (locks, ===_refl k) refl in
      let (m', (done, out)) =
        append_if_late k t m₁ o sound locked (ap (is_seen t.uuid) same ∙ fresh)
          (ap (λ st. derive_state (get_all_events k st)) same ∙ derived)
          (same_store-IsDue k t m m₁ (ap (get_all_events k) same) due) in
      (m', (rw (read, locked_maybe) done, out))
