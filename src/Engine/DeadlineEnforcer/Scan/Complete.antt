-- ===== src/Engine/DeadlineEnforcer/Scan/Complete.antt =====
-- packages/engine/src/deadline-enforcer.ts: what a scan makes of sessions past their deadline.
use ghost_bazaar.Prelude.{
  ℕ, String, ◌===◌, ===_iff, ◌≡◌, refl, sym, ap, ◌∙◌, subst, Bool, true, false, ◌||◌, any,
  Bool-cases, Option-cases, List, [], ◌∷◌, Option, none, some, inl, inr, ok, Result-cases, if_holds,
  arith,
}
use ghost_bazaar.Prelude.Dict.{Dict, lookup, keys}
use ghost_bazaar.Core.External.{Externals}
use ghost_bazaar.Engine.Session.{DerivedSession, derive_state}
use ghost_bazaar.Engine.EventStore.{list_session_ids, get_all_events}
use ghost_bazaar.Engine.EventStore.Log.{is_seen}
use ghost_bazaar.Engine.SessionManager.{
  SessionManager, get_session, get_active_session_ids, evict_stale_cache,
}
use ghost_bazaar.Engine.SessionManager.Soundness.{IsSound, get_session-Reads}
use ghost_bazaar.Engine.Http.{Moment, has_passed}
use ghost_bazaar.Engine.DeadlineEnforcer.{
  ScanAction, scan_session, try_expire, clean_up, try_cosign_timeout, leave, is_terminal_state,
}
use ghost_bazaar.Engine.SqliteEventStore.{add_id}
use ghost_bazaar.Engine.DeadlineEnforcer.Progress.{expirable-leads}
use ghost_bazaar.Engine.DeadlineEnforcer.Scan.{
  Scanner, mark, clean_session, act_on, visit_read, visit, visit_all, finish_scan, scan,
}
use ghost_bazaar.Engine.DeadlineEnforcer.Scan.Effects.{visit-Leads, remove_lock-IsSound}
use ghost_bazaar.Engine.DeadlineEnforcer.Scan.Expires.{
  IsDue, IsExpired, same_store-IsDue, expire_works,
}

any-add_id :
    (k j : String) (ids : List String)
    → (j === k) ≡ false
    → any (λ i. i === k) (add_id j ids) ≡ any (λ i. i === k) ids
unfolding any add_id
any-add_id k j [] e = rw e refl
any-add_id k j (i ∷ ids) e =
    if_holds (λ (l : List String). any (λ h. h === k) l ≡ (i === k || any (λ h. h === k) ids))
      (i === j) (λ _. refl) (λ _. ap (λ b. i === k || b) (any-add_id k j ids e))

keys-lookup {ℓ} :
    {V : Type ℓ} (k : String) (m : Dict V) {v : V}
    → lookup k m ≡ some v
    → any (λ j. j === k) (keys m) ≡ true
unfolding lookup keys any
keys-lookup k [] e = absurd (cc)
keys-lookup k ((j, w) ∷ m) e = elim (Bool-cases (j === k)) [
  | inl y ↦ rw y refl
  | inr n ↦ rw n (keys-lookup k m (rw n at e))
]

any-mark :
    (k j : String) (b : Bool) (ids : List String)
    → (j === k) ≡ false
    → any (λ i. i === k) (mark b j ids) ≡ any (λ i. i === k) ids
any-mark k j true ids e = any-add_id k j ids e
any-mark k j false ids e = refl

module _ (x : Externals) (timeout : ℕ) (busy : String → Bool) (waiting : String → Option ℕ)
    (at : String → Moment) where
  -- Which sessions were cleaned up before a visit of another one.
  abbrev KeepsMark : String → Scanner → Scanner → Type 0
  KeepsMark k s s' =
      any (λ i. i === k) s'.cleaned_up_sessions ≡ any (λ i. i === k) s.cleaned_up_sessions

  act_on-KeepsMark :
      (a : ScanAction) (k j : String) (s : Scanner)
      → (j === k) ≡ false
      → KeepsMark k s (act_on x timeout busy waiting at a j s)
  unfolding act_on clean_session
  act_on-KeepsMark clean_up k j s e = any-mark k j _ s.cleaned_up_sessions e
  act_on-KeepsMark try_expire k j s e = if_holds (KeepsMark k s) (busy j) (λ _. refl) (λ _. refl)
  act_on-KeepsMark try_cosign_timeout k j s e =
      if_holds (KeepsMark k s) (busy j) (λ _. refl) (λ _. refl)
  act_on-KeepsMark leave k j s e = refl

  read-KeepsMark :
      (k j : String) (s : Scanner) (o : Option DerivedSession) (m : SessionManager)
      → (j === k) ≡ false
      → KeepsMark k s (visit_read x timeout busy waiting at j s (ok (o, m)))
  unfolding visit_read
  read-KeepsMark k j s none m e = refl
  read-KeepsMark k j s (some c) m e =
      act_on-KeepsMark (scan_session x timeout (at j).now c) k j (record s { manager = m }) e

  visit-KeepsMark :
      (k j : String) (s : Scanner)
      → (j === k) ≡ false
      → KeepsMark k s (visit x timeout busy waiting at j s)
  unfolding visit visit_read
  visit-KeepsMark k j s e =
      if_holds (KeepsMark k s) (any (λ i. i === j) s.cleaned_up_sessions) (λ _. refl)
        (λ _. elim (Result-cases (get_session j (at j).now s.manager)) [
          | inr (f, p) ↦ rw p refl
          | inl ((o, m), p) ↦ rw p (read-KeepsMark k j s o m e)
        ])

  -- What a visit does with a session that is due.
  scan_session-due :
      (k : String) (m : SessionManager) (due : IsDue x k (at k) m)
      → scan_session x timeout (at k).now due.session ≡ try_expire
  unfolding scan_session
  scan_session-due k m due =
      let (_, open_yet) = expirable-leads due.session.state due.expirable in
      let passed : has_passed x due.session.rfq.deadline (at k).now ≡ true =
        rw (has_passed, due.parsed) (ground (arith, due.late)) in
      rw (open_yet, due.expirable, passed) refl

  visit_due :
      (k : String) (s : Scanner)
      → busy k ≡ false
      → IsSound s.manager
      → any (λ j. j === k) s.cleaned_up_sessions ≡ false
      → is_seen (at k).uuid s.manager.store ≡ false
      → IsDue x k (at k) s.manager
      → IsExpired x k (visit x timeout busy waiting at k s).manager
  unfolding visit visit_read act_on
  visit_due k s granted v unmarked fresh due =
      let (o, m, read, derived, same, _, sound) = get_session-Reads k (at k).now s.manager v in
      let e : ok o ≡ ok (some due.session) = sym derived ∙ due.derived in
      let found : o ≡ some due.session = cc in
      let due' = same_store-IsDue x k (at k) s.manager m (ap (get_all_events k) same) due in
      let (m', (done, out)) =
        expire_works x k (at k) m sound (ap (is_seen (at k).uuid) same ∙ fresh) due' in
      rw (unmarked, read, found, scan_session-due k s.manager due, granted, done) out

  same_store-IsExpired :
      (k : String) (m m' : SessionManager)
      → get_all_events k m'.store ≡ get_all_events k m.store
      → IsExpired x k m
      → IsExpired x k m'
  same_store-IsExpired k m m' same out = record {
    session = out.session;
    derived = ap derive_state same ∙ out.derived;
    is_expired = out.is_expired;
  }

  -- A visit of an expired session cleans up, and leaves its log alone.
  revisit-IsExpired :
      (k : String) (s : Scanner)
      → IsSound s.manager
      → IsExpired x k s.manager
      → IsExpired x k (visit x timeout busy waiting at k s).manager
  unfolding visit visit_read act_on clean_session scan_session is_terminal_state
  revisit-IsExpired k s v out =
      let (o, m, read, derived, same, _, sound) = get_session-Reads k (at k).now s.manager v in
      let e : ok o ≡ ok (some out.session) = sym derived ∙ out.derived in
      let found : o ≡ some out.session = cc in
      let (kept, _) = remove_lock-IsSound k (waiting k) m sound in
      if_holds (λ (u : Scanner). IsExpired x k u.manager) (any (λ j. j === k) s.cleaned_up_sessions)
        (λ _. out)
        (λ _.
          rw (read, found, out.is_expired)
            (same_store-IsExpired k s.manager _ (ap (get_all_events k) (kept ∙ same)) out))

  visit-IsExpired :
      (k j : String) (s : Scanner)
      → IsSound s.manager
      → IsExpired x k s.manager
      → IsExpired x k (visit x timeout busy waiting at j s).manager
  visit-IsExpired k j s v out = elim (Bool-cases (j === k)) [
    | inl y ↦
        subst (λ i. IsExpired x k (visit x timeout busy waiting at i s).manager)
          (sym ((===_iff j k).0 y)) (revisit-IsExpired k s v out)
    | inr n ↦
        same_store-IsExpired k s.manager _
          ((visit-Leads x timeout busy waiting at j s v).others k n) out
  ]

  visit_all-IsExpired :
      (k : String) (js : List String) (s : Scanner)
      → IsSound s.manager
      → IsExpired x k s.manager
      → IsExpired x k (visit_all x timeout busy waiting at js s).manager
  unfolding visit_all
  visit_all-IsExpired k [] s v out = out
  visit_all-IsExpired k (j ∷ js) s v out =
      visit_all-IsExpired k js (visit x timeout busy waiting at j s)
        (visit-Leads x timeout busy waiting at j s v).sound (visit-IsExpired k j s v out)

  -- The moments have different ids.
  abbrev pub Differ : Type 0
  Differ = (j k : String) → (at j).uuid ≡ (at k).uuid → j ≡ k

  visit_other-fresh :
      (k j : String) (s : Scanner)
      → Differ
      → IsSound s.manager
      → (j === k) ≡ false
      → is_seen (at k).uuid s.manager.store ≡ false
      → is_seen (at k).uuid (visit x timeout busy waiting at j s).manager.store ≡ false
  unfolding any
  visit_other-fresh k j s apart v n fresh =
      elim (visit-Leads x timeout busy waiting at j s v).seen [
        | inl same ↦ rw same fresh
        | inr more ↦
            rw more
              (ground (arith, fresh, n, ===_iff j k, apart j k, ===_iff (at j).uuid (at k).uuid))
      ]

  visit_all-expires :
      (k : String) (js : List String) (s : Scanner)
      → Differ
      → busy k ≡ false
      → any (λ j. j === k) js ≡ true
      → IsSound s.manager
      → any (λ j. j === k) s.cleaned_up_sessions ≡ false
      → is_seen (at k).uuid s.manager.store ≡ false
      → IsDue x k (at k) s.manager
      → IsExpired x k (visit_all x timeout busy waiting at js s).manager
  unfolding visit_all any
  visit_all-expires k [] s apart granted listed v unmarked fresh due = absurd (cc)
  visit_all-expires k (j ∷ js) s apart granted listed v unmarked fresh due =
      elim (Bool-cases (j === k)) [
        | inl y ↦
            visit_all-IsExpired k js (visit x timeout busy waiting at j s)
              (visit-Leads x timeout busy waiting at j s v).sound
              (subst (λ i. IsExpired x k (visit x timeout busy waiting at i s).manager)
                (sym ((===_iff j k).0 y)) (visit_due k s granted v unmarked fresh due))
        | inr n ↦
            let l = visit-Leads x timeout busy waiting at j s v in
            visit_all-expires k js (visit x timeout busy waiting at j s) apart granted
              (rw n at listed) l.sound (visit-KeepsMark k j s n ∙ unmarked)
              (visit_other-fresh k j s apart v n fresh)
              (same_store-IsDue x k (at k) s.manager _ (l.others k n) due)
      ]

  -- A session whose log derives something is listed.
  due-listed :
      (k : String) (m : SessionManager)
      → IsDue x k (at k) m
      → any (λ j. j === k) (get_active_session_ids m) ≡ true
  unfolding get_active_session_ids list_session_ids get_all_events derive_state
  due-listed k m due = elim (Option-cases (lookup k m.store.events)) [
    | inr (es, e) ↦ keys-lookup k m.store.events e
    | inl e ↦ absurd (let d = rw e at due.derived in cc)
  ]

  -- On a sound manager a scan that is not stopped, during which no request is served and whose
  -- moments have different event ids, expires every session that is in an expirable state and
  -- whose deadline is not later than its moment, if its lock is not refused, it is not marked as
  -- cleaned up and the id of its moment is unused, whatever the other sessions are and whatever
  -- fails for them.
  pub scan_expires_overdue :
      (k : String) (after : ℕ) (s : Scanner)
      → ((i j : String) → (at i).uuid ≡ (at j).uuid → i ≡ j)
      → busy k ≡ false
      → IsSound s.manager
      → any (λ j. j === k) s.cleaned_up_sessions ≡ false
      → is_seen (at k).uuid s.manager.store ≡ false
      → IsDue x k (at k) s.manager
      → IsExpired x k (scan x timeout busy waiting at after s).manager
  unfolding scan finish_scan evict_stale_cache
  scan_expires_overdue k after s apart granted v unmarked fresh due =
      same_store-IsExpired k _ _ refl (
        visit_all-expires k (get_active_session_ids s.manager) s apart granted
          (due-listed k s.manager due) v unmarked fresh due)
