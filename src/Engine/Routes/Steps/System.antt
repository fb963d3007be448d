-- ===== src/Engine/Routes/Steps/System.antt =====
-- The whole system: a manager that starts empty and serves requests, scans and reads in any order.
use ghost_bazaar.Prelude.{
  ℕ, String, ◌===◌, ===_iff, ◌≡◌, refl, sym, ap, ◌∙◌, subst, false, not, Bool-cases, Option, some,
  inl, inr, ok, >>=-eq-ok, require-eq-ok,
}
use ghost_bazaar.Prelude.Dict.{Dict, lookup}
use ghost_bazaar.Prelude.Json.{Payload}
use ghost_bazaar.Core.External.{Externals}
use ghost_bazaar.Engine.Types.{NegotiationEvent}
use ghost_bazaar.Engine.Session.{DerivedSession, derive_state}
use ghost_bazaar.Engine.EventStore.{get_all_events, empty_store}
use ghost_bazaar.Engine.SessionManager.{
  SessionManager, get_session, append_event, enter_lock, leave_lock, has_session, evict_stale_cache,
}
use ghost_bazaar.Engine.SessionManager.Soundness.{
  IsSound, get_session-Reads, evict_stale_cache-IsSound,
}
use ghost_bazaar.Engine.Http.{Moment, lift, text_of}
use ghost_bazaar.Engine.Http.Locked.{Advances, ok-pair, lift-eq-ok}
use ghost_bazaar.Engine.DeadlineEnforcer.{locked_maybe, decide_expire, decide_timeout}
use ghost_bazaar.Engine.Routes.Rfqs.{rfq_event, check_rfq, post_rfq}
use ghost_bazaar.Settlement.Transaction.{Chain}
use ghost_bazaar.Settlement.Execute.{VerificationResult}
use ghost_bazaar.Engine.Routes.Settle.{post_execute, post_settle_report}
use ghost_bazaar.Engine.Routes.Settle.Recorded.{
  Records, record_settlement-Records, post_execute-SettledBy, post_settle_report-SettledBy,
}
use ghost_bazaar.Engine.Routes.Steps.{
  Decided, by_expiry, by_timeout, Reachable, opened, stepped, paid,
}
use ghost_bazaar.Engine.Routes.Steps.Served.{Served, Served-Advances}
use ghost_bazaar.Engine.Routes.Steps.Sections.{
  fresh, ScanResult, locked_maybe-steps, Opens, append-Opens, no_session-empty,
}

module _ (x : Externals) where
  -- A session that POST /rfqs creates on a sound manager is opened by the only event of its log;
  -- the other logs stay as they are and the manager stays sound.
  pub post_rfq-Opens :
      (b : Payload) (now : ℕ) (before : SessionManager) (t : Moment) (m m' : SessionManager)
      (s' : DerivedSession)
      → IsSound m
      → post_rfq x (some b) now before t m ≡ ok (s', m')
      → Opens (text_of b "rfq_id") (rfq_event b t) s' m m'
  unfolding post_rfq
  post_rfq-Opens b now before t m m' s' v h =
      let k : String = text_of b "rfq_id" in
      let (_, _, h₁) = >>=-eq-ok (check_rfq x b now) _ h in
      let (_, h₂) = require-eq-ok (not (has_session k before)) _ _ h₁ in
      let (fresh_here, h₃) = require-eq-ok (not (has_session k m)) _ _ h₂ in
      let ((s, m₁), appended, done) =
        >>=-eq-ok (lift (append_event k (rfq_event b t) t.now (enter_lock k m))) _ h₃ in
      let (same, managed) = ok-pair done in
      subst (λ n. Opens k (rfq_event b t) s' m n) managed
        (subst (λ u. Opens k (rfq_event b t) u m (leave_lock k m₁)) same
          (append-Opens k (rfq_event b t) t.now m m₁ s v (no_session-empty k m fresh_here)
            (lift-eq-ok _ appended)))

  -- The managers that a process goes through.
  pub data Run : SessionManager → Type 0 where
    started : Run fresh
    rfq_posted :
        (m m' : SessionManager) (b : Payload) (now : ℕ) (before : SessionManager) (t : Moment)
        (s' : DerivedSession)
        → Run m
        → post_rfq x (some b) now before t m ≡ ok (s', m')
        → Run m'
    request_served :
        (k : String) (m m' : SessionManager) (s' : DerivedSession)
        → Run m
        → Served x k m s' m'
        → Run m'
    execute_served :
        (c : Chain) (decimals : Dict ℕ) (mint : String) (cluster header signature : Option String)
        (now : ℕ) (before : SessionManager) (t : Moment) (m m' : SessionManager)
        (r : VerificationResult)
        → Run m
        → post_execute x c decimals mint cluster header signature now before t m ≡ ok (r, m')
        → Run m'
    settle_report_served :
        (c : Chain) (decimals : Dict ℕ) (mint : String) (cluster : Option String)
        (k caller : String) (body : Option Payload) (now : ℕ) (before : SessionManager) (t : Moment)
        (m m' : SessionManager) (r : VerificationResult)
        → Run m
        → post_settle_report x c decimals mint cluster k caller body now before t m ≡ ok (r, m')
        → Run m'
    expiry_scanned :
        (k : String) (t : Moment) (m m' : SessionManager)
        → Run m
        → locked_maybe k t (decide_expire x k t) m ≡ ok m'
        → Run m'
    timeout_scanned :
        (timeout : ℕ) (k : String) (t : Moment) (m m' : SessionManager)
        → Run m
        → locked_maybe k t (decide_timeout x timeout k t) m ≡ ok m'
        → Run m'
    session_read :
        (k : String) (now : ℕ) (m m' : SessionManager) (o : Option DerivedSession)
        → Run m
        → get_session k now m ≡ ok (o, m')
        → Run m'
    cache_evicted :
        (now max_age : ℕ) (m : SessionManager) → Run m → Run (evict_stale_cache now max_age m)

  -- The manager is sound, and every session in it has been reached by steps.
  pub record IsReached (m : SessionManager) : Type 0 where
    pub sound : IsSound m
    pub reached :
        (k : String) (s : DerivedSession)
        → derive_state (get_all_events k m.store) ≡ ok (some s)
        → Reachable x s

  same_log : (m m' : SessionManager) → IsReached m → m'.store ≡ m.store → IsSound m' → IsReached m'
  same_log m m' r kept v = record {
    sound = v;
    reached = λ k s h. r.reached k s (ap (λ st. derive_state (get_all_events k st)) (sym kept) ∙ h);
  }

  -- A change of one log keeps the invariant if the new session of that log is reachable.
  one_log :
      (k : String) (s' : DerivedSession) (m m' : SessionManager)
      → IsReached m
      → IsSound m'
      → derive_state (get_all_events k m'.store) ≡ ok (some s')
      → ((j : String) → (k === j) ≡ false → get_all_events j m'.store ≡ get_all_events j m.store)
      → Reachable x s'
      → IsReached m'
  one_log k s' m m' r v derived others now = record {
    sound = v;
    reached = λ j s h. elim (Bool-cases (k === j)) [
      | inl same ↦ subst (Reachable x) (same_session j s h ((===_iff k j).0 same)) now
      | inr other ↦ r.reached j s (ap derive_state (sym (others j other)) ∙ h)
    ];
  }
    where
      same_session :
          (j : String) (s : DerivedSession)
          → derive_state (get_all_events j m'.store) ≡ ok (some s)
          → k ≡ j
          → s' ≡ s
      same_session j s h p =
          let q : derive_state (get_all_events k m'.store) ≡ ok (some s) =
            subst (λ i. derive_state (get_all_events i m'.store) ≡ ok (some s)) (sym p) h in
          cc

  step_reaches :
      (k : String) (s s' : DerivedSession) (e : NegotiationEvent) (m m' : SessionManager)
      → IsReached m
      → Decided x s e
      → Advances k s e s' m m'
      → IsReached m'
  step_reaches k s s' e m m' r d a =
      one_log k s' m m' r a.sound_after a.derived_after a.others_kept
        (stepped s s' e (r.reached k s a.derived_before) d a.accepted)

  scan_reaches :
      (k : String) (decide : DerivedSession → Option NegotiationEvent) (m m' : SessionManager)
      → IsReached m
      → ((s : DerivedSession) (e : NegotiationEvent) → decide s ≡ some e → Decided x s e)
      → ScanResult k decide m m'
      → IsReached m'
  scan_reaches k decide m m' r by (inl (kept, v)) = same_log m m' r kept v
  scan_reaches k decide m m' r by (inr (s, s', e, d, a)) = step_reaches k s s' e m m' r (by s e d) a

  settlement_reaches :
      (k : String) (m m' : SessionManager) → IsReached m → Records k m m' → IsReached m'
  settlement_reaches k m m' r (inl (kept, v)) = same_log m m' r kept v
  settlement_reaches k m m' r (inr (s, s', e, _, type, a)) =
      one_log k s' m m' r a.sound_after a.derived_after a.others_kept
        (paid s s' e (r.reached k s a.derived_before) type a.accepted)

  fresh-IsReached : IsReached fresh
  unfolding empty_store get_all_events derive_state lookup
  fresh-IsReached = record {
    sound = record { valid = λ k. inl refl; cached = λ k c h. absurd (cc) };
    reached = λ k s h. absurd (cc);
  }

  -- From an empty manager, whatever requests, scans, reads and evictions are served in whatever
  -- order: every log derives a session that the steps of the routes and of the enforcer reach,
  -- and the cache agrees with the logs.
  pub Run-IsReached : (m : SessionManager) → Run m → IsReached m
  unfolding evict_stale_cache
  Run-IsReached _ started = fresh-IsReached
  Run-IsReached _ (rfq_posted m m' b now before t s' run h) =
      let r = Run-IsReached m run in
      let o = post_rfq-Opens b now before t m m' s' r.sound h in
      one_log (text_of b "rfq_id") s' m m' r o.sound_opened o.derived_opened o.others_kept
        (opened (rfq_event b t) s' o.opens)
  Run-IsReached _ (request_served k m m' s' run h) =
      let r = Run-IsReached m run in
      let (s, e, d, a) = Served-Advances x k m m' s' r.sound h in step_reaches k s s' e m m' r d a
  Run-IsReached _
        (execute_served c decimals mint cluster header signature now before t m m' r run h) =
      let i = Run-IsReached m run in
      let (_, k, id, _, recorded) =
        post_execute-SettledBy x c decimals mint cluster header signature now before t m m' r h in
      settlement_reaches k m m' i (record_settlement-Records k id r t m m' i.sound recorded)
  Run-IsReached _
        (settle_report_served c decimals mint cluster j caller body now before t m m' r run h) =
      let i = Run-IsReached m run in
      let (_, k, id, _, recorded) =
        post_settle_report-SettledBy x c decimals mint cluster j caller body now before t m m' r
          h in
      settlement_reaches k m m' i (record_settlement-Records k id r t m m' i.sound recorded)
  Run-IsReached _ (expiry_scanned k t m m' run h) =
      let r = Run-IsReached m run in
      scan_reaches k (decide_expire x k t) m m' r (λ s e d. by_expiry k t d)
        (locked_maybe-steps k t (decide_expire x k t) m m' r.sound h)
  Run-IsReached _ (timeout_scanned timeout k t m m' run h) =
      let r = Run-IsReached m run in
      scan_reaches k (decide_timeout x timeout k t) m m' r (λ s e d. by_timeout timeout k t d)
        (locked_maybe-steps k t (decide_timeout x timeout k t) m m' r.sound h)
  Run-IsReached _ (session_read k now m m' o run h) =
      let r = Run-IsReached m run in
      let (_, m₁, read, _, kept, _, v) = get_session-Reads k now m r.sound in
      let same : m₁ ≡ m' = (ok-pair (sym read ∙ h)).1 in
      same_log m m' r (ap (λ n. n.store) (sym same) ∙ kept) (subst IsSound same v)
  Run-IsReached _ (cache_evicted now max_age m run) =
      let r = Run-IsReached m run in
      same_log m (evict_stale_cache now max_age m) r refl
        (evict_stale_cache-IsSound now max_age m r.sound)
