-- ===== src/Engine/Routes/Settle/Once.antt =====
-- A session is settled once: no log of the engine holds two settlements, whoever reports them and
-- however often.
use ghost_bazaar.Prelude.{
  ℕ, ◌+◌, ◌≤◌, String, ◌===◌, ===_iff, ◌≡◌, refl, sym, ap, ◌∙◌, subst, false, Bool-cases, List, [],
  ◌∷◌, ◌++◌, any, count, count-append, inl, inr, arith,
}
use ghost_bazaar.Core.External.{Externals}
use ghost_bazaar.Engine.Types.{NegotiationEvent}
use ghost_bazaar.Engine.Session.{DerivedSession}
use ghost_bazaar.Engine.EventStore.{get_all_events}
use ghost_bazaar.Engine.SessionManager.{SessionManager}
use ghost_bazaar.Engine.Http.Locked.{Advances}
use ghost_bazaar.Engine.Routes.Steps.{
  Decided, by_offer, by_counter, by_accept, by_quote_sign, by_cosign, by_decline, by_expiry,
  by_timeout,
}
use ghost_bazaar.Prelude.{Option, some}
use ghost_bazaar.Prelude.Dict.{lookup}
use ghost_bazaar.Engine.EventStore.{empty_store}
use ghost_bazaar.Engine.SessionManager.{evict_stale_cache}
use ghost_bazaar.Engine.SessionManager.Soundness.{get_session-Reads}
use ghost_bazaar.Engine.Http.{text_of}
use ghost_bazaar.Engine.Http.Locked.{ok-pair}
use ghost_bazaar.Engine.DeadlineEnforcer.{decide_expire, decide_timeout}
use ghost_bazaar.Engine.Routes.Rfqs.{rfq_event}
use ghost_bazaar.Engine.Routes.Commitment.Decisions.{
  decide_accept-eq_ok, decide_quote_sign-eq_ok, decide_cosign-eq_ok,
}
use ghost_bazaar.Engine.Routes.Steps.Decisions.{
  decide_offer-eq_ok, decide_counter-eq_ok, decide_decline-eq_ok, decide_expire-eq_some,
  decide_timeout-eq_some,
}
use ghost_bazaar.Engine.Routes.Steps.Served.{Served-Advances}
use ghost_bazaar.Engine.Routes.Steps.Sections.{ScanResult, locked_maybe-steps}
use ghost_bazaar.Engine.Routes.Steps.System.{
  Run, started, rfq_posted, request_served, execute_served, settle_report_served, expiry_scanned,
  timeout_scanned, session_read, cache_evicted, Run-IsReached, post_rfq-Opens,
}
use ghost_bazaar.Engine.Routes.Settle.{is_settlement, already_settled}
use ghost_bazaar.Engine.Routes.Settle.Recorded.{
  Records, record_settlement-Records, post_execute-SettledBy, post_settle_report-SettledBy,
}

-- How many settlements a log holds.
abbrev pub settlements : List NegotiationEvent → ℕ
settlements = count (λ e. is_settlement e.type)

not_settled-none : (es : List NegotiationEvent) → already_settled es ≡ false → settlements es ≡ 0
unfolding any count
not_settled-none [] h = refl
not_settled-none (e ∷ es) h = ground (arith, not_settled-none es)

settlements-snoc :
    (e : NegotiationEvent) (es fs : List NegotiationEvent)
    → fs ≡ es ++ e ∷ []
    → settlements fs ≡ settlements es + settlements (e ∷ [])
settlements-snoc e es fs same = ap settlements same ∙ count-append _ es (e ∷ [])

none_in : (e : NegotiationEvent) → is_settlement e.type ≡ false → settlements (e ∷ []) ≡ 0
unfolding count
none_in e h = rw h refl

one_in : (e : NegotiationEvent) → settlements (e ∷ []) ≤ 1
unfolding count
one_in e = ground arith

abbrev IsOnce : SessionManager → Type 0
IsOnce m = (k : String) → settlements (get_all_events k m.store) ≤ 1

same_logs : (m m' : SessionManager) → m'.store ≡ m.store → IsOnce m → IsOnce m'
same_logs m m' kept once k = subst (λ st. settlements (get_all_events k st) ≤ 1) (sym kept) (once k)

-- One log changes and holds at most one settlement then.
one_changed :
    (k : String) (m m' : SessionManager)
    → ((j : String) → (k === j) ≡ false → get_all_events j m'.store ≡ get_all_events j m.store)
    → settlements (get_all_events k m'.store) ≤ 1
    → IsOnce m
    → IsOnce m'
one_changed k m m' others now once j = elim (Bool-cases (k === j)) [
  | inl same ↦ subst (λ i. settlements (get_all_events i m'.store) ≤ 1) ((===_iff k j).0 same) now
  | inr other ↦ subst (λ es. settlements es ≤ 1) (sym (others j other)) (once j)
]

Advances-IsOnce :
    (k : String) (s s' : DerivedSession) (e : NegotiationEvent) (m m' : SessionManager)
    → is_settlement e.type ≡ false
    → Advances k s e s' m m'
    → IsOnce m
    → IsOnce m'
Advances-IsOnce k s s' e m m' type a once =
    one_changed k m m' a.others_kept
      (omega (arith, settlements-snoc e _ _ a.log_extended, none_in e type, once k)) once

Records-IsOnce : (k : String) (m m' : SessionManager) → Records k m m' → IsOnce m → IsOnce m'
Records-IsOnce k m m' (inl (kept, _)) once = same_logs m m' kept once
Records-IsOnce k m m' (inr (s, s', e, first, _, a)) once =
    one_changed k m m' a.others_kept
      (omega (arith, settlements-snoc e _ _ a.log_extended, one_in e, not_settled-none _ first))
      once

module _ (x : Externals) where
  -- Only the settlement routes append settlements.
  Decided-ne_settlement :
      (s : DerivedSession) (e : NegotiationEvent) → Decided x s e → is_settlement e.type ≡ false
  Decided-ne_settlement s e (by_offer k body listings m d) =
      let (_, _, _, _, _, event) = decide_offer-eq_ok x k body listings m s e d in
      ap (λ f. is_settlement f.type) event
  Decided-ne_settlement s e (by_counter k body m d) =
      let (_, _, event) = decide_counter-eq_ok x k body m s e d in
      ap (λ f. is_settlement f.type) event
  Decided-ne_settlement s e (by_accept window k seller offer_id revision ids m d) =
      let (_, _, _, _, _, event) =
        decide_accept-eq_ok x window k seller offer_id revision ids m s e d in
      ap (λ f. is_settlement f.type) event
  Decided-ne_settlement s e (by_quote_sign k signature m d) =
      let (_, _, _, event) = decide_quote_sign-eq_ok x k signature m s e d in
      ap (λ f. is_settlement f.type) event
  Decided-ne_settlement s e (by_cosign k signature m d) =
      let (_, _, _, _, _, _, event) = decide_cosign-eq_ok x k signature m s e d in
      ap (λ f. is_settlement f.type) event
  Decided-ne_settlement s e (by_decline k signer revision m d) =
      let (_, _, _, _, event) = decide_decline-eq_ok x k signer revision m s e d in
      ap (λ f. is_settlement f.type) event
  Decided-ne_settlement s e (by_expiry k m d) =
      ap (λ f. is_settlement f.type) (decide_expire-eq_some x k m s e d)
  Decided-ne_settlement s e (by_timeout timeout k m d) =
      let (_, event) = decide_timeout-eq_some x timeout k m s e d in
      ap (λ f. is_settlement f.type) event

  scanned-IsOnce :
      (k : String) (decide : DerivedSession → Option NegotiationEvent) (m m' : SessionManager)
      → ((s : DerivedSession) (e : NegotiationEvent) → decide s ≡ some e → Decided x s e)
      → ScanResult k decide m m'
      → IsOnce m
      → IsOnce m'
  scanned-IsOnce k decide m m' by (inl (kept, _)) once = same_logs m m' kept once
  scanned-IsOnce k decide m m' by (inr (s, s', e, d, a)) once =
      Advances-IsOnce k s s' e m m' (Decided-ne_settlement s e (by s e d)) a once

  Run-IsOnce : (m : SessionManager) → Run x m → IsOnce m
  unfolding empty_store get_all_events lookup count evict_stale_cache
  Run-IsOnce _ started = λ k. omega arith
  Run-IsOnce _ (rfq_posted m m' b now before t s' run h) =
      let o = post_rfq-Opens x b now before t m m' s' (Run-IsReached x m run).sound h in
      one_changed (text_of b "rfq_id") m m' o.others_kept
        (subst (λ es. settlements es ≤ 1) (sym o.only_event) (one_in (rfq_event b t)))
        (Run-IsOnce m run)
  Run-IsOnce _ (request_served k m m' s' run h) =
      let (s, e, d, a) = Served-Advances x k m m' s' (Run-IsReached x m run).sound h in
      Advances-IsOnce k s s' e m m' (Decided-ne_settlement s e d) a (Run-IsOnce m run)
  Run-IsOnce _ (execute_served c decimals mint cluster header signature now before t m m' r run h) =
      let (_, k, id, _, recorded) =
        post_execute-SettledBy x c decimals mint cluster header signature now before t m m' r h in
      Records-IsOnce k m m'
        (record_settlement-Records k id r t m m' (Run-IsReached x m run).sound recorded)
        (Run-IsOnce m run)
  Run-IsOnce _
        (settle_report_served c decimals mint cluster j caller body now before t m m' r run h) =
      let (_, k, id, _, recorded) =
        post_settle_report-SettledBy x c decimals mint cluster j caller body now before t m m' r
          h in
      Records-IsOnce k m m'
        (record_settlement-Records k id r t m m' (Run-IsReached x m run).sound recorded)
        (Run-IsOnce m run)
  Run-IsOnce _ (expiry_scanned k t m m' run h) =
      scanned-IsOnce k (decide_expire x k t) m m' (λ s e d. by_expiry k t d)
        (locked_maybe-steps k t (decide_expire x k t) m m' (Run-IsReached x m run).sound h)
        (Run-IsOnce m run)
  Run-IsOnce _ (timeout_scanned timeout k t m m' run h) =
      scanned-IsOnce k (decide_timeout x timeout k t) m m' (λ s e d. by_timeout timeout k t d)
        (locked_maybe-steps k t (decide_timeout x timeout k t) m m' (Run-IsReached x m run).sound h)
        (Run-IsOnce m run)
  Run-IsOnce _ (session_read k now m m' o run h) =
      let (_, m₁, read, _, kept, _, _) = get_session-Reads k now m (Run-IsReached x m run).sound in
      let same : m₁ ≡ m' = (ok-pair (sym read ∙ h)).1 in
      same_logs m m' (ap (λ n. n.store) (sym same) ∙ kept) (Run-IsOnce m run)
  Run-IsOnce _ (cache_evicted now max_age m run) = Run-IsOnce m run

  -- From an empty manager, whatever requests, settlement reports, scans, reads and evictions are
  -- served in whatever order, no log holds two settlements.
  pub settled_once :
      (m : SessionManager) (k : String) → Run x m → settlements (get_all_events k m.store) ≤ 1
  settled_once m k run = Run-IsOnce m run k
