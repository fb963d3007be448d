-- ===== src/Engine/DeadlineEnforcer/Scan/Effects.antt =====
-- packages/engine/src/deadline-enforcer.ts: what the visit of one session changes.
use ghost_bazaar.Prelude.{
  ℕ, String, ◌===◌, ◌≡◌, refl, sym, ap, ◌∙◌, Bool, false, not, any, ltb, ◌∷◌, Option, none, some,
  ◌⊎◌, inl, inr, ok, Result-cases, >>=-eq-ok, Option-cases, if_holds, arith,
}
use ghost_bazaar.Prelude.Dict.{lookup-remove-eq_some}
use ghost_bazaar.Core.External.{Externals}
use ghost_bazaar.Engine.Types.{NegotiationEvent, commit_pending, is_state}
use ghost_bazaar.Engine.Session.{DerivedSession}
use ghost_bazaar.Engine.EventStore.{get_all_events}
use ghost_bazaar.Engine.EventStore.Log.{append-events}
use ghost_bazaar.Engine.SessionManager.{
  SessionManager, get_session, append_event, is_locked, enter_lock, leave_lock,
}
use ghost_bazaar.Engine.SessionManager.Soundness.{IsSound, get_session-Reads, append_event-eq_ok}
use ghost_bazaar.Engine.Http.{Moment}
use ghost_bazaar.Engine.Http.Locked.{read_under_lock}
use ghost_bazaar.Engine.Routes.Steps.Sections.{locked_maybe-steps}
use ghost_bazaar.Engine.DeadlineEnforcer.{
  ScanAction, clean_up, try_expire, try_cosign_timeout, leave, scan_session, decide_expire,
  decide_timeout, locked_maybe, append_if, event_for, is_terminal_state, is_expirable_state,
  is_recent,
}
use ghost_bazaar.Engine.ControlEnvelope.{nonempty}
use ghost_bazaar.Engine.DeadlineEnforcer.Scan.{
  Scanner, remove_lock, clean_session, or_as_before, act_on, visit_read, visit,
}

-- From one manager to the next: at most the log of `k` grows, by an event with the id `id`.
pub record Leads (k id : String) (m m' : SessionManager) : Type 0 where
  pub sound : IsSound m'
  pub others :
      (j : String) → (k === j) ≡ false → get_all_events j m'.store ≡ get_all_events j m.store
  pub seen :
      (m'.store.seen_event_ids ≡ m.store.seen_event_ids)
      ⊎ (m'.store.seen_event_ids ≡ id ∷ m.store.seen_event_ids)

pub same_store-Leads :
    (k id : String) (m m' : SessionManager) → m'.store ≡ m.store → IsSound m' → Leads k id m m'
same_store-Leads k id m m' same v = record {
  sound = v;
  others = λ j _. ap (get_all_events j) same;
  seen = inl (ap (λ st. st.seen_event_ids) same);
}

-- What happens after a read that only touched the cache.
pub after_read-Leads :
    (k id : String) (m m₁ m' : SessionManager)
    → m₁.store ≡ m.store
    → Leads k id m₁ m'
    → Leads k id m m'
after_read-Leads k id m m₁ m' same l = record {
  sound = l.sound;
  others = λ j other. l.others j other ∙ ap (get_all_events j) same;
  seen = elim l.seen [
    | inl e ↦ inl (e ∙ ap (λ st. st.seen_event_ids) same)
    | inr e ↦ inr (e ∙ ap (λ st. id ∷ st.seen_event_ids) same)
  ];
}

append_if-seen :
    (k id : String) (o : Option NegotiationEvent) (now : ℕ) (m m' : SessionManager)
    → ((e : NegotiationEvent) → o ≡ some e → e.event_id ≡ id)
    → append_if k o now m ≡ ok m'
    → (m'.store.seen_event_ids ≡ m.store.seen_event_ids)
      ⊎ (m'.store.seen_event_ids ≡ id ∷ m.store.seen_event_ids)
unfolding append_if leave_lock
append_if-seen k id none now m m' named h =
    let same : leave_lock k m ≡ m' = cc in inl (ap (λ n. n.store.seen_event_ids) (sym same))
append_if-seen k id (some e) now m m' named h =
    let ((s, m₁), appended, done) = >>=-eq-ok (append_event k e now m) _ h in
    let same : leave_lock k m₁ ≡ m' = cc in
    let (st, _, _, stored, kept) = append_event-eq_ok k e now m m₁ s appended in
    inr (
      ap (λ n. n.store.seen_event_ids) (sym same)
      ∙ ap (λ n. n.store.seen_event_ids) kept
      ∙ (append-events k e m.store st stored).1
      ∙ ap (λ i. i ∷ m.store.seen_event_ids) (named e refl))

event_for-id :
    (decide : DerivedSession → Option NegotiationEvent) (id : String)
    → ((s : DerivedSession) (e : NegotiationEvent) → decide s ≡ some e → e.event_id ≡ id)
    → (o : Option DerivedSession) (e : NegotiationEvent) → event_for decide o ≡ some e
    → e.event_id ≡ id
event_for-id decide id named none e h = absurd (cc)
event_for-id decide id named (some s) e h = named s e h

-- A callback under the lock, its errors caught.
pub locked_maybe-Leads :
    (k : String) (t : Moment) (decide : DerivedSession → Option NegotiationEvent)
    (m : SessionManager)
    → ((s : DerivedSession) (e : NegotiationEvent) → decide s ≡ some e → e.event_id ≡ t.uuid)
    → IsSound m
    → Leads k t.uuid m (or_as_before m (locked_maybe k t decide m))
unfolding locked_maybe
locked_maybe-Leads k t decide m named v = elim (Result-cases (locked_maybe k t decide m)) [
  | inr (e, failed) ↦ rw failed (same_store-Leads k t.uuid m m refl v)
  | inl (m', worked) ↦ rw worked (
      let ((session, m₁), read, after) =
        >>=-eq-ok (get_session k t.now (enter_lock k m)) _ worked in
      let (same, _, _) = read_under_lock k t.now m m₁ session v read in
      after_read-Leads k t.uuid m m₁ m' same (elim (locked_maybe-steps k t decide m m' v worked) [
        | inl (kept, sound) ↦ same_store-Leads k t.uuid m₁ m' (kept ∙ sym same) sound
        | inr (s, s', e, decided, a) ↦ record {
          sound = a.sound_after;
          others = λ j other. a.others_kept j other ∙ ap (get_all_events j) (sym same);
          seen =
              append_if-seen k t.uuid (event_for decide session) t.now m₁ m'
                (event_for-id decide t.uuid named session) after;
        }
      ]))
]

-- The decisions name their events after the moment.
abbrev Names : String → Option NegotiationEvent → Type 0
Names id o = (e : NegotiationEvent) → o ≡ some e → e.event_id ≡ id

decide_expire-Names :
    (x : Externals) (k : String) (t : Moment) (s : DerivedSession)
    → Names t.uuid (decide_expire x k t s)
unfolding decide_expire
decide_expire-Names x k t s =
    if_holds (Names t.uuid) (is_terminal_state s.state) (λ _ e h. absurd (cc))
      (λ _.
        if_holds (Names t.uuid) (not (is_expirable_state s.state)) (λ _ e h. absurd (cc))
          (λ _.
            if_holds (Names t.uuid)
              (elim (x.parse_date s.rfq.deadline) [ none ↦ false | some d ↦ ltb t.now d ])
              (λ _ e h. absurd (cc)) (λ _ e h. ground (arith, h))))

decide_timeout-Names :
    (x : Externals) (timeout : ℕ) (k : String) (t : Moment) (s : DerivedSession)
    → Names t.uuid (decide_timeout x timeout k t s)
unfolding decide_timeout
decide_timeout-Names x timeout k t s =
    if_holds (Names t.uuid) (not (is_state s.state commit_pending)) (λ _ e h. absurd (cc))
      (λ _. elim (Option-cases (nonempty s.commit_pending_at)) [
        | inl p ↦ rw p (λ e h. absurd (cc))
        | inr (at, p) ↦ rw p (
            if_holds (Names t.uuid) (is_recent x at timeout t.now) (λ _ e h. absurd (cc))
              (λ _. elim (Option-cases (nonempty s.selected_seller)) [
                | inl q ↦ rw q (λ e h. absurd (cc))
                | inr (seller, q) ↦ rw q (λ e h. ground (arith, h))
              ]))
      ])

pub remove_lock-IsSound :
    (k : String) (o : Option ℕ) (m : SessionManager)
    → IsSound m
    → ((remove_lock k o m).1.store ≡ m.store) × IsSound (remove_lock k o m).1
unfolding remove_lock
remove_lock-IsSound k none m v = (refl, v)
remove_lock-IsSound k (some n) m v =
    if_holds (λ (r : Bool × SessionManager). (r.1.store ≡ m.store) × IsSound r.1) (is_locked k m)
      (λ _. (refl, v))
      (λ _.
        if_holds (λ (r : Bool × SessionManager). (r.1.store ≡ m.store) × IsSound r.1) (ltb 0 n)
          (λ _. (refl, v))
          (λ _. (
            refl,
            record {
              valid = v.valid;
              cached = λ j c h. v.cached j c (lookup-remove-eq_some k j m.session_cache h).1;
            },
          )))

module _ (x : Externals) (timeout : ℕ) (busy : String → Bool) (waiting : String → Option ℕ)
    (at : String → Moment) where
  act_on-Leads :
      (a : ScanAction) (k : String) (s : Scanner)
      → IsSound s.manager
      → Leads k (at k).uuid s.manager (act_on x timeout busy waiting at a k s).manager
  unfolding act_on clean_session
  act_on-Leads clean_up k s v =
      let (same, sound) = remove_lock-IsSound k (waiting k) s.manager v in
      same_store-Leads k (at k).uuid s.manager _ same sound
  act_on-Leads try_expire k s v =
      if_holds (λ (u : Scanner). Leads k (at k).uuid s.manager u.manager) (busy k)
        (λ _. same_store-Leads k (at k).uuid s.manager s.manager refl v)
        (λ _.
          locked_maybe-Leads k (at k) (decide_expire x k (at k)) s.manager
            (decide_expire-Names x k (at k)) v)
  act_on-Leads try_cosign_timeout k s v =
      if_holds (λ (u : Scanner). Leads k (at k).uuid s.manager u.manager) (busy k)
        (λ _. same_store-Leads k (at k).uuid s.manager s.manager refl v)
        (λ _.
          locked_maybe-Leads k (at k) (decide_timeout x timeout k (at k)) s.manager
            (decide_timeout-Names x timeout k (at k)) v)
  act_on-Leads leave k s v = same_store-Leads k (at k).uuid s.manager s.manager refl v

  visit_read-Leads :
      (k : String) (s : Scanner) (o : Option DerivedSession) (m : SessionManager)
      → m.store ≡ s.manager.store
      → IsSound m
      → Leads k (at k).uuid s.manager (visit_read x timeout busy waiting at k s (ok (o, m))).manager
  unfolding visit_read
  visit_read-Leads k s none m same sound = same_store-Leads k (at k).uuid s.manager m same sound
  visit_read-Leads k s (some session) m same sound =
      after_read-Leads k (at k).uuid s.manager m _ same (
        act_on-Leads (scan_session x timeout (at k).now session) k (record s { manager = m }) sound)

  pub visit-Leads :
      (k : String) (s : Scanner)
      → IsSound s.manager
      → Leads k (at k).uuid s.manager (visit x timeout busy waiting at k s).manager
  unfolding visit
  visit-Leads k s v =
      if_holds (λ (u : Scanner). Leads k (at k).uuid s.manager u.manager)
        (any (λ j. j === k) s.cleaned_up_sessions)
        (λ _. same_store-Leads k (at k).uuid s.manager s.manager refl v)
        (λ _.
          let (o, m, read, _, same, _, sound) = get_session-Reads k (at k).now s.manager v in
          rw read (visit_read-Leads k s o m same sound))
