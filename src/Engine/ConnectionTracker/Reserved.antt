-- ===== src/Engine/ConnectionTracker/Reserved.antt =====
-- packages/engine/src/util/connection-tracker.ts: the slot of the buyer.
use ghost_bazaar.Prelude.{
  ℕ, String, ◌===◌, ===_iff, leb, ltb, true, not, Bool-cases, List, [], ◌∷◌, ◌++◌, keep, count, All,
  All-keep, All-append, Option, none, some, ◌≡◌, refl, sym, ap, ◌∙◌, ◌≤◌, ◌<◌, inl, inr, if_holds,
  arith,
}
use ghost_bazaar.Prelude.Dict.{lookup}
use ghost_bazaar.Engine.ConnectionTracker.{
  ConnectionRecord, ConnectionTracker, Request, get_record, ids_in, removed, remove_record, release,
  close_record, close_all, add_record, acquire, evicting, find_oldest_non_buyer, count_for_did,
  count_for_session, max_per_did, max_per_session, empty_tracker,
}
use ghost_bazaar.Engine.ConnectionTracker.Linked.{in_session, IsLinked, close_each_keeps}
use ghost_bazaar.Engine.ConnectionTracker.Oldest.{IsOldest, found-IsOldest, not_found-buyers}
use ghost_bazaar.Engine.ConnectionTracker.Limits.{
  in_session_from, IsSound, Usage, acquired, released, closed_all, use_once, use_all,
  use_all-IsSound, empty_tracker-IsSound, count_for_session-count, count_for_did-count,
}

-- The flag of every connection says whether its caller is the buyer of its session.
abbrev pub IsFlagged : (String → String) → ConnectionTracker → Type 0
IsFlagged buyer t = All (λ c. c.is_buyer ≡ (c.caller_did === buyer c.rfq_id)) t.connections

abbrev pub AsksTruly : (String → String) → Request → Type 0
AsksTruly buyer q = q.is_buyer ≡ (q.caller_did === buyer q.rfq_id)

abbrev pub IsTrue : (String → String) → Usage → Type 0
IsTrue buyer (acquired q now) = AsksTruly buyer q
IsTrue buyer _ = Unit

module _ (buyer : String → String) where
  removed-IsFlagged :
      (id : ℕ) (o : Option ConnectionRecord) (t : ConnectionTracker)
      → IsFlagged buyer t
      → IsFlagged buyer (removed id o t)
  removed-IsFlagged id none t h = h
  removed-IsFlagged id (some r) t h = All-keep _ _ t.connections h

  remove_record-IsFlagged :
      (id : ℕ) (t : ConnectionTracker) → IsFlagged buyer t → IsFlagged buyer (remove_record id t)
  unfolding remove_record
  remove_record-IsFlagged id t h = removed-IsFlagged id (get_record id t) t h

  close_record-IsFlagged :
      (id : ℕ) (t : ConnectionTracker) → IsFlagged buyer t → IsFlagged buyer (close_record id t)
  unfolding close_record
  close_record-IsFlagged id t h =
      remove_record-IsFlagged id (record t { closed = t.closed ++ id ∷ [] }) h

  add_record-IsFlagged :
      (q : Request) (now : ℕ) (t : ConnectionTracker)
      → AsksTruly buyer q
      → IsFlagged buyer t
      → IsFlagged buyer (add_record q now t).1
  unfolding add_record
  add_record-IsFlagged q now t e h = All-append _ t.connections _ h (e, tt)

  abbrev LeavesFlagged : Option ℕ × ConnectionTracker → Type 0
  LeavesFlagged r = IsFlagged buyer r.1

  evicting-IsFlagged :
      (q : Request) (now : ℕ) (t : ConnectionTracker) (o : Option ConnectionRecord)
      → AsksTruly buyer q
      → IsFlagged buyer t
      → LeavesFlagged (evicting o q now t)
  evicting-IsFlagged q now t none e h = h
  evicting-IsFlagged q now t (some r) e h =
      add_record-IsFlagged q now _ e (close_record-IsFlagged r.connection_id t h)

  acquire-IsFlagged :
      (q : Request) (now : ℕ) (t : ConnectionTracker)
      → AsksTruly buyer q
      → IsFlagged buyer t
      → LeavesFlagged (acquire q now t)
  unfolding acquire
  acquire-IsFlagged q now t e h =
      if_holds LeavesFlagged (leb max_per_did (count_for_did q.rfq_id q.caller_did t)) (λ _. h)
        (λ _.
          if_holds LeavesFlagged (ltb (count_for_session q.rfq_id t) max_per_session)
            (λ _. add_record-IsFlagged q now t e h)
            (λ _.
              if_holds LeavesFlagged (not q.is_buyer) (λ _. h)
                (λ _. evicting-IsFlagged q now t (find_oldest_non_buyer q.rfq_id t) e h)))

  use_all-IsFlagged :
      (us : List Usage) (t : ConnectionTracker)
      → All (IsTrue buyer) us
      → IsFlagged buyer t
      → IsFlagged buyer (use_all us t)
  unfolding use_all use_once release close_all
  use_all-IsFlagged [] t e h = h
  use_all-IsFlagged (acquired q now ∷ us) t (e, es) h =
      use_all-IsFlagged us (acquire q now t).1 es (acquire-IsFlagged q now t e h)
  use_all-IsFlagged (released id ∷ us) t (e, es) h =
      use_all-IsFlagged us (remove_record id t) es (remove_record-IsFlagged id t h)
  use_all-IsFlagged (closed_all k ∷ us) t (e, es) h = use_all-IsFlagged us (close_all k t) es (
      close_each_keeps (IsFlagged buyer) close_record-IsFlagged (ids_in (lookup k t.by_session)) t
        h)

  -- Where every connection of a session is a buyer's, all are of the session's buyer.
  count-buyer :
      (k : String) (xs : List ConnectionRecord)
      → All (λ c. c.is_buyer ≡ (c.caller_did === buyer c.rfq_id)) xs
      → All (λ c. c.is_buyer ≡ true) (keep (in_session k) xs)
      → count (in_session k) xs ≡ count (in_session_from k (buyer k)) xs
  unfolding count keep
  count-buyer k [] f h = refl
  count-buyer k (c ∷ cs) (fc, f) h = elim (Bool-cases (in_session k c)) [
    | inl e ↦
        let (hc, hs) = rw e at h in
        ground (arith, e, fc, hc, ===_iff c.rfq_id k, count-buyer k cs f hs)
    | inr e ↦ rw e (count-buyer k cs f (rw e at h))
  ]

  abbrev IsAdmitted : Option ℕ × ConnectionTracker → Type 0
  IsAdmitted r = (id : ℕ) × (r.0 ≡ some id)

  evicting-IsAdmitted :
      (q : Request) (now : ℕ) (t : ConnectionTracker) (o : Option ConnectionRecord)
      → find_oldest_non_buyer q.rfq_id t ≡ o
      → IsSound t
      → IsFlagged buyer t
      → q.caller_did ≡ buyer q.rfq_id
      → count_for_did q.rfq_id q.caller_did t < max_per_did
      → max_per_session ≤ count_for_session q.rfq_id t
      → IsAdmitted (evicting o q now t)
  unfolding IsSound add_record
  evicting-IsAdmitted q now t (some r) e h f own few full = (_, refl)
  evicting-IsAdmitted q now t none e (linked, limited) f own few full =
      let all = count-buyer q.rfq_id t.connections f (not_found-buyers q.rfq_id t linked e) in
      absurd (
        omega (
          arith,
          full,
          rw own at few,
          count_for_did-count q.rfq_id (buyer q.rfq_id) t linked,
          count_for_session-count q.rfq_id t linked,
          all,
        ))

  -- If every request says truly whether its caller is the buyer of its session, the buyer of a
  -- session with fewer than three streams open in it gets one more at any time, however many the
  -- sellers hold.
  pub buyer_gets_in :
      (us : List Usage) (q : Request) (now : ℕ)
      → All (IsTrue buyer) us
      → AsksTruly buyer q
      → q.caller_did ≡ buyer q.rfq_id
      → count_for_did q.rfq_id q.caller_did (use_all us empty_tracker) < max_per_did
      → (id : ℕ) × ((acquire q now (use_all us empty_tracker)).0 ≡ some id)
  unfolding acquire add_record empty_tracker
  buyer_gets_in us q now truly asks own few =
      let t = use_all us empty_tracker in
      if_holds IsAdmitted (leb max_per_did (count_for_did q.rfq_id q.caller_did t))
        (λ many. absurd (ground (arith, many, few)))
        (λ _.
          if_holds IsAdmitted (ltb (count_for_session q.rfq_id t) max_per_session)
            (λ room. (_, refl))
            (λ full.
              if_holds IsAdmitted (not q.is_buyer)
                (λ stranger.
                  absurd
                    (ground (arith, stranger, asks, own, ===_iff q.caller_did (buyer q.rfq_id))))
                (λ _.
                  evicting-IsAdmitted q now t (find_oldest_non_buyer q.rfq_id t) refl
                    (use_all-IsSound us empty_tracker empty_tracker-IsSound)
                    (use_all-IsFlagged us empty_tracker truly tt) own few (ground (arith, full)))))

-- The request is a buyer's, and from `t` to `u` the oldest connection that is not is closed.
abbrev pub IsEvicting : Request → ConnectionTracker → ConnectionTracker → Type 0
IsEvicting q t u =
    (q.is_buyer ≡ true)
    × ((r : ConnectionRecord) × IsOldest q.rfq_id t r
        × (u.closed ≡ t.closed ++ r.connection_id ∷ []))

module _ (q : Request) (t : ConnectionTracker) (id : ℕ) (u : ConnectionTracker) where
  abbrev Evicts : Option ℕ × ConnectionTracker → Type 0
  Evicts r = r ≡ (some id, u) → IsEvicting q t u

  removed-closed :
      (i : ℕ) (o : Option ConnectionRecord) (v : ConnectionTracker)
      → (removed i o v).closed ≡ v.closed
  removed-closed i none v = refl
  removed-closed i (some r) v = refl

  evicting-Evicts :
      (now : ℕ) (o : Option ConnectionRecord)
      → find_oldest_non_buyer q.rfq_id t ≡ o
      → IsLinked t
      → q.is_buyer ≡ true
      → Evicts (evicting o q now t)
  unfolding add_record close_record remove_record
  evicting-Evicts now none found h buyer e = absurd (cc)
  evicting-Evicts now (some r) found h buyer e = (
    buyer,
    (
      r,
      found-IsOldest q.rfq_id t r h found,
      sym (ap (λ x. x.1.closed) e) ∙ removed-closed r.connection_id _ _,
    ),
  )

  acquire-Evicts :
      (now : ℕ)
      → IsLinked t
      → max_per_session ≤ count_for_session q.rfq_id t
      → Evicts (acquire q now t)
  unfolding acquire
  acquire-Evicts now h full =
      if_holds Evicts (leb max_per_did (count_for_did q.rfq_id q.caller_did t)) (λ _ e. absurd (cc))
        (λ _.
          if_holds Evicts (ltb (count_for_session q.rfq_id t) max_per_session)
            (λ room. absurd (ground (arith, room, full)))
            (λ _.
              if_holds Evicts (not q.is_buyer) (λ _ e. absurd (cc))
                (λ asks.
                  evicting-Evicts now (find_oldest_non_buyer q.rfq_id t) refl h
                    (ground (arith, asks)))))

-- If a caller gets into a session that has ten streams or more, the caller is a buyer, and
-- exactly one stream is closed: one of the session that is not a buyer's, and none of those was
-- opened earlier.
pub evicted_is_oldest :
    (us : List Usage) (q : Request) (now id : ℕ) (u : ConnectionTracker)
    → max_per_session ≤ count_for_session q.rfq_id (use_all us empty_tracker)
    → acquire q now (use_all us empty_tracker) ≡ (some id, u)
    → IsEvicting q (use_all us empty_tracker) u
unfolding IsSound
evicted_is_oldest us q now id u full e =
    acquire-Evicts q (use_all us empty_tracker) id u now
      (use_all-IsSound us empty_tracker empty_tracker-IsSound).0 full e
