-- ===== src/Engine/ConnectionTracker/Limits.antt =====
-- packages/engine/src/util/connection-tracker.ts: how many streams are open at once.
use ghost_bazaar.Prelude.{
  ℕ, String, ◌===◌, ===_iff, leb, ltb, Bool, true, not, ◌&&◌, Bool-cases, List, [], ◌∷◌, ◌++◌, map,
  find, keep, count, count-append, count-keep, length, length-map, Option, none, some, ◌≡◌, refl,
  ap, ◌∙◌, ◌≤◌, ◌<◌, inl, inr, if_holds, arith,
}
use ghost_bazaar.Prelude.Dict.{lookup}
use ghost_bazaar.Engine.ConnectionTracker.{
  ConnectionRecord, ConnectionTracker, Request, has_id, get_record, ids_in, passes_record, removed,
  remove_record, release, close_record, close_all, add_record, acquire, evicting,
  find_oldest_non_buyer, count_for_did, count_for_session, max_per_did, max_per_session,
  empty_tracker,
}
use ghost_bazaar.Engine.ConnectionTracker.Linked.{
  in_session, cid, others, IsLinked, IsKeyed, remove_record-IsLinked, close_record-IsLinked,
  close_each_keeps, add_record-IsLinked,
}
use ghost_bazaar.Engine.ConnectionTracker.Oldest.{IsOldest, found-IsOldest}

abbrev pub in_session_from : String → String → ConnectionRecord → Bool
in_session_from k d c = in_session k c && (c.caller_did === d)

-- The counts over a session's ids are counts over the records.
pub count_for_session-count :
    (k : String) (t : ConnectionTracker)
    → IsLinked t
    → count_for_session k t ≡ count (in_session k) t.connections
unfolding count_for_session IsLinked
count_for_session-count k t (keyed, linked) =
    ap length (linked k)
    ∙ length-map cid (keep (in_session k) t.connections)
    ∙ count-keep (in_session k) t.connections

count-found :
    (k d : String) (t : ConnectionTracker) (ys : List ConnectionRecord)
    → IsKeyed t.connections t.next_id ys
    → count
        (λ id. passes_record (λ r. r.caller_did === d) (get_record id t))
        (map cid (keep (in_session k) ys))
      ≡ count (in_session_from k d) ys
unfolding count keep get_record
count-found k d t [] h = refl
count-found k d t (c ∷ cs) ((le, own), h) = elim (Bool-cases (in_session k c)) [
  | inl e ↦ rw (e, own, count-found k d t cs h) refl
  | inr e ↦ rw e (count-found k d t cs h)
]

pub count_for_did-count :
    (k d : String) (t : ConnectionTracker)
    → IsLinked t
    → count_for_did k d t ≡ count (in_session_from k d) t.connections
unfolding count_for_did IsLinked
count_for_did-count k d t (keyed, linked) = rw (linked k) (count-found k d t t.connections keyed)

-- What a limit reads: how many records pass a test, after a record is taken out or put in.
pub count-others-le :
    (p : ConnectionRecord → Bool) (id : ℕ) (xs : List ConnectionRecord)
    → count p (others id xs) ≤ count p xs
unfolding count keep
count-others-le p id [] = omega arith
count-others-le p id (x ∷ xs) = ground (arith, count-others-le p id xs)

pub count-others-lt :
    (p : ConnectionRecord → Bool) (id : ℕ) (xs : List ConnectionRecord) (r : ConnectionRecord)
    → find (has_id id) xs ≡ some r
    → p r ≡ true
    → count p (others id xs) < count p xs
unfolding count keep find
count-others-lt p id [] r e h = absurd (cc)
count-others-lt p id (x ∷ xs) r e h = elim (Bool-cases (has_id id x)) [
  | inl s ↦ ground (arith, e, s, h, count-others-le p id xs)
  | inr s ↦ ground (arith, s, count-others-lt p id xs r (rw s at e) h)
]

-- At most `max_per_session` records of a session, at most `max_per_did` of one caller in it.
unfoldable pub IsLimited : ConnectionTracker → Type 0
IsLimited t =
    (k : String)
    → (count (in_session k) t.connections ≤ max_per_session)
      × ((d : String) → count (in_session_from k d) t.connections ≤ max_per_did)

pub removed-IsLimited :
    (id : ℕ) (o : Option ConnectionRecord) (t : ConnectionTracker)
    → IsLimited t
    → IsLimited (removed id o t)
unfolding IsLimited
removed-IsLimited id none t h = h
removed-IsLimited id (some r) t h = λ k. (
  omega (arith, count-others-le (in_session k) id t.connections, (h k).0),
  λ d. omega (arith, count-others-le (in_session_from k d) id t.connections, (h k).1 d),
)

pub remove_record-IsLimited :
    (id : ℕ) (t : ConnectionTracker) → IsLimited t → IsLimited (remove_record id t)
unfolding remove_record
remove_record-IsLimited id t h = removed-IsLimited id (get_record id t) t h

pub close_record-IsLimited :
    (id : ℕ) (t : ConnectionTracker) → IsLimited t → IsLimited (close_record id t)
unfolding close_record IsLimited
close_record-IsLimited id t h =
    remove_record-IsLimited id (record t { closed = t.closed ++ id ∷ [] }) h

pub add_record-IsLimited :
    (q : Request) (now : ℕ) (t : ConnectionTracker)
    → IsLimited t
    → count (in_session q.rfq_id) t.connections < max_per_session
    → count (in_session_from q.rfq_id q.caller_did) t.connections < max_per_did
    → IsLimited (add_record q now t).1
unfolding IsLimited add_record count
add_record-IsLimited q now t h few few_own k = (
  rw (count-append (in_session k) t.connections) (ground (arith, (h k).0, few, ===_iff q.rfq_id k)),
  λ d.
      rw (count-append (in_session_from k d) t.connections)
        (ground (arith, (h k).1 d, few_own, ===_iff q.rfq_id k, ===_iff q.caller_did d)),
)

-- Closing a record of the session makes room in it, and nobody gains a connection.
pub close_record-count :
    (p : ConnectionRecord → Bool) (t : ConnectionTracker) (r : ConnectionRecord)
    → get_record r.connection_id t ≡ some r
    → p r ≡ true
    → count p (close_record r.connection_id t).connections < count p t.connections
unfolding close_record remove_record get_record
close_record-count p t r e h = rw e (count-others-lt p r.connection_id t.connections r e h)

pub close_record-count-le :
    (p : ConnectionRecord → Bool) (t : ConnectionTracker) (r : ConnectionRecord)
    → get_record r.connection_id t ≡ some r
    → count p (close_record r.connection_id t).connections ≤ count p t.connections
unfolding close_record remove_record get_record
close_record-count-le p t r e = rw e (count-others-le p r.connection_id t.connections)

-- What is true of every connection: the index is right and the limits are kept.
unfoldable pub IsSound : ConnectionTracker → Type 0
IsSound t = IsLinked t × IsLimited t

abbrev LeavesSound : Option ℕ × ConnectionTracker → Type 0
LeavesSound r = IsSound r.1

evicting-IsSound :
    (q : Request) (now : ℕ) (t : ConnectionTracker) (o : Option ConnectionRecord)
    → find_oldest_non_buyer q.rfq_id t ≡ o
    → count_for_did q.rfq_id q.caller_did t < max_per_did
    → IsSound t
    → IsSound (evicting o q now t).1
unfolding IsSound IsOldest IsLimited
evicting-IsSound q now t none e own h = h
evicting-IsSound q now t (some r) e own (linked, limited) =
    let (at, here, stranger, first) = found-IsOldest q.rfq_id t r linked e in
    let linked' = close_record-IsLinked r.connection_id t linked in
    (
      add_record-IsLinked q now (close_record r.connection_id t) linked',
      add_record-IsLimited q now (close_record r.connection_id t)
          (close_record-IsLimited r.connection_id t limited)
          (omega
            (arith, close_record-count (in_session q.rfq_id) t r at here, (limited q.rfq_id).0))
          (omega (
            arith,
            close_record-count-le (in_session_from q.rfq_id q.caller_did) t r at,
            count_for_did-count q.rfq_id q.caller_did t linked,
            own,
          )),
    )

pub acquire-IsSound :
    (q : Request) (now : ℕ) (t : ConnectionTracker) → IsSound t → IsSound (acquire q now t).1
unfolding acquire IsSound
acquire-IsSound q now t (linked, limited) =
    if_holds LeavesSound (leb max_per_did (count_for_did q.rfq_id q.caller_did t))
      (λ many. (linked, limited))
      (λ own.
        if_holds LeavesSound (ltb (count_for_session q.rfq_id t) max_per_session)
          (λ room. (
            add_record-IsLinked q now t linked,
            add_record-IsLimited q now t limited
                (ground (arith, room, count_for_session-count q.rfq_id t linked))
                (ground (arith, own, count_for_did-count q.rfq_id q.caller_did t linked)),
          ))
          (λ full.
            if_holds LeavesSound (not q.is_buyer) (λ stranger. (linked, limited))
              (λ buyer.
                evicting-IsSound q now t (find_oldest_non_buyer q.rfq_id t) refl
                  (ground (arith, own)) (linked, limited))))

-- What happens to the tracker: a stream is opened at a time, a stream ends, a session is closed.
pub data Usage : Type 0 where
  acquired : Request → ℕ → Usage
  released : ℕ → Usage
  closed_all : String → Usage

unfoldable pub use_once : Usage → ConnectionTracker → ConnectionTracker
unfolding acquire release close_all
use_once (acquired q now) t = (acquire q now t).1
use_once (released id) t = release id t
use_once (closed_all k) t = close_all k t

unfoldable pub use_all : List Usage → ConnectionTracker → ConnectionTracker
unfolding use_once
use_all [] t = t
use_all (u ∷ us) t = use_all us (use_once u t)

use_once-IsSound : (u : Usage) (t : ConnectionTracker) → IsSound t → IsSound (use_once u t)
unfolding use_once release close_all IsSound
use_once-IsSound (acquired q now) t h = acquire-IsSound q now t h
use_once-IsSound (released id) t (linked, limited) =
    (remove_record-IsLinked id t linked, remove_record-IsLimited id t limited)
use_once-IsSound (closed_all k) t h =
    close_each_keeps IsSound
      (λ id u (linked, limited).
        (close_record-IsLinked id u linked, close_record-IsLimited id u limited))
      (ids_in (lookup k t.by_session)) t h

pub use_all-IsSound : (us : List Usage) (t : ConnectionTracker) → IsSound t → IsSound (use_all us t)
unfolding use_all
use_all-IsSound [] t h = h
use_all-IsSound (u ∷ us) t h = use_all-IsSound us (use_once u t) (use_once-IsSound u t h)

pub empty_tracker-IsSound : IsSound empty_tracker
unfolding IsSound IsLinked IsLimited empty_tracker keep count lookup
empty_tracker-IsSound = ((tt, λ k. refl), λ k. (omega arith, λ d. omega arith))

-- Whatever streams are opened, end and are closed with their session, in whatever order, at most
-- ten of a session are open, and at most three of one caller in it.
pub streams_are_limited :
    (us : List Usage) (k d : String)
    → (count_for_session k (use_all us empty_tracker) ≤ max_per_session)
      × (count_for_did k d (use_all us empty_tracker) ≤ max_per_did)
unfolding IsSound IsLimited
streams_are_limited us k d =
    let t = use_all us empty_tracker in
    let (linked, limited) = use_all-IsSound us empty_tracker empty_tracker-IsSound in
    (
      omega (arith, count_for_session-count k t linked, (limited k).0),
      omega (arith, count_for_did-count k d t linked, (limited k).1 d),
    )
