-- ===== src/Engine/EventStore/Stream/Joining.antt =====
-- The start of a stream: what `subscribeFrom` leaves behind, and what a reader then follows.
use mathlib.Core.Option
use ghost_bazaar.Prelude.{
  ℕ, suc, ◌<◌, ◌==◌, String, ===_iff, ◌≡◌, refl, ap, ◌∙◌, List, [], ◌∷◌, ◌++◌, map, Option, none,
  some, arith, find, keep, append-nil, All, All-append, All-map, Option-cases, Bool-cases, inl, inr,
  if◌then◌else◌, ◌⊎◌, ==_refl, ===_refl, suc,
}
use ghost_bazaar.Prelude.Dict.{lookup, insert, lookup-insert}
use ghost_bazaar.Engine.Types.{NegotiationEvent}
use ghost_bazaar.Engine.EventStore.{
  EventStore, Subscriber, Mode, buffering, live, update, subscribe, Subscription, subscribe_from,
  get_events, has_cursor, buffer_of, dedup,
}
use ghost_bazaar.Engine.EventStore.Log.{IsCursor}
use ghost_bazaar.Engine.EventStore.Linked.{IsLinked, watch, rewrite-IsLinked, watch-rewrite}

-- The subscriber that `subscribe` makes.
abbrev fresh : String → String → Mode → ℕ → Subscriber
fresh caller buyer mode id = record {
  id = id;
  caller_did = caller;
  buyer = buyer;
  mode = mode;
  buffer = [];
  delivered = [];
}

find-fresh :
    (sub : Subscriber) (subs : List Subscriber)
    → All (λ old. old.id < sub.id) subs
    → find (λ other. other.id == sub.id) (subs ++ sub ∷ []) ≡ some sub
unfolding find
find-fresh sub [] h = ground arith
find-fresh sub (old ∷ subs) (p, h) = ground (arith, find-fresh sub subs h)

below-suc :
    (n : ℕ) (subs : List Subscriber)
    → All (λ sub. sub.id < n) subs
    → All (λ sub. sub.id < suc n) subs
below-suc n subs = All-map _ _ subs (λ sub h. omega arith)

-- What `subscribe` leaves behind.
abbrev pub Subscribed : String → String → String → Mode → EventStore → ℕ × ℕ → EventStore → Type 0
Subscribed k caller buyer mode st h st' =
    (lookup k st'.subscribers ≡ some h.0)
    × (watch h st' ≡ some (fresh caller buyer mode h.1))
    × IsLinked st'
    × (st'.events ≡ st.events)

join-IsLinked :
    (st : EventStore) (r : ℕ) (sub : Subscriber)
    → sub.id ≡ st.next_id
    → IsLinked st
    → IsLinked
        (record st { sets = update st.sets r (st.sets r ++ sub ∷ []); next_id = suc st.next_id })
join-IsLinked st r sub e v = record {
  allocated = v.allocated;
  own_cell = v.own_cell;
  own_id = λ i. elim (Bool-cases (r == i)) [
    | inl same ↦ rw same (
        All-append _ (st.sets r) (sub ∷ []) (below-suc st.next_id (st.sets r) (v.own_id r))
          (omega arith, tt))
    | inr other ↦ rw other (below-suc st.next_id (st.sets i) (v.own_id i))
  ];
}

open-IsLinked :
    (k : String) (st : EventStore) (sub : Subscriber)
    → sub.id ≡ st.next_id
    → lookup k st.subscribers ≡ none
    → IsLinked st
    → IsLinked (record st {
      subscribers = insert k st.next_set st.subscribers;
      sets = update st.sets st.next_set (sub ∷ []);
      next_set = suc st.next_set;
      next_id = suc st.next_id;
    })
open-IsLinked k st sub e free v = record {
  allocated = λ j r p.
      ground (arith, lookup-insert k j st.next_set st.subscribers, v.allocated j r, ===_iff k j);
  own_cell = λ i j r p q. ground (
    arith,
    lookup-insert k i st.next_set st.subscribers,
    lookup-insert k j st.next_set st.subscribers,
    v.allocated i r,
    v.allocated j r,
    v.own_cell i j r,
    ===_iff k i,
    ===_iff k j,
  );
  own_id = λ i. elim (Bool-cases (st.next_set == i)) [
    | inl same ↦ rw same (omega arith, tt)
    | inr other ↦ rw other (below-suc st.next_id (st.sets i) (v.own_id i))
  ];
}

subscribe-Subscribed :
    (k caller buyer : String) (mode : Mode) (st : EventStore)
    → IsLinked st
    → let (h, st') = subscribe k caller buyer mode st in Subscribed k caller buyer mode st h st'
unfolding subscribe
subscribe-Subscribed k caller buyer mode st v = elim (Option-cases (lookup k st.subscribers)) [
  | inl free ↦
      rw (free, subscribe)
        (
          rw (lookup-insert k k st.next_set st.subscribers) (rw (===_refl k) refl),
          rw (==_refl st.next_set) (find-fresh (fresh caller buyer mode st.next_id) [] tt),
          open-IsLinked k st (fresh caller buyer mode st.next_id) refl free v,
          refl,
        )
  | inr (r, found) ↦
      rw (found, subscribe)
        (
          found,
          rw (==_refl r) (find-fresh (fresh caller buyer mode st.next_id) (st.sets r) (v.own_id r)),
          join-IsLinked st r (fresh caller buyer mode st.next_id) refl v,
          refl,
        )
]

-- A reader that follows session `k` from a cursor: what `subscribeFrom` returned, what its listener
-- was called with and what is still in its buffer.
pub record Follows (k caller buyer : String) (after_id : Option String) (s : Subscription)
    (st : EventStore) (sub : Subscriber) : Type 0 where
  pub linked : IsLinked st
  pub registered : lookup k st.subscribers ≡ some s.handle.0
  pub watched : watch s.handle st ≡ some sub
  pub caller_kept : sub.caller_did ≡ caller
  pub buyer_kept : sub.buyer ≡ buyer
  pub running : (sub.mode ≡ buffering) ⊎ ((sub.mode ≡ live) × (sub.buffer ≡ []))
  pub cursor : IsCursor k after_id st
  pub complete :
      (s.replay ++ s.buffered) ++ (sub.delivered ++ sub.buffer)
      ≡ get_events k caller buyer after_id st

pub get_events-events :
    (k caller buyer : String) (after_id : Option String) (st st' : EventStore)
    → st'.events ≡ st.events
    → get_events k caller buyer after_id st' ≡ get_events k caller buyer after_id st
unfolding get_events
get_events-events k caller buyer after_id st st' e = rw e

pub IsCursor-events :
    (k : String) (after_id : Option String) (st st' : EventStore)
    → st'.events ≡ st.events
    → IsCursor k after_id st
    → IsCursor k after_id st'
unfolding has_cursor
IsCursor-events k none st st' e c = tt
IsCursor-events k (some id) st st' e c = rw e c

abbrev clear : ℕ → Subscriber → Subscriber
clear id sub = if sub.id == id then record sub { buffer = [] } else sub

-- The second half of `subscribeFrom`: the replay, and the buffer emptied.
module _ (k caller buyer : String) (after_id : Option String) (r id : ℕ) (st : EventStore)
    (registered : lookup k st.subscribers ≡ some r)
    (watched : watch (r, id) st ≡ some (fresh caller buyer buffering id)) where
  nothing_buffered : (rs : List NegotiationEvent) → dedup rs (buffer_of id (st.sets r)) ≡ []
  unfolding keep
  nothing_buffered rs = rw (watched, buffer_of)

  still_watched :
      watch (r, id) (record st { sets = update st.sets r (map (clear id) (st.sets r)) })
      ≡ some (fresh caller buyer buffering id)
  still_watched =
      watch-rewrite st r id (clear id) (λ sub. ground arith)
      ∙ ap (Option.map (clear id)) watched
      ∙ rw (==_refl id)

  drained-Follows :
      IsLinked st
      → IsCursor k after_id st
      → Follows k caller buyer after_id
          (record {
            rfq = k;
            handle = (r, id);
            replay = get_events k caller buyer after_id st;
            buffered = dedup (get_events k caller buyer after_id st) (buffer_of id (st.sets r));
          })
          (record st { sets = update st.sets r (map (clear id) (st.sets r)) })
          (fresh caller buyer buffering id)
  unfolding get_events has_cursor
  drained-Follows v c = record {
    linked = rewrite-IsLinked st r (clear id) (λ sub. ground arith) v;
    registered = registered;
    watched = still_watched;
    caller_kept = refl;
    buyer_kept = refl;
    running = inl refl;
    cursor = IsCursor-events k after_id st _ refl c;
    complete = rw (nothing_buffered (get_events k caller buyer after_id st)) (simp append-nil);
  }

pub subscribe_from-Follows :
    (k caller buyer : String) (after_id : Option String) (st : EventStore)
    → IsLinked st
    → IsCursor k after_id st
    → let (s, st') = subscribe_from k caller buyer after_id st in
      (sub : Subscriber) × Follows k caller buyer after_id s st' sub
unfolding subscribe_from
subscribe_from-Follows k caller buyer after_id st v c =
    let (h, st₁) = subscribe k caller buyer buffering st in
    let (registered, watched, linked, same) = subscribe-Subscribed k caller buyer buffering st v in
    (
      fresh caller buyer buffering h.1,
      drained-Follows k caller buyer after_id h.0 h.1 st₁ registered watched linked
          (IsCursor-events k after_id st st₁ same c),
    )

-- `subscribeFrom` and the read inside it run with no append between them, so the snapshot of the
-- buffer is always empty, and the replay is what `getEvents` returns.
pub subscribe_from_snapshot :
    (k caller buyer : String) (after_id : Option String) (st : EventStore)
    → IsLinked st
    → ((subscribe_from k caller buyer after_id st).0.buffered ≡ [])
      × ((subscribe_from k caller buyer after_id st).0.replay
          ≡ get_events k caller buyer after_id st)
unfolding subscribe_from
subscribe_from_snapshot k caller buyer after_id st v =
    let (h, st₁) = subscribe k caller buyer buffering st in
    let (registered, watched, linked, same) = subscribe-Subscribed k caller buyer buffering st v in
    (
      nothing_buffered k caller buyer after_id h.0 h.1 st₁ registered watched _,
      get_events-events k caller buyer after_id st st₁ same,
    )
