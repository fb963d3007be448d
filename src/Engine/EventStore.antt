-- ===== src/Engine/EventStore.antt =====
-- packages/engine/src/state/event-store.ts: the append-only logs, the subscribers that follow them
-- and the listeners for the end of a session.
-- A `Set` that two closures share is a cell of a heap, `sets`; a subscriber has an identity, and the
-- calls of its listener are recorded in `delivered`. A listener that throws is caught, so it has no
-- effect here. `structuredClone` and `deepFreeze` keep the values that they copy.
pub mod Log
pub mod Unique
pub mod Linked
pub mod Stream
pub mod Unsubscribe
use ghost_bazaar.Prelude.{
  ℕ, suc, String, ◌===◌, Bool, true, false, ◌&&◌, not, ◌==◌, List, [], ◌∷◌, ◌++◌, map, Option, none,
  some, any, keep, find, length, Result, ok, err, ◌>>=◌, ◌>>◌, require, if◌then◌else◌,
}
use ghost_bazaar.Prelude.Dict.{Dict, lookup, insert, remove, keys}
use ghost_bazaar.Engine.Types.{
  NegotiationEvent, EventType, quote_committed, negotiation_expired, SessionState, committed,
  expired, cancelled,
}
use ghost_bazaar.Engine.Visibility.{is_event_visible_to, is_terminal_type}

-- The `mode` of a subscription made by `subscribeFrom`; one made by `subscribe` is always live.
pub data Mode : Type 0 where
  buffering live stopped : Mode

pub record Subscriber : Type 0 where
  pub id : ℕ
  pub caller_did : String
  pub buyer : String
  pub mode : Mode
  pub buffer : List NegotiationEvent
  pub delivered : List NegotiationEvent

pub record EventStore : Type 0 where
  pub events : Dict (List NegotiationEvent)
  pub seen_event_ids : List String
  pub subscribers : Dict ℕ
  pub sets : ℕ → List Subscriber
  pub next_set : ℕ
  pub next_id : ℕ
  pub terminal_subscribers : Dict ℕ
  pub terminal_sets : ℕ → List ℕ
  pub next_terminal_set : ℕ
  pub terminal_calls : List (ℕ × SessionState)

pub data StoreError : Type 0 where
  rfq_id_mismatch duplicate_event_id : StoreError

abbrev pub or_empty {ℓ} : {A : Type ℓ} → Option (List A) → List A
or_empty none = []
or_empty (some xs) = xs

-- The class's initial fields.
unfoldable pub empty_store : EventStore
empty_store = record {
  events = [];
  seen_event_ids = [];
  subscribers = [];
  sets = λ r. [];
  next_set = 0;
  next_id = 0;
  terminal_subscribers = [];
  terminal_sets = λ r. [];
  next_terminal_set = 0;
  terminal_calls = [];
}

-- The listener of a subscriber, as `subscribe` and `subscribeFrom` register it.
unfoldable pub listen : Mode → NegotiationEvent → Subscriber → Subscriber
listen stopped e sub = sub
listen buffering e sub = record sub { buffer = sub.buffer ++ e ∷ [] }
listen live e sub = record sub { delivered = sub.delivered ++ e ∷ [] }

-- One round of the notification loop.
unfoldable pub notify : NegotiationEvent → Subscriber → Subscriber
unfolding listen
notify e sub = if is_event_visible_to e sub.caller_did sub.buyer then listen sub.mode e sub else sub

abbrev pub update {ℓ} : {A : Type ℓ} → (ℕ → A) → ℕ → A → ℕ → A
update f r a i = if r == i then a else f i

unfoldable pub notify_subscribers : String → NegotiationEvent → EventStore → EventStore
notify_subscribers rfq_id e st = elim (lookup rfq_id st.subscribers) [
  | none ↦ st
  | some r ↦ record st { sets = update st.sets r (map (notify e) (st.sets r)) }
]

abbrev pub terminal_state : EventType → SessionState
terminal_state quote_committed = committed
terminal_state negotiation_expired = expired
terminal_state _ = cancelled

unfoldable pub notify_terminal : String → NegotiationEvent → EventStore → EventStore
notify_terminal rfq_id e st = elim (lookup rfq_id st.terminal_subscribers) [
  | none ↦ st
  | some r ↦
      if is_terminal_type e.type
      then record st {
        terminal_calls =
            st.terminal_calls ++ map (λ l. (l, terminal_state e.type)) (st.terminal_sets r);
        terminal_subscribers = remove rfq_id st.terminal_subscribers;
      }
      else st
]

-- The part of `append` that stores the event.
unfoldable pub store_event : String → NegotiationEvent → EventStore → EventStore
store_event rfq_id e st = record st {
  seen_event_ids = e.event_id ∷ st.seen_event_ids;
  events = insert rfq_id (or_empty (lookup rfq_id st.events) ++ e ∷ []) st.events;
}

unfoldable pub append : String → NegotiationEvent → EventStore → Result StoreError EventStore
append rfq_id e st = do
  require (rfq_id === e.rfq_id) rfq_id_mismatch
  require (not (any (λ id. id === e.event_id) st.seen_event_ids)) duplicate_event_id
  ok (notify_terminal rfq_id e (notify_subscribers rfq_id e (store_event rfq_id e st)))

unfoldable pub get_all_events : String → EventStore → List NegotiationEvent
get_all_events rfq_id st = or_empty (lookup rfq_id st.events)

unfoldable pub size : String → EventStore → ℕ
size rfq_id st = length (or_empty (lookup rfq_id st.events))

unfoldable pub has_cursor : String → String → EventStore → Bool
has_cursor rfq_id event_id st =
    any (λ e. e.event_id === event_id) (or_empty (lookup rfq_id st.events))

unfoldable pub list_session_ids : EventStore → List String
list_session_ids st = keys st.events

-- `findIndex` and the events behind it; an unknown cursor gives no events.
unfoldable pub after_cursor : String → List NegotiationEvent → List NegotiationEvent
after_cursor id [] = []
after_cursor id (e ∷ es) = if e.event_id === id then es else after_cursor id es

unfoldable pub from_cursor : Option String → List NegotiationEvent → List NegotiationEvent
from_cursor none es = es
from_cursor (some id) es = after_cursor id es

abbrev pub visible : String → String → List NegotiationEvent → List NegotiationEvent
visible caller buyer = keep (λ e. is_event_visible_to e caller buyer)

unfoldable pub get_events :
    String → String → String → Option String → EventStore → List NegotiationEvent
get_events rfq_id caller buyer after_id st =
    visible caller buyer (from_cursor after_id (or_empty (lookup rfq_id st.events)))

-- `subscribe`: the subscriber joins the session's set, which is made if there is none. The result
-- names the set that the returned closure holds on to, and the subscriber in it.
unfoldable pub subscribe : String → String → String → Mode → EventStore → (ℕ × ℕ) × EventStore
subscribe rfq_id caller buyer mode st = elim (lookup rfq_id st.subscribers) [
  | some r ↦ (
    (r, st.next_id),
    record st {
      sets = update st.sets r (st.sets r ++ new_subscriber ∷ []);
      next_id = suc st.next_id;
    },
  )
  | none ↦ (
    (st.next_set, st.next_id),
    record st {
      subscribers = insert rfq_id st.next_set st.subscribers;
      sets = update st.sets st.next_set (new_subscriber ∷ []);
      next_set = suc st.next_set;
      next_id = suc st.next_id;
    },
  )
]
  where
    new_subscriber : Subscriber
    new_subscriber = record {
      id = st.next_id;
      caller_did = caller;
      buyer = buyer;
      mode = mode;
      buffer = [];
      delivered = [];
    }

abbrev pub is_empty {ℓ} : {A : Type ℓ} → List A → Bool
is_empty [] = true
is_empty (x ∷ xs) = false

-- The closure that `subscribe` returns, for the set and the subscriber that it holds.
unfoldable pub unsubscribe : String → ℕ × ℕ → EventStore → EventStore
unsubscribe rfq_id (r, id) st =
    let left = keep (λ sub. not (sub.id == id)) (st.sets r) in
    record st {
      sets = update st.sets r left;
      subscribers = if is_empty left then remove rfq_id st.subscribers else st.subscribers;
    }

-- What `subscribeFrom` returns to its caller.
pub record Subscription : Type 0 where
  pub rfq : String
  pub handle : ℕ × ℕ
  pub replay : List NegotiationEvent
  pub buffered : List NegotiationEvent

abbrev pub change : ℕ → (Subscriber → Subscriber) → List Subscriber → List Subscriber
change id f = map (λ sub. if sub.id == id then f sub else sub)

abbrev pub buffer_of : ℕ → List Subscriber → List NegotiationEvent
buffer_of id subs = elim (find (λ sub. sub.id == id) subs) [ none ↦ [] | some sub ↦ sub.buffer ]

-- The events of the buffer that the replay does not hold.
abbrev pub dedup : List NegotiationEvent → List NegotiationEvent → List NegotiationEvent
dedup replay = keep (λ e. not (any (λ r. r.event_id === e.event_id) replay))

unfoldable pub subscribe_from :
    String → String → String → Option String → EventStore → Subscription × EventStore
subscribe_from rfq_id caller buyer after_id st =
    let ((r, id), st') = subscribe rfq_id caller buyer buffering st in
    let replay = get_events rfq_id caller buyer after_id st' in
    let deduped = dedup replay (buffer_of id (st'.sets r)) in
    (
      record { rfq = rfq_id; handle = (r, id); replay = replay; buffered = deduped },
      record st' {
        sets = update st'.sets r (change id (λ sub. record sub { buffer = [] }) (st'.sets r));
      },
    )

-- `activate`: the buffer is flushed to the listener, which is live from then on. `activated` and
-- `stopped` are the modes `live` and `stopped`.
unfoldable pub go_live : Mode → Subscriber → Subscriber
go_live buffering sub = record sub {
  mode = live;
  delivered = sub.delivered ++ sub.buffer;
  buffer = [];
}
go_live live sub = sub
go_live stopped sub = sub

unfoldable pub activate : Subscription → EventStore → EventStore
unfolding go_live
activate s st =
    let (r, id) = s.handle in
    record st { sets = update st.sets r (change id (λ sub. go_live sub.mode sub) (st.sets r)) }

-- `unsubscribe` of a subscription with a cursor.
unfoldable pub cancel : Subscription → EventStore → EventStore
cancel s st = unsubscribe s.rfq s.handle st

-- `subscribeTerminal` with the set that its closure holds on to. Adding a listener that the set
-- holds already changes nothing.
unfoldable pub subscribe_terminal : String → ℕ → EventStore → ℕ × EventStore
subscribe_terminal rfq_id listener st = elim (lookup rfq_id st.terminal_subscribers) [
  | some r ↦
      let old = st.terminal_sets r in
      (
        r,
        record st {
          terminal_sets =
              update st.terminal_sets r
                (if any (λ l. l == listener) old then old else old ++ listener ∷ []);
        },
      )
  | none ↦ (
    st.next_terminal_set,
    record st {
      terminal_subscribers = insert rfq_id st.next_terminal_set st.terminal_subscribers;
      terminal_sets = update st.terminal_sets st.next_terminal_set (listener ∷ []);
      next_terminal_set = suc st.next_terminal_set;
    },
  )
]

unfoldable pub unsubscribe_terminal : String → ℕ → ℕ → EventStore → EventStore
unsubscribe_terminal rfq_id r listener st =
    let left = keep (λ l. not (l == listener)) (st.terminal_sets r) in
    record st {
      terminal_sets = update st.terminal_sets r left;
      terminal_subscribers =
          if is_empty left then remove rfq_id st.terminal_subscribers else st.terminal_subscribers;
    }
