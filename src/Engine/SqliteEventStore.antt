-- ===== src/Engine/SqliteEventStore.antt =====
-- packages/engine/src/state/sqlite-event-store.ts: the event store on a table of SQLite.
-- The table is the list of its rows in the order of their ids; the subscribers are kept in memory, by
-- the same code as in state/event-store.ts, from which the mode, the listeners and the closures are
-- taken. The columns of texts hold what is written to them.
pub mod Cursor
pub mod Represents
pub mod Calls
pub mod Subscribers
pub mod Agrees
pub mod Refines
use ghost_bazaar.Prelude.{
  ℕ, suc, String, ◌===◌, ltb, Bool, true, false, ◌&&◌, not, ◌==◌, List, [], ◌∷◌, ◌++◌, map, Option,
  none, some, any, keep, find, count, Result, ok, err, ◌>>=◌, ◌>>◌, require, if◌then◌else◌,
}
use ghost_bazaar.Prelude.Dict.{Dict, lookup, insert, remove}
use ghost_bazaar.Prelude.Json.{Payload}
use ghost_bazaar.Engine.Types.{NegotiationEvent, EventType, SessionState}
use ghost_bazaar.Engine.Visibility.{is_terminal_type}
use ghost_bazaar.Engine.EventStore.{
  Mode, buffering, Subscriber, Subscription, notify, update, change, go_live, buffer_of, dedup,
  is_empty, terminal_state, visible,
}

-- The text of a payload, of whatever type T it is, and whether the file takes one row more.
pub record Backend (T : Type 0) : Type 0 where
  pub stringify : Payload → T
  pub parse : T → Payload
  pub has_room : ℕ → Bool

pub record EventRow (T : Type 0) : Type 0 where
  pub id : ℕ
  pub event_id : String
  pub session_id : String
  pub type : EventType
  pub actor : String
  pub timestamp : String
  pub payload : T

pub record SqliteEventStore (T : Type 0) : Type 0 where
  pub rows : List (EventRow T)
  pub next_row : ℕ
  pub active_session_ids : List String
  pub subscribers : Dict ℕ
  pub sets : ℕ → List Subscriber
  pub next_set : ℕ
  pub next_id : ℕ
  pub terminal_subscribers : Dict ℕ
  pub terminal_sets : ℕ → List ℕ
  pub next_terminal_set : ℕ
  pub terminal_calls : List (ℕ × SessionState)

-- `database_error` is an error of SQLite that is thrown on, such as a full disk.
pub data SqliteError : Type 0 where
  rfq_id_mismatch duplicate_event_id database_error : SqliteError

-- `Set.add`
unfoldable pub add_id : String → List String → List String
add_id k [] = k ∷ []
add_id k (j ∷ ids) = if j === k then j ∷ ids else j ∷ add_id k ids

abbrev pub new_subscriber : ℕ → String → String → Mode → Subscriber
new_subscriber id caller buyer mode = record {
  id = id;
  caller_did = caller;
  buyer = buyer;
  mode = mode;
  buffer = [];
  delivered = [];
}

module _ {T : Type 0} where
  -- The constructor, on the table that the file holds and the ids that `SELECT DISTINCT session_id`
  -- returns for it, in whatever order SQLite returns them.
  unfoldable pub open_database : List String → List (EventRow T) → ℕ → SqliteEventStore T
  open_database session_ids rows next_row = record {
    rows = rows;
    next_row = next_row;
    active_session_ids = session_ids;
    subscribers = [];
    sets = λ r. [];
    next_set = 0;
    next_id = 0;
    terminal_subscribers = [];
    terminal_sets = λ r. [];
    next_terminal_set = 0;
    terminal_calls = [];
  }

  abbrev pub of_session : String → EventRow T → Bool
  of_session k r = r.session_id === k

  abbrev pub is_cursor : String → String → EventRow T → Bool
  is_cursor k id r = r.session_id === k && r.event_id === id

  -- `SELECT * FROM events WHERE session_id = ? ORDER BY id`
  unfoldable pub stmt_get_all : String → List (EventRow T) → List (EventRow T)
  stmt_get_all k rows = keep (of_session k) rows

  abbrev pub is_later : String → EventRow T → EventRow T → Bool
  is_later k c r = r.session_id === k && ltb c.id r.id

  -- The query with the cursor; nothing is greater than the `NULL` of an unknown one.
  unfoldable pub stmt_get_after_cursor : String → String → List (EventRow T) → List (EventRow T)
  stmt_get_after_cursor k id rows = elim (find (is_cursor k id) rows) [
    | none ↦ []
    | some c ↦ keep (is_later k c) rows
  ]

  unfoldable pub notify_subscribers :
      String → NegotiationEvent → SqliteEventStore T → SqliteEventStore T
  notify_subscribers k e s = elim (lookup k s.subscribers) [
    | none ↦ s
    | some r ↦ record s { sets = update s.sets r (map (notify e) (s.sets r)) }
  ]

  unfoldable pub notify_terminal :
      String → NegotiationEvent → SqliteEventStore T → SqliteEventStore T
  notify_terminal k e s = elim (lookup k s.terminal_subscribers) [
    | none ↦ s
    | some r ↦
        if is_terminal_type e.type
        then record s {
          terminal_calls =
              s.terminal_calls ++ map (λ l. (l, terminal_state e.type)) (s.terminal_sets r);
          terminal_subscribers = remove k s.terminal_subscribers;
        }
        else s
  ]

  unfoldable pub size : String → SqliteEventStore T → ℕ
  size k s = count (of_session k) s.rows

  unfoldable pub has_cursor : String → String → SqliteEventStore T → Bool
  has_cursor k id s = any (is_cursor k id) s.rows

  unfoldable pub list_session_ids : SqliteEventStore T → List String
  list_session_ids s = s.active_session_ids

  unfoldable pub subscribe :
      String → String → String → Mode → SqliteEventStore T → (ℕ × ℕ) × SqliteEventStore T
  subscribe k caller buyer mode s = elim (lookup k s.subscribers) [
    | some r ↦ (
      (r, s.next_id),
      record s {
        sets = update s.sets r (s.sets r ++ new_subscriber s.next_id caller buyer mode ∷ []);
        next_id = suc s.next_id;
      },
    )
    | none ↦ (
      (s.next_set, s.next_id),
      record s {
        subscribers = insert k s.next_set s.subscribers;
        sets = update s.sets s.next_set (new_subscriber s.next_id caller buyer mode ∷ []);
        next_set = suc s.next_set;
        next_id = suc s.next_id;
      },
    )
  ]

  unfoldable pub unsubscribe : String → ℕ × ℕ → SqliteEventStore T → SqliteEventStore T
  unsubscribe k (r, id) s =
      let left = keep (λ sub. not (sub.id == id)) (s.sets r) in
      record s {
        sets = update s.sets r left;
        subscribers = if is_empty left then remove k s.subscribers else s.subscribers;
      }

  unfoldable pub activate : Subscription → SqliteEventStore T → SqliteEventStore T
  unfolding go_live
  activate sub s =
      let (r, id) = sub.handle in
      record s { sets = update s.sets r (change id (λ c. go_live c.mode c) (s.sets r)) }

  unfoldable pub subscribe_terminal : String → ℕ → SqliteEventStore T → ℕ × SqliteEventStore T
  subscribe_terminal k listener s = elim (lookup k s.terminal_subscribers) [
    | some r ↦
        let old = s.terminal_sets r in
        (
          r,
          record s {
            terminal_sets =
                update s.terminal_sets r
                  (if any (λ l. l == listener) old then old else old ++ listener ∷ []);
          },
        )
    | none ↦ (
      s.next_terminal_set,
      record s {
        terminal_subscribers = insert k s.next_terminal_set s.terminal_subscribers;
        terminal_sets = update s.terminal_sets s.next_terminal_set (listener ∷ []);
        next_terminal_set = suc s.next_terminal_set;
      },
    )
  ]

  unfoldable pub unsubscribe_terminal : String → ℕ → ℕ → SqliteEventStore T → SqliteEventStore T
  unsubscribe_terminal k r listener s =
      let left = keep (λ l. not (l == listener)) (s.terminal_sets r) in
      record s {
        terminal_sets = update s.terminal_sets r left;
        terminal_subscribers =
            if is_empty left then remove k s.terminal_subscribers else s.terminal_subscribers;
      }

module _ {T : Type 0} (db : Backend T) where
  unfoldable pub row_to_event : EventRow T → NegotiationEvent
  row_to_event r = record {
    event_id = r.event_id;
    rfq_id = r.session_id;
    type = r.type;
    actor = r.actor;
    timestamp = r.timestamp;
    payload = db.parse r.payload;
  }

  unfoldable pub row_of : ℕ → String → NegotiationEvent → EventRow T
  row_of id k e = record {
    id = id;
    event_id = e.event_id;
    session_id = k;
    type = e.type;
    actor = e.actor;
    timestamp = e.timestamp;
    payload = db.stringify e.payload;
  }

  -- `stmtInsert.run` and the translation of its errors.
  unfoldable pub stmt_insert :
      String → NegotiationEvent → SqliteEventStore T → Result SqliteError (SqliteEventStore T)
  unfolding row_of
  stmt_insert k e s = do
    require (not (any (λ r. r.event_id === e.event_id) s.rows)) duplicate_event_id
    require (db.has_room s.next_row) database_error
    ok (record s { rows = s.rows ++ row_of s.next_row k e ∷ []; next_row = suc s.next_row })

  unfoldable pub track_session : String → SqliteEventStore T → SqliteEventStore T
  unfolding add_id
  track_session k s = record s { active_session_ids = add_id k s.active_session_ids }

  -- The event that is sent to the subscribers, its payload through JSON and back.
  unfoldable pub frozen_event : String → NegotiationEvent → NegotiationEvent
  frozen_event k e = record e { rfq_id = k; payload = db.parse (db.stringify e.payload) }

  unfoldable pub append :
      String → NegotiationEvent → SqliteEventStore T → Result SqliteError (SqliteEventStore T)
  unfolding stmt_insert track_session frozen_event notify_subscribers notify_terminal
  append k e s = do
    require (k === e.rfq_id) rfq_id_mismatch
    s' ← stmt_insert k e s
    ok (
        notify_terminal k (frozen_event k e)
          (notify_subscribers k (frozen_event k e) (track_session k s')))

  unfoldable pub get_all_events : String → SqliteEventStore T → List NegotiationEvent
  unfolding stmt_get_all row_to_event
  get_all_events k s = map row_to_event (stmt_get_all k s.rows)

  -- The rows that `getEvents` reads.
  unfoldable pub read_rows : String → Option String → SqliteEventStore T → List (EventRow T)
  unfolding has_cursor stmt_get_after_cursor stmt_get_all
  read_rows k none s = stmt_get_all k s.rows
  read_rows k (some id) s = if has_cursor k id s then stmt_get_after_cursor k id s.rows else []

  unfoldable pub get_events :
      String → String → String → Option String → SqliteEventStore T → List NegotiationEvent
  unfolding read_rows row_to_event
  get_events k caller buyer after_id s =
      visible caller buyer (map row_to_event (read_rows k after_id s))

  unfoldable pub subscribe_from :
      String
      → String
      → String
      → Option String
      → SqliteEventStore T
      → Subscription × SqliteEventStore T
  unfolding subscribe get_events
  subscribe_from k caller buyer after_id s =
      let ((r, id), s') = subscribe k caller buyer buffering s in
      let replay = get_events k caller buyer after_id s' in
      let deduped = dedup replay (buffer_of id (s'.sets r)) in
      (
        record { rfq = k; handle = (r, id); replay = replay; buffered = deduped },
        record s' {
          sets = update s'.sets r (change id (λ c. record c { buffer = [] }) (s'.sets r));
        },
      )
