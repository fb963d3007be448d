-- ===== src/Engine/SqliteEventStore/Calls.antt =====
-- packages/engine/src/state/sqlite-event-store.ts and event-store.ts: one interface, two stores.
use ghost_bazaar.Prelude.{ℕ, String, Bool, List, [], ◌∷◌, Option, Result, ok, err}
use ghost_bazaar.Engine.Types.{NegotiationEvent}
use ghost_bazaar.Engine.EventStore
use ghost_bazaar.Engine.EventStore.{EventStore, StoreError, live, Subscription}
use ghost_bazaar.Engine.SqliteEventStore
use ghost_bazaar.Engine.SqliteEventStore.{Backend, SqliteEventStore, SqliteError}

-- The calls of the interface `InternalEventStore`; those of the closures it returns name their handle.
pub data Call : Type 0 where
  appends : String → NegotiationEvent → Call
  reads : String → String → String → Option String → Call
  reads_all : String → Call
  counts : String → Call
  looks_for : String → String → Call
  lists : Call
  subscribes : String → String → String → Call
  unsubscribes : String → ℕ × ℕ → Call
  subscribes_from : String → String → String → Option String → Call
  activates : Subscription → Call
  subscribes_terminal : String → ℕ → Call
  unsubscribes_terminal : String → ℕ → ℕ → Call

pub data Answer : Type 0 where
  done : Answer
  refused : SqliteError → Answer
  events : List NegotiationEvent → Answer
  number : ℕ → Answer
  known : Bool → Answer
  sessions : List String → Answer
  subscribed_as : ℕ × ℕ → Answer
  following : Subscription → Answer

abbrev pub error_of : StoreError → SqliteError
error_of StoreError.rfq_id_mismatch = SqliteError.rfq_id_mismatch
error_of StoreError.duplicate_event_id = SqliteError.duplicate_event_id

abbrev pub answer_of : EventStore → Result StoreError EventStore → Answer × EventStore
answer_of st (ok st') = (done, st')
answer_of st (err e) = (refused (error_of e), st)

unfoldable pub call_memory : Call → EventStore → Answer × EventStore
unfolding EventStore.append EventStore.get_events EventStore.get_all_events EventStore.size
    EventStore.has_cursor EventStore.list_session_ids EventStore.subscribe EventStore.unsubscribe
    EventStore.subscribe_from EventStore.activate EventStore.subscribe_terminal
    EventStore.unsubscribe_terminal
call_memory (appends k e) st = answer_of st (EventStore.append k e st)
call_memory (reads k caller buyer after_id) st =
    (events (EventStore.get_events k caller buyer after_id st), st)
call_memory (reads_all k) st = (events (EventStore.get_all_events k st), st)
call_memory (counts k) st = (number (EventStore.size k st), st)
call_memory (looks_for k id) st = (known (EventStore.has_cursor k id st), st)
call_memory lists st = (sessions (EventStore.list_session_ids st), st)
call_memory (subscribes k caller buyer) st =
    let (h, st') = EventStore.subscribe k caller buyer live st in (subscribed_as h, st')
call_memory (unsubscribes k h) st = (done, EventStore.unsubscribe k h st)
call_memory (subscribes_from k caller buyer after_id) st =
    let (sub, st') = EventStore.subscribe_from k caller buyer after_id st in (following sub, st')
call_memory (activates sub) st = (done, EventStore.activate sub st)
call_memory (subscribes_terminal k l) st =
    let (r, st') = EventStore.subscribe_terminal k l st in (number r, st')
call_memory (unsubscribes_terminal k r l) st = (done, EventStore.unsubscribe_terminal k r l st)

unfoldable pub answers_in_memory : List Call → EventStore → List Answer
unfolding call_memory
answers_in_memory [] st = []
answers_in_memory (c ∷ cs) st = let (a, st') = call_memory c st in a ∷ answers_in_memory cs st'

unfoldable pub run_memory : List Call → EventStore → EventStore
unfolding call_memory
run_memory [] st = st
run_memory (c ∷ cs) st = run_memory cs (call_memory c st).1

module _ {T : Type 0} (db : Backend T) where
  abbrev pub sqlite_answer :
      SqliteEventStore T → Result SqliteError (SqliteEventStore T) → Answer × SqliteEventStore T
  sqlite_answer s (ok s') = (done, s')
  sqlite_answer s (err e) = (refused e, s)

  unfoldable pub call_sqlite : Call → SqliteEventStore T → Answer × SqliteEventStore T
  unfolding SqliteEventStore.append SqliteEventStore.get_events SqliteEventStore.get_all_events
      SqliteEventStore.size SqliteEventStore.has_cursor SqliteEventStore.list_session_ids
      SqliteEventStore.subscribe SqliteEventStore.unsubscribe SqliteEventStore.subscribe_from
      SqliteEventStore.activate SqliteEventStore.subscribe_terminal
      SqliteEventStore.unsubscribe_terminal
  call_sqlite (appends k e) s = sqlite_answer s (SqliteEventStore.append db k e s)
  call_sqlite (reads k caller buyer after_id) s =
      (events (SqliteEventStore.get_events db k caller buyer after_id s), s)
  call_sqlite (reads_all k) s = (events (SqliteEventStore.get_all_events db k s), s)
  call_sqlite (counts k) s = (number (SqliteEventStore.size k s), s)
  call_sqlite (looks_for k id) s = (known (SqliteEventStore.has_cursor k id s), s)
  call_sqlite lists s = (sessions (SqliteEventStore.list_session_ids s), s)
  call_sqlite (subscribes k caller buyer) s =
      let (h, s') = SqliteEventStore.subscribe k caller buyer live s in (subscribed_as h, s')
  call_sqlite (unsubscribes k h) s = (done, SqliteEventStore.unsubscribe k h s)
  call_sqlite (subscribes_from k caller buyer after_id) s =
      let (sub, s') = SqliteEventStore.subscribe_from db k caller buyer after_id s in
      (following sub, s')
  call_sqlite (activates sub) s = (done, SqliteEventStore.activate sub s)
  call_sqlite (subscribes_terminal k l) s =
      let (r, s') = SqliteEventStore.subscribe_terminal k l s in (number r, s')
  call_sqlite (unsubscribes_terminal k r l) s =
      (done, SqliteEventStore.unsubscribe_terminal k r l s)

  unfoldable pub answers : List Call → SqliteEventStore T → List Answer
  unfolding call_sqlite
  answers [] s = []
  answers (c ∷ cs) s = let (a, s') = call_sqlite c s in a ∷ answers cs s'

  unfoldable pub run_sqlite : List Call → SqliteEventStore T → SqliteEventStore T
  unfolding call_sqlite
  run_sqlite [] s = s
  run_sqlite (c ∷ cs) s = run_sqlite cs (call_sqlite c s).1
