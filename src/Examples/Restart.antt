-- ===== src/Examples/Restart.antt =====
-- A log on SQLite, followed, closed and opened again; the text of a payload is the payload.
use ghost_bazaar.Prelude.{◌≡◌, refl, true, ◌++◌, List, [], ◌∷◌, none, some, any, keep, ◌===◌, arith}
use ghost_bazaar.Prelude.Json.{Payload, get}
use ghost_bazaar.Engine.EventStore.{empty_store}
use ghost_bazaar.Prelude.Dict.{lookup, insert}
use ghost_bazaar.Engine.SqliteEventStore.{
  Backend, EventRow, open_database, append, stmt_insert, track_session, subscribe_from, subscribe,
  get_events, read_rows, notify_subscribers, notify_terminal, row_of, frozen_event, add_id,
}
use ghost_bazaar.Engine.SqliteEventStore.Calls.{
  Call, appends, reads, counts, looks_for, lists, subscribes_from, answers, answers_in_memory,
  run_memory, run_sqlite, call_sqlite,
}
use ghost_bazaar.Engine.SqliteEventStore.Refines.{
  AreSessionsOf, without_subscribers, sqlite_refines_memory, restart_forgets_subscribers_only,
}
use ghost_bazaar.Examples.World.{rfq_id, buyer}
use ghost_bazaar.Examples.Stores.{rfq_sent, offer_sent}

abbrev file : Backend Payload
file = record { stringify = λ p. p; parse = λ p. p; has_room = λ n. true }

abbrev written : List Call
written =
    subscribes_from rfq_id buyer buyer none
    ∷ appends rfq_id rfq_sent
    ∷ appends rfq_id rfq_sent
    ∷ appends rfq_id offer_sent
    ∷ []

abbrev read_again : List Call
read_again =
    reads rfq_id buyer buyer (some "e0")
    ∷ counts rfq_id
    ∷ looks_for rfq_id "e1"
    ∷ appends rfq_id offer_sent
    ∷ lists
    ∷ []

sqlite_refines_memory_example :
    answers file (written ++ read_again) (open_database [] [] 1)
    ≡ answers_in_memory (written ++ read_again) empty_store
sqlite_refines_memory_example =
    sqlite_refines_memory file (λ p. refl) (λ n. refl) (written ++ read_again)

abbrev rows_of_file : List (EventRow Payload)
rows_of_file = row_of file 1 rfq_id rfq_sent ∷ row_of file 2 rfq_id offer_sent ∷ []

rows_written : (run_sqlite file written (open_database [] [] 1)).rows ≡ rows_of_file
unfolding run_sqlite call_sqlite open_database append stmt_insert track_session subscribe_from
    subscribe get_events read_rows notify_subscribers notify_terminal row_of frozen_event add_id any
    keep get lookup insert ◌===◌
rows_written = refl

sessions_of_file :
    AreSessionsOf file
      (λ p. refl)
      (λ n. refl)
      (rfq_id ∷ [])
      (run_sqlite file written (open_database [] [] 1)).rows
unfolding any row_of
sessions_of_file k = rw rows_written (ground arith)

restart_forgets_subscribers_only_example :
    answers file read_again (
      open_database
        (rfq_id ∷ [])
        (run_sqlite file written (open_database [] [] 1)).rows
        (run_sqlite file written (open_database [] [] 1)).next_row)
    ≡ answers_in_memory read_again
        (without_subscribers (rfq_id ∷ []) (run_memory written empty_store))
restart_forgets_subscribers_only_example =
    restart_forgets_subscribers_only file (λ p. refl) (λ n. refl) written read_again (rfq_id ∷ [])
      sessions_of_file
