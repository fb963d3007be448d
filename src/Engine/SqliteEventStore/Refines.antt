-- ===== src/Engine/SqliteEventStore/Refines.antt =====
-- packages/engine/src/state/sqlite-event-store.ts answers every call as event-store.ts does.
use ghost_bazaar.Prelude.{
  ℕ, String, ◌===◌, ===_iff, true, false, Bool-cases, inl, inr, arith, if◌then◌else◌, List, [], ◌∷◌,
  any, keep, ◌≡◌, refl, sym, ap, ◌∙◌,
}
use ghost_bazaar.Prelude.Dict.{Dict, lookup, keys}
use ghost_bazaar.Prelude.Json.{Payload}
use ghost_bazaar.Engine.Types.{NegotiationEvent}
use ghost_bazaar.Engine.EventStore.{EventStore, empty_store, or_empty}
use ghost_bazaar.Engine.SqliteEventStore.{
  Backend, SqliteEventStore, EventRow, open_database, of_session,
}
use ghost_bazaar.Engine.SqliteEventStore.Represents.{in_memory}
use ghost_bazaar.Engine.SqliteEventStore.Subscribers.{IsTable}
use ghost_bazaar.Engine.SqliteEventStore.Calls.{
  Call, call_sqlite, answers, answers_in_memory, run_memory, run_sqlite,
}
use ghost_bazaar.Engine.SqliteEventStore.Agrees.{call-Agrees}

-- The logs of the given sessions, in their order.
abbrev pub in_order : List String → Dict (List NegotiationEvent) → Dict (List NegotiationEvent)
in_order [] logs = []
in_order (k ∷ ks) logs = (k, or_empty (lookup k logs)) ∷ in_order ks logs

-- The logs of a store in memory in the given order, with nobody subscribed.
unfoldable pub without_subscribers : List String → EventStore → EventStore
unfolding empty_store
without_subscribers active st = record empty_store {
  events = in_order active st.events;
  seen_event_ids = st.seen_event_ids;
}

module _ {T : Type 0} (db : Backend T) (json : (p : Payload) → db.parse (db.stringify p) ≡ p)
    (room : (n : ℕ) → db.has_room n ≡ true) where
  answers-same :
      (cs : List Call) (s : SqliteEventStore T) (logs : Dict (List NegotiationEvent))
      (ids : List String)
      → IsTable db s logs ids
      → answers db cs s ≡ answers_in_memory cs (in_memory db logs ids s)
  unfolding answers answers_in_memory
  answers-same [] s logs ids h = refl
  answers-same (c ∷ cs) s logs ids h =
      let a = call-Agrees db json room c s logs ids h in
      rw (a.same, answers-same cs (call_sqlite db c s).1 a.logs' a.ids' a.table) refl

  empty_database-IsTable : IsTable db (open_database [] [] 1) [] []
  unfolding open_database lookup any keep keys
  empty_database-IsTable = record {
    log = λ k. refl;
    seen = λ id. refl;
    listed = refl;
    rising = tt;
    below = tt;
  }

  -- If JSON.parse undoes JSON.stringify on payloads and the file never reaches its size limit,
  -- the SQLite store on an empty table answers every sequence of calls of the interface as the
  -- store in memory does: the same errors, events, cursors, sizes, sessions and subscriptions.
  pub sqlite_refines_memory :
      (cs : List Call) → answers db cs (open_database [] [] 1) ≡ answers_in_memory cs empty_store
  unfolding open_database empty_store
  sqlite_refines_memory cs = answers-same cs (open_database [] [] 1) [] [] empty_database-IsTable

  record Followed (cs : List Call) (s : SqliteEventStore T) (logs : Dict (List NegotiationEvent))
      (ids : List String) : Type 0 where
    logs' : Dict (List NegotiationEvent)
    ids' : List String
    same : run_memory cs (in_memory db logs ids s) ≡ in_memory db logs' ids' (run_sqlite db cs s)
    table : IsTable db (run_sqlite db cs s) logs' ids'

  run-Followed :
      (cs : List Call) (s : SqliteEventStore T) (logs : Dict (List NegotiationEvent))
      (ids : List String)
      → IsTable db s logs ids
      → Followed cs s logs ids
  unfolding run_memory run_sqlite
  run-Followed [] s logs ids h = record { logs' = logs; ids' = ids; same = refl; table = h }
  run-Followed (c ∷ cs) s logs ids h =
      let a = call-Agrees db json room c s logs ids h in
      let f = run-Followed cs (call_sqlite db c s).1 a.logs' a.ids' a.table in
      record {
        logs' = f.logs';
        ids' = f.ids';
        same = ap (λ r. run_memory cs r.1) a.same ∙ f.same;
        table = f.table;
      }

  lookup-in_order :
      (k : String) (active : List String) (logs : Dict (List NegotiationEvent))
      → or_empty (lookup k (in_order active logs))
        ≡ (if any (λ j. j === k) active then or_empty (lookup k logs) else [])
  unfolding lookup any
  lookup-in_order k [] logs = refl
  lookup-in_order k (j ∷ active) logs = elim (Bool-cases (j === k)) [
    | inl same ↦ rw (same, (===_iff j k).0 same) refl
    | inr other ↦ rw other (lookup-in_order k active logs)
  ]

  keep-none :
      (k : String) (rows : List (EventRow T))
      → any (of_session k) rows ≡ false
      → keep (of_session k) rows ≡ []
  unfolding any keep
  keep-none k [] h = refl
  keep-none k (r ∷ rows) h = ground (arith, h, keep-none k rows)

  keys-in_order :
      (active : List String) (logs : Dict (List NegotiationEvent))
      → keys (in_order active logs) ≡ active
  unfolding keys
  keys-in_order [] logs = refl
  keys-in_order (j ∷ active) logs = ap (◌∷◌ j) (keys-in_order active logs)

  -- The ids of the sessions that have a row.
  abbrev pub AreSessionsOf : List String → List (EventRow T) → Type 0
  AreSessionsOf active rows = (k : String) → any (λ j. j === k) active ≡ any (of_session k) rows

  reopened-IsTable :
      (active : List String) (s : SqliteEventStore T) (logs : Dict (List NegotiationEvent))
      (ids : List String)
      → AreSessionsOf active s.rows
      → IsTable db s logs ids
      → IsTable db (open_database active s.rows s.next_row) (in_order active logs) ids
  unfolding open_database
  reopened-IsTable active s logs ids listed h = record {
    log = λ k. elim (Bool-cases (any (of_session k) s.rows)) [
      | inl found ↦ rw (lookup-in_order k active logs, listed k, found) (h.log k)
      | inr unknown ↦
          rw (lookup-in_order k active logs, listed k, unknown, keep-none k s.rows unknown) refl
    ];
    seen = h.seen;
    listed = keys-in_order active logs;
    rising = h.rising;
    below = h.below;
  }

  -- If the file is opened again after any sequence of calls, and the query for the session ids
  -- returns those that have a row, in whatever order, then, under the same two conditions, every
  -- further sequence of calls is answered as the store in memory answers it with the same logs,
  -- in that order, and nobody subscribed.
  pub restart_forgets_subscribers_only :
      (cs ds : List Call) (active : List String)
      → AreSessionsOf active (run_sqlite db cs (open_database [] [] 1)).rows
      → (let s = run_sqlite db cs (open_database [] [] 1) in
          answers db ds (open_database active s.rows s.next_row))
        ≡ answers_in_memory ds (without_subscribers active (run_memory cs empty_store))
  unfolding open_database empty_store without_subscribers
  restart_forgets_subscribers_only cs ds active listed =
      let f = run-Followed cs (open_database [] [] 1) [] [] empty_database-IsTable in
      let s = run_sqlite db cs (open_database [] [] 1) in
      answers-same ds (open_database active s.rows s.next_row) (in_order active f.logs') f.ids'
        (reopened-IsTable active s f.logs' f.ids' listed f.table)
      ∙ ap (λ st. answers_in_memory ds (without_subscribers active st)) (sym f.same)
