-- ===== src/Engine/SqliteEventStore/Agrees.antt =====
-- packages/engine/src/state/sqlite-event-store.ts answers one call as event-store.ts does.
use ghost_bazaar.Prelude.{
  ℕ, suc, String, ◌===◌, ===_iff, true, false, Bool-cases, List, [], ◌∷◌, ◌++◌, map, Option, any,
  keep, count-keep, length-map, ◌≡◌, refl, ap, ◌∙◌, inl, inr, arith, ok,
}
use ghost_bazaar.Prelude.Dict.{Dict, lookup, insert}
use ghost_bazaar.Prelude.Json.{Payload}
use ghost_bazaar.Engine.Types.{NegotiationEvent}
use ghost_bazaar.Engine.EventStore
use ghost_bazaar.Engine.EventStore.{EventStore, live, buffering, or_empty, visible, empty_store}
use ghost_bazaar.Engine.SqliteEventStore
use ghost_bazaar.Engine.SqliteEventStore.{
  Backend, EventRow, SqliteEventStore, of_session, is_cursor, row_to_event,
}
use ghost_bazaar.Engine.SqliteEventStore.Cursor.{read_rows-from_cursor}
use ghost_bazaar.Engine.SqliteEventStore.Represents.{
  in_memory, frozen_event-same, stored-Represents,
}
use ghost_bazaar.Engine.SqliteEventStore.Subscribers.{
  IsTable, notify_subscribers-memory, notify_subscribers-IsTable, notify_terminal-memory,
  notify_terminal-IsTable, subscribe-memory, subscribe-IsTable, subscribe_terminal-memory,
  subscribe_terminal-IsTable,
}
use ghost_bazaar.Engine.SqliteEventStore.Calls.{
  Call, appends, reads, reads_all, counts, looks_for, lists, subscribes, unsubscribes,
  subscribes_from, activates, subscribes_terminal, unsubscribes_terminal, Answer, answer_of,
  sqlite_answer, call_memory, call_sqlite, answers, answers_in_memory, run_memory, run_sqlite,
}

module _ {T : Type 0} (db : Backend T) (json : (p : Payload) → db.parse (db.stringify p) ≡ p)
    (room : (n : ℕ) → db.has_room n ≡ true) where
  any-map :
      (k id : String) (rs : List (EventRow T))
      → any (λ e. e.event_id === id) (map (row_to_event db) (keep (of_session k) rs))
        ≡ any (is_cursor k id) rs
  unfolding any keep row_to_event
  any-map k id [] = refl
  any-map k id (r ∷ rs) = ground (arith, any-map k id rs)

  get_events-same :
      (k caller buyer : String) (after_id : Option String) (s : SqliteEventStore T)
      (logs : Dict (List NegotiationEvent)) (ids : List String)
      → IsTable db s logs ids
      → EventStore.get_events k caller buyer after_id (in_memory db logs ids s)
        ≡ SqliteEventStore.get_events db k caller buyer after_id s
  unfolding EventStore.get_events SqliteEventStore.get_events
  get_events-same k caller buyer after_id s logs ids h =
      rw (h.log k, read_rows-from_cursor db k after_id s h.rising) refl

  -- What the stores do at a call, from states that stand for each other.
  pub record Agrees (c : Call) (s : SqliteEventStore T) (logs : Dict (List NegotiationEvent))
      (ids : List String) : Type 0 where
    pub logs' : Dict (List NegotiationEvent)
    pub ids' : List String
    pub same :
        call_memory c (in_memory db logs ids s)
        ≡ ((call_sqlite db c s).0, in_memory db logs' ids' (call_sqlite db c s).1)
    pub table : IsTable db (call_sqlite db c s).1 logs' ids'

  -- The table with one row more, and the session tracked.
  abbrev inserted : String → NegotiationEvent → SqliteEventStore T → SqliteEventStore T
  inserted k e s = SqliteEventStore.track_session db k (record s {
    rows = s.rows ++ SqliteEventStore.row_of db s.next_row k e ∷ [];
    next_row = suc s.next_row;
  })

  append_stores :
      (k : String) (e : NegotiationEvent) (s : SqliteEventStore T)
      → (k === e.rfq_id) ≡ true
      → any (λ r. r.event_id === e.event_id) s.rows ≡ false
      → SqliteEventStore.append db k e s
        ≡ ok (
            SqliteEventStore.notify_terminal k e
              (SqliteEventStore.notify_subscribers k e (inserted k e s)))
  unfolding SqliteEventStore.append SqliteEventStore.stmt_insert
  append_stores k e s own fresh =
      rw (own, fresh, room s.next_row, frozen_event-same db json k e ((===_iff k e.rfq_id).0 own))
        refl

  memory_stores :
      (k : String) (e : NegotiationEvent) (st : EventStore)
      → (k === e.rfq_id) ≡ true
      → any (λ id. id === e.event_id) st.seen_event_ids ≡ false
      → EventStore.append k e st
        ≡ ok (
            EventStore.notify_terminal k e
              (EventStore.notify_subscribers k e (EventStore.store_event k e st)))
  unfolding EventStore.append
  memory_stores k e st own fresh = rw (own, fresh) refl

  append-Agrees :
      (k : String) (e : NegotiationEvent) (s : SqliteEventStore T)
      (logs : Dict (List NegotiationEvent)) (ids : List String)
      → IsTable db s logs ids
      → Agrees (appends k e) s logs ids
  unfolding call_memory call_sqlite EventStore.append SqliteEventStore.append
      SqliteEventStore.stmt_insert SqliteEventStore.track_session EventStore.store_event
  append-Agrees k e s logs ids h = elim (Bool-cases (k === e.rfq_id)) [
    | inr other ↦ record {
      logs' = logs;
      ids' = ids;
      same = rw other refl;
      table = rw (call_sqlite, SqliteEventStore.append, other) h;
    }
    | inl own ↦ elim (Bool-cases (any (λ r. r.event_id === e.event_id) s.rows)) [
      | inl twice ↦ record {
        logs' = logs;
        ids' = ids;
        same = rw (own, h.seen e.event_id, twice) refl;
        table = rw (call_sqlite, SqliteEventStore.append, own, twice) h;
      }
      | inr fresh ↦
          let logs' = insert k (or_empty (lookup k logs) ++ e ∷ []) logs in
          let ids' = e.event_id ∷ ids in
          record {
            logs' = logs';
            ids' = ids';
            same =
                rw
                  (
                    memory_stores k e (in_memory db logs ids s) own (h.seen e.event_id ∙ fresh),
                    append_stores k e s own fresh,
                  )
                  (ap (λ st. (SqliteEventStore.Calls.done, st))
                    (ap (EventStore.notify_terminal k e)
                        (notify_subscribers-memory db logs' ids' k e (inserted k e s))
                      ∙ notify_terminal-memory db logs' ids' k e _));
            table =
                rw (call_sqlite, append_stores k e s own fresh)
                  (notify_terminal-IsTable db logs' ids' k e _ (
                    notify_subscribers-IsTable db logs' ids' k e (inserted k e s) (
                      stored-Represents db json s.rows s.next_row s.active_session_ids logs ids k e
                        ((===_iff k e.rfq_id).0 own) h)));
          }
    ]
  ]

  pub call-Agrees :
      (c : Call) (s : SqliteEventStore T) (logs : Dict (List NegotiationEvent)) (ids : List String)
      → IsTable db s logs ids
      → Agrees c s logs ids
  unfolding call_memory call_sqlite EventStore.get_all_events SqliteEventStore.get_all_events
      SqliteEventStore.stmt_get_all EventStore.size SqliteEventStore.size EventStore.has_cursor
      SqliteEventStore.has_cursor EventStore.list_session_ids SqliteEventStore.list_session_ids
      EventStore.unsubscribe SqliteEventStore.unsubscribe EventStore.subscribe_from
      SqliteEventStore.subscribe_from EventStore.activate SqliteEventStore.activate
      EventStore.unsubscribe_terminal SqliteEventStore.unsubscribe_terminal
  call-Agrees (appends k e) s logs ids h = append-Agrees k e s logs ids h
  call-Agrees (reads k caller buyer after_id) s logs ids h = record {
    logs' = logs;
    ids' = ids;
    same = rw (get_events-same k caller buyer after_id s logs ids h) refl;
    table = h;
  }
  call-Agrees (reads_all k) s logs ids h = record {
    logs' = logs;
    ids' = ids;
    same = rw (h.log k) refl;
    table = h;
  }
  call-Agrees (counts k) s logs ids h = record {
    logs' = logs;
    ids' = ids;
    same =
        rw
          (
            h.log k,
            length-map (row_to_event db) (keep (of_session k) s.rows),
            count-keep (of_session k) s.rows,
          )
          refl;
    table = h;
  }
  call-Agrees (looks_for k id) s logs ids h = record {
    logs' = logs;
    ids' = ids;
    same = rw (h.log k, any-map k id s.rows) refl;
    table = h;
  }
  call-Agrees lists s logs ids h = record {
    logs' = logs;
    ids' = ids;
    same = rw h.listed refl;
    table = h;
  }
  call-Agrees (subscribes k caller buyer) s logs ids h = record {
    logs' = logs;
    ids' = ids;
    same = rw (subscribe-memory db logs ids k caller buyer live s) refl;
    table = subscribe-IsTable db logs ids k caller buyer live s h;
  }
  call-Agrees (unsubscribes k (r, id)) s logs ids h = record {
    logs' = logs;
    ids' = ids;
    same = refl;
    table = h;
  }
  call-Agrees (subscribes_from k caller buyer after_id) s logs ids h = record {
    logs' = logs;
    ids' = ids;
    same =
        rw
          (
            subscribe-memory db logs ids k caller buyer buffering s,
            get_events-same k caller buyer after_id
                (SqliteEventStore.subscribe k caller buyer buffering s).1 logs ids
                (subscribe-IsTable db logs ids k caller buyer buffering s h),
          )
          refl;
    table = subscribe-IsTable db logs ids k caller buyer buffering s h;
  }
  call-Agrees (activates sub) s logs ids h = record {
    logs' = logs;
    ids' = ids;
    same = refl;
    table = h;
  }
  call-Agrees (subscribes_terminal k l) s logs ids h = record {
    logs' = logs;
    ids' = ids;
    same = rw (subscribe_terminal-memory db logs ids k l s) refl;
    table = subscribe_terminal-IsTable db logs ids k l s h;
  }
  call-Agrees (unsubscribes_terminal k r l) s logs ids h = record {
    logs' = logs;
    ids' = ids;
    same = refl;
    table = h;
  }
