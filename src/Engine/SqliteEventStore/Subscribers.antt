-- ===== src/Engine/SqliteEventStore/Subscribers.antt =====
-- packages/engine/src/state/sqlite-event-store.ts: its subscribers are those of event-store.ts.
use ghost_bazaar.Prelude.{ℕ, String, Bool-cases, Option-cases, List, ◌≡◌, refl, inl, inr}
use ghost_bazaar.Prelude.Dict.{Dict, lookup}
use ghost_bazaar.Engine.Types.{NegotiationEvent}
use ghost_bazaar.Engine.Visibility.{is_terminal_type}
use ghost_bazaar.Engine.EventStore
use ghost_bazaar.Engine.EventStore.{EventStore, Mode, live, or_empty, visible}
use ghost_bazaar.Engine.SqliteEventStore
use ghost_bazaar.Engine.SqliteEventStore.{
  Backend, EventRow, SqliteEventStore, of_session, is_cursor, row_to_event,
}
use ghost_bazaar.Engine.SqliteEventStore.Represents.{Represents, in_memory}

module _ {T : Type 0} (db : Backend T) where
  -- The table stands for the logs and the ids.
  abbrev pub IsTable : SqliteEventStore T → Dict (List NegotiationEvent) → List String → Type 0
  IsTable s = Represents db s.rows s.next_row s.active_session_ids

  module _ (logs : Dict (List NegotiationEvent)) (ids : List String) where
    abbrev pub memory : SqliteEventStore T → EventStore
    memory = in_memory db logs ids

    -- The calls of subscribers change the subscribers of both stores alike, and no row.
    pub notify_subscribers-memory :
        (k : String) (e : NegotiationEvent) (s : SqliteEventStore T)
        → EventStore.notify_subscribers k e (memory s)
          ≡ memory (SqliteEventStore.notify_subscribers k e s)
    unfolding EventStore.notify_subscribers SqliteEventStore.notify_subscribers
    notify_subscribers-memory k e s = elim (Option-cases (lookup k s.subscribers)) [
      | inl p ↦ rw (EventStore.notify_subscribers, SqliteEventStore.notify_subscribers, p) refl
      | inr (r, p) ↦ rw (EventStore.notify_subscribers, SqliteEventStore.notify_subscribers, p) refl
    ]

    pub notify_subscribers-IsTable :
        (k : String) (e : NegotiationEvent) (s : SqliteEventStore T)
        → IsTable s logs ids
        → IsTable (SqliteEventStore.notify_subscribers k e s) logs ids
    unfolding SqliteEventStore.notify_subscribers
    notify_subscribers-IsTable k e s h = elim (Option-cases (lookup k s.subscribers)) [
      | inl p ↦ rw (SqliteEventStore.notify_subscribers, p) h
      | inr (r, p) ↦ rw (SqliteEventStore.notify_subscribers, p) h
    ]

    pub notify_terminal-memory :
        (k : String) (e : NegotiationEvent) (s : SqliteEventStore T)
        → EventStore.notify_terminal k e (memory s)
          ≡ memory (SqliteEventStore.notify_terminal k e s)
    unfolding EventStore.notify_terminal SqliteEventStore.notify_terminal
    notify_terminal-memory k e s = elim (Option-cases (lookup k s.terminal_subscribers)) [
      | inl p ↦ rw (EventStore.notify_terminal, SqliteEventStore.notify_terminal, p) refl
      | inr (r, p) ↦ elim (Bool-cases (is_terminal_type e.type)) [
        | inl q ↦ rw (EventStore.notify_terminal, SqliteEventStore.notify_terminal, p, q) refl
        | inr q ↦ rw (EventStore.notify_terminal, SqliteEventStore.notify_terminal, p, q) refl
      ]
    ]

    pub notify_terminal-IsTable :
        (k : String) (e : NegotiationEvent) (s : SqliteEventStore T)
        → IsTable s logs ids
        → IsTable (SqliteEventStore.notify_terminal k e s) logs ids
    unfolding SqliteEventStore.notify_terminal
    notify_terminal-IsTable k e s h = elim (Option-cases (lookup k s.terminal_subscribers)) [
      | inl p ↦ rw (SqliteEventStore.notify_terminal, p) h
      | inr (r, p) ↦ elim (Bool-cases (is_terminal_type e.type)) [
        | inl q ↦ rw (SqliteEventStore.notify_terminal, p, q) h
        | inr q ↦ rw (SqliteEventStore.notify_terminal, p, q) h
      ]
    ]

    pub subscribe-memory :
        (k caller buyer : String) (mode : Mode) (s : SqliteEventStore T)
        → EventStore.subscribe k caller buyer mode (memory s) ≡ (
          (SqliteEventStore.subscribe k caller buyer mode s).0,
          memory (SqliteEventStore.subscribe k caller buyer mode s).1,
        )
    unfolding EventStore.subscribe SqliteEventStore.subscribe
    subscribe-memory k caller buyer mode s = elim (Option-cases (lookup k s.subscribers)) [
      | inl p ↦ rw (EventStore.subscribe, SqliteEventStore.subscribe, p) refl
      | inr (r, p) ↦ rw (EventStore.subscribe, SqliteEventStore.subscribe, p) refl
    ]

    pub subscribe-IsTable :
        (k caller buyer : String) (mode : Mode) (s : SqliteEventStore T)
        → IsTable s logs ids
        → IsTable (SqliteEventStore.subscribe k caller buyer mode s).1 logs ids
    unfolding SqliteEventStore.subscribe
    subscribe-IsTable k caller buyer mode s h = elim (Option-cases (lookup k s.subscribers)) [
      | inl p ↦ rw (SqliteEventStore.subscribe, p) h
      | inr (r, p) ↦ rw (SqliteEventStore.subscribe, p) h
    ]

    pub subscribe_terminal-memory :
        (k : String) (l : ℕ) (s : SqliteEventStore T)
        → EventStore.subscribe_terminal k l (memory s) ≡ (
          (SqliteEventStore.subscribe_terminal k l s).0,
          memory (SqliteEventStore.subscribe_terminal k l s).1,
        )
    unfolding EventStore.subscribe_terminal SqliteEventStore.subscribe_terminal
    subscribe_terminal-memory k l s = elim (Option-cases (lookup k s.terminal_subscribers)) [
      | inl p ↦ rw (EventStore.subscribe_terminal, SqliteEventStore.subscribe_terminal, p) refl
      | inr (r, p) ↦ rw (EventStore.subscribe_terminal, SqliteEventStore.subscribe_terminal, p) refl
    ]

    pub subscribe_terminal-IsTable :
        (k : String) (l : ℕ) (s : SqliteEventStore T)
        → IsTable s logs ids
        → IsTable (SqliteEventStore.subscribe_terminal k l s).1 logs ids
    unfolding SqliteEventStore.subscribe_terminal
    subscribe_terminal-IsTable k l s h = elim (Option-cases (lookup k s.terminal_subscribers)) [
      | inl p ↦ rw (SqliteEventStore.subscribe_terminal, p) h
      | inr (r, p) ↦ rw (SqliteEventStore.subscribe_terminal, p) h
    ]
