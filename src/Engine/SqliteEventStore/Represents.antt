-- ===== src/Engine/SqliteEventStore/Represents.antt =====
-- packages/engine/src/state/sqlite-event-store.ts: the table and the store in memory that it stands for.
use ghost_bazaar.Prelude.{
  ℕ, suc, String, ◌===◌, ===_iff, Bool-cases, List, [], ◌∷◌, ◌++◌, map, map-append, any, any-append,
  keep, keep-append, All, All-append, All-map, ◌≡◌, refl, sym, ap, ◌∙◌, ◌<◌, inl, inr, arith,
  append-nil,
}
use ghost_bazaar.Prelude.Dict.{Dict, lookup, insert, lookup-insert, keys}
use ghost_bazaar.Prelude.Json.{Payload}
use ghost_bazaar.Engine.Types.{NegotiationEvent}
use ghost_bazaar.Engine.EventStore.{EventStore, or_empty}
use ghost_bazaar.Engine.SqliteEventStore.{
  Backend, EventRow, SqliteEventStore, add_id, of_session, row_to_event, row_of, frozen_event,
}
use ghost_bazaar.Engine.SqliteEventStore.Cursor.{IsRising, append-IsRising}

module _ {T : Type 0} (db : Backend T) where
  -- The store in memory with these logs and ids, and the subscribers of the durable store.
  abbrev pub in_memory :
      Dict (List NegotiationEvent) → List String → SqliteEventStore T → EventStore
  in_memory logs ids s = record {
    events = logs;
    seen_event_ids = ids;
    subscribers = s.subscribers;
    sets = s.sets;
    next_set = s.next_set;
    next_id = s.next_id;
    terminal_subscribers = s.terminal_subscribers;
    terminal_sets = s.terminal_sets;
    next_terminal_set = s.next_terminal_set;
    terminal_calls = s.terminal_calls;
  }

  -- The rows are those logs and those ids.
  pub record Represents (rows : List (EventRow T)) (next : ℕ) (active : List String)
      (logs : Dict (List NegotiationEvent)) (ids : List String) : Type 0 where
    pub log :
        (k : String) → or_empty (lookup k logs) ≡ map (row_to_event db) (keep (of_session k) rows)
    pub seen : (id : String) → any (λ j. j === id) ids ≡ any (λ r. r.event_id === id) rows
    pub listed : keys logs ≡ active
    pub rising : IsRising rows
    pub below : All (λ r. r.id < next) rows

  keys-insert :
      (k : String) (v : List NegotiationEvent) (m : Dict (List NegotiationEvent))
      → keys (insert k v m) ≡ add_id k (keys m)
  unfolding keys insert add_id
  keys-insert k v [] = refl
  keys-insert k v ((j, w) ∷ m) = elim (Bool-cases (j === k)) [
    | inl e ↦ rw (e, (===_iff j k).0 e) refl
    | inr e ↦ rw (e, keys-insert k v m) refl
  ]

  row_of-row_to_event :
      (json : (p : Payload) → db.parse (db.stringify p) ≡ p) (n : ℕ) (k : String)
      (e : NegotiationEvent)
      → k ≡ e.rfq_id
      → row_to_event db (row_of db n k e) ≡ e
  unfolding row_to_event row_of
  row_of-row_to_event json n k e same = rw (same, json e.payload) refl

  pub frozen_event-same :
      (json : (p : Payload) → db.parse (db.stringify p) ≡ p) (k : String) (e : NegotiationEvent)
      → k ≡ e.rfq_id
      → frozen_event db k e ≡ e
  unfolding frozen_event
  frozen_event-same json k e same = rw (same, json e.payload) refl

  pub stored-Represents :
      (json : (p : Payload) → db.parse (db.stringify p) ≡ p) (rows : List (EventRow T)) (next : ℕ)
      (active : List String) (logs : Dict (List NegotiationEvent)) (ids : List String) (k : String)
      (e : NegotiationEvent)
      → k ≡ e.rfq_id
      → Represents rows next active logs ids
      → Represents
          (rows ++ row_of db next k e ∷ [])
          (suc next)
          (add_id k active)
          (insert k (or_empty (lookup k logs) ++ e ∷ []) logs)
          (e.event_id ∷ ids)
  unfolding row_of any keep
  stored-Represents json rows next active logs ids k e same h = record {
    log = λ j.
        rw
          (
            lookup-insert k j (or_empty (lookup k logs) ++ e ∷ []) logs,
            keep-append (of_session j) rows (row_of db next k e ∷ []),
            map-append (row_to_event db) (keep (of_session j) rows),
          )
          (elim (Bool-cases (k === j)) [
            | inr y ↦ rw y (h.log j ∙ sym (append-nil _))
            | inl y ↦
                rw y (rw (row_of-row_to_event json next k e same, h.log k, (===_iff k j).0 y) refl)
          ]);
    seen = λ id. rw (any-append (λ r. r.event_id === id) rows, h.seen id) (ground arith);
    listed = keys-insert k _ logs ∙ ap (add_id k) h.listed;
    rising = append-IsRising rows _ h.rising h.below;
    below =
        All-append _ rows _ (All-map _ _ rows (λ r l. omega (arith, l)) h.below) (omega arith, tt);
  }
