-- ===== src/Engine/ConnectionTracker.antt =====
-- packages/engine/src/util/connection-tracker.ts: the event streams that are open, per session and per
-- caller. The id `conn-<n>` is the number n. The callbacks `close` are recorded in `closed` by the id
-- of their connection.
pub mod Linked
pub mod Oldest
pub mod Limits
pub mod Reserved
use ghost_bazaar.Prelude.{
  ℕ, suc, String, ◌===◌, ◌==◌, leb, ltb, Bool, true, false, not, ◌&&◌, List, [], ◌∷◌, ◌++◌, map,
  any, find, keep, count, length, Option, none, some, if◌then◌else◌,
}
use ghost_bazaar.Prelude.Dict.{Dict, lookup, insert, remove}
use ghost_bazaar.Engine.EventStore.{is_empty}

pub record ConnectionRecord : Type 0 where
  pub connection_id : ℕ
  pub rfq_id : String
  pub caller_did : String
  pub is_buyer : Bool
  pub opened_at : ℕ

-- The map of records by their ids is the list of its values, in the order of insertion.
pub record ConnectionTracker : Type 0 where
  pub connections : List ConnectionRecord
  pub by_session : Dict (List ℕ)
  pub next_id : ℕ
  pub closed : List ℕ

pub record Request : Type 0 where
  pub rfq_id : String
  pub caller_did : String
  pub is_buyer : Bool

abbrev pub max_per_did : ℕ
max_per_did = 3

abbrev pub max_per_session : ℕ
max_per_session = 10

unfoldable pub empty_tracker : ConnectionTracker
empty_tracker = record { connections = []; by_session = []; next_id = 0; closed = [] }

abbrev pub has_id : ℕ → ConnectionRecord → Bool
has_id id r = r.connection_id == id

-- `this.connections.get(id)`
unfoldable pub get_record : ℕ → ConnectionTracker → Option ConnectionRecord
get_record id t = find (has_id id) t.connections

abbrev pub ids_in : Option (List ℕ) → List ℕ
ids_in none = []
ids_in (some ids) = ids

abbrev pub passes_record : (ConnectionRecord → Bool) → Option ConnectionRecord → Bool
passes_record p none = false
passes_record p (some r) = p r

unfoldable pub count_for_did : String → String → ConnectionTracker → ℕ
unfolding get_record
count_for_did rfq_id caller t =
    count (λ id. passes_record (λ r. r.caller_did === caller) (get_record id t))
      (ids_in (lookup rfq_id t.by_session))

unfoldable pub count_for_session : String → ConnectionTracker → ℕ
count_for_session rfq_id t = length (ids_in (lookup rfq_id t.by_session))

-- One round of the loop in `findOldestNonBuyer`.
unfoldable pub older : Option ConnectionRecord → Option ConnectionRecord → Option ConnectionRecord
older none oldest = oldest
older (some r) none = if not r.is_buyer then some r else none
older (some r) (some o) = if not r.is_buyer && ltb r.opened_at o.opened_at then some r else some o

unfoldable pub oldest_of :
    ConnectionTracker → List ℕ → Option ConnectionRecord → Option ConnectionRecord
unfolding older get_record
oldest_of t [] oldest = oldest
oldest_of t (id ∷ ids) oldest = oldest_of t ids (older (get_record id t) oldest)

unfoldable pub find_oldest_non_buyer : String → ConnectionTracker → Option ConnectionRecord
unfolding oldest_of
find_oldest_non_buyer rfq_id t = oldest_of t (ids_in (lookup rfq_id t.by_session)) none

-- A set of ids, with the entry dropped if the set is empty.
abbrev pub put_ids : String → List ℕ → Dict (List ℕ) → Dict (List ℕ)
put_ids k ids m = if is_empty ids then remove k m else insert k ids m

-- `sessionSet.delete(id)`, if the session has a set.
abbrev pub drop_id : String → ℕ → Option (List ℕ) → Dict (List ℕ) → Dict (List ℕ)
drop_id k id none m = m
drop_id k id (some ids) m = put_ids k (keep (λ i. not (i == id)) ids) m

-- `removeRecord` with what `connections.get` finds.
abbrev pub removed : ℕ → Option ConnectionRecord → ConnectionTracker → ConnectionTracker
removed id none t = t
removed id (some r) t = record t {
  connections = keep (λ c. not (has_id id c)) t.connections;
  by_session = drop_id r.rfq_id id (lookup r.rfq_id t.by_session) t.by_session;
}

unfoldable pub remove_record : ℕ → ConnectionTracker → ConnectionTracker
unfolding get_record
remove_record id t = removed id (get_record id t) t

unfoldable pub release : ℕ → ConnectionTracker → ConnectionTracker
unfolding remove_record
release id t = remove_record id t

-- `close()` and `removeRecord`
unfoldable pub close_record : ℕ → ConnectionTracker → ConnectionTracker
unfolding remove_record
close_record id t = remove_record id (record t { closed = t.closed ++ id ∷ [] })

-- The record of a new connection; its id is new, so that the map grows by it.
unfoldable pub add_record : Request → ℕ → ConnectionTracker → ℕ × ConnectionTracker
add_record q now t =
    let id = suc t.next_id in
    (
      id,
      record {
        connections =
            t.connections
            ++ (record {
              connection_id = id;
              rfq_id = q.rfq_id;
              caller_did = q.caller_did;
              is_buyer = q.is_buyer;
              opened_at = now;
            })
              ∷ [];
        by_session =
            insert q.rfq_id (ids_in (lookup q.rfq_id t.by_session) ++ id ∷ []) t.by_session;
        next_id = id;
        closed = t.closed;
      },
    )

abbrev pub granted : ℕ × ConnectionTracker → Option ℕ × ConnectionTracker
granted (id, t) = (some id, t)

-- A full session: the buyer takes the place of the oldest connection that is not a buyer's.
abbrev pub evicting :
    Option ConnectionRecord → Request → ℕ → ConnectionTracker → Option ℕ × ConnectionTracker
evicting none q now t = (none, t)
evicting (some r) q now t = granted (add_record q now (close_record r.connection_id t))

-- `none` is `null`: the caller is refused.
unfoldable pub acquire : Request → ℕ → ConnectionTracker → Option ℕ × ConnectionTracker
unfolding add_record find_oldest_non_buyer close_record count_for_did count_for_session
acquire q now t =
    if leb max_per_did (count_for_did q.rfq_id q.caller_did t)
    then (none, t)
    else if ltb (count_for_session q.rfq_id t) max_per_session
    then granted (add_record q now t)
    else if not q.is_buyer
    then (none, t)
    else evicting (find_oldest_non_buyer q.rfq_id t) q now t

abbrev pub closed_if : ℕ → Option ConnectionRecord → ConnectionTracker → ConnectionTracker
closed_if id none t = t
closed_if id (some r) t = close_record id t

-- The loop of `closeAll` over the snapshot of the ids.
unfoldable pub close_each : List ℕ → ConnectionTracker → ConnectionTracker
unfolding close_record get_record
close_each [] t = t
close_each (id ∷ ids) t = close_each ids (closed_if id (get_record id t) t)

unfoldable pub close_all : String → ConnectionTracker → ConnectionTracker
unfolding close_each
close_all rfq_id t = close_each (ids_in (lookup rfq_id t.by_session)) t
