-- ===== src/Engine/SqliteEventStore/Cursor.antt =====
-- packages/engine/src/state/sqlite-event-store.ts: what the query with a cursor reads.
use ghost_bazaar.Prelude.{
  ℕ, String, ◌===◌, ltb, false, Bool-cases, Option-cases, List, [], ◌∷◌, ◌++◌, map, Option, none,
  some, any, keep, find, any_of_find, if_holds, All, All-append, All-map, ◌≡◌, refl, sym, ap, ◌∙◌,
  ◌<◌, inl, inr, arith,
}
use ghost_bazaar.Engine.EventStore.{after_cursor, from_cursor}
use ghost_bazaar.Engine.SqliteEventStore.{
  Backend, EventRow, SqliteEventStore, of_session, is_cursor, is_later, stmt_get_all,
  stmt_get_after_cursor, row_to_event, has_cursor, read_rows,
}

module _ {T : Type 0} where
  -- The ids of the rows rise.
  abbrev pub IsRising : List (EventRow T) → Type 0
  IsRising [] = Unit
  IsRising (r ∷ rs) = All (λ c. r.id < c.id) rs × IsRising rs

  pub append-IsRising :
      (rs : List (EventRow T)) (c : EventRow T)
      → IsRising rs
      → All (λ r. r.id < c.id) rs
      → IsRising (rs ++ c ∷ [])
  append-IsRising [] c h l = (tt, tt)
  append-IsRising (r ∷ rs) c (hr, h) (lr, l) =
      (All-append _ rs (c ∷ []) hr (lr, tt), append-IsRising rs c h l)

  -- The rows behind the cursor, where all rows are later.
  behind_cursor :
      (k : String) (c : EventRow T) (rs : List (EventRow T))
      → All (λ r. c.id < r.id) rs
      → keep (is_later k c) rs ≡ keep (of_session k) rs
  unfolding keep
  behind_cursor k c [] h = refl
  behind_cursor k c (r ∷ rs) (lr, h) = ground (arith, lr, behind_cursor k c rs h)

  found-later :
      (k id : String) (c : EventRow T) (n : ℕ) (rs : List (EventRow T))
      → All (λ r. n < r.id) rs
      → find (is_cursor k id) rs ≡ some c
      → n < c.id
  unfolding find
  found-later k id c n [] h e = absurd (cc)
  found-later k id c n (r ∷ rs) (lr, h) e = elim (Bool-cases (is_cursor k id r)) [
    | inl y ↦ ground (arith, lr, rw y at e)
    | inr y ↦ found-later k id c n rs h (rw y at e)
  ]

  -- The cursor's row is not behind itself, nor is a row before it.
  not_later : (c r : EventRow T) → some r ≡ some c → ltb c.id r.id ≡ false
  not_later c r e = ground (arith, e)

  from_found :
      (c r : EventRow T) (rs : List (EventRow T))
      → some r ≡ some c
      → All (λ x. r.id < x.id) rs
      → All (λ x. c.id < x.id) rs
  from_found c r rs e = All-map _ _ rs (λ x l. ground (arith, e, l))

  earlier :
      (k id : String) (c r : EventRow T) (rs : List (EventRow T))
      → All (λ x. r.id < x.id) rs
      → find (is_cursor k id) rs ≡ some c
      → ltb c.id r.id ≡ false
  earlier k id c r rs lr e = ground (arith, found-later k id c r.id rs lr e)

module _ {T : Type 0} (db : Backend T) where
  after-found :
      (k id : String) (c : EventRow T) (rs : List (EventRow T))
      → IsRising rs
      → find (is_cursor k id) rs ≡ some c
      → map (row_to_event db) (keep (is_later k c) rs)
        ≡ after_cursor id (map (row_to_event db) (keep (of_session k) rs))
  unfolding find keep after_cursor row_to_event
  after-found k id c [] h e = absurd (cc)
  after-found k id c (r ∷ rs) (lr, h) e = elim (Bool-cases (of_session k r)) [
    | inl here ↦ elim (Bool-cases (r.event_id === id)) [
      | inl same ↦
          rw (here, same)
            (rw (not_later c r (rw (here, same) at e)) (
              ap (map (row_to_event db))
                (behind_cursor k c rs (from_found c r rs (rw (here, same) at e) lr))))
      | inr other ↦
          rw (here, other)
            (rw (earlier k id c r rs lr (rw (here, other) at e))
              (after-found k id c rs h (rw (here, other) at e)))
    ]
    | inr off ↦ rw off (after-found k id c rs h (rw off at e))
  ]

  after-missing :
      (k id : String) (rs : List (EventRow T))
      → find (is_cursor k id) rs ≡ none
      → after_cursor id (map (row_to_event db) (keep (of_session k) rs)) ≡ []
  unfolding find keep after_cursor row_to_event
  after-missing k id [] e = refl
  after-missing k id (r ∷ rs) e = elim (Bool-cases (of_session k r)) [
    | inl here ↦ elim (Bool-cases (r.event_id === id)) [
      | inl same ↦ absurd (ground (arith, here, same, e))
      | inr other ↦ rw (here, other) (after-missing k id rs (rw (here, other) at e))
    ]
    | inr off ↦ rw off (after-missing k id rs (rw off at e))
  ]

  nothing_behind :
      (k id : String) (rs : List (EventRow T))
      → find (is_cursor k id) rs ≡ none
      → stmt_get_after_cursor k id rs ≡ []
  unfolding stmt_get_after_cursor
  nothing_behind k id rs e = rw (stmt_get_after_cursor, e) refl

  found_behind :
      (k id : String) (c : EventRow T) (rs : List (EventRow T))
      → find (is_cursor k id) rs ≡ some c
      → stmt_get_after_cursor k id rs ≡ keep (is_later k c) rs
  unfolding stmt_get_after_cursor
  found_behind k id c rs e = rw (stmt_get_after_cursor, e) refl

  -- What `getEvents` reads is the session's log from the cursor on.
  pub read_rows-from_cursor :
      (k : String) (after_id : Option String) (s : SqliteEventStore T)
      → IsRising s.rows
      → map (row_to_event db) (read_rows db k after_id s)
        ≡ from_cursor after_id (map (row_to_event db) (keep (of_session k) s.rows))
  unfolding read_rows stmt_get_all has_cursor from_cursor
  read_rows-from_cursor k none s h = refl
  read_rows-from_cursor k (some id) s h = elim (Option-cases (find (is_cursor k id) s.rows)) [
    | inr (c, e) ↦
        rw (any_of_find (is_cursor k id) s.rows e, found_behind k id c s.rows e)
          (after-found k id c s.rows h e)
    | inl e ↦
        if_holds
          (λ rows.
            map (row_to_event db) rows
            ≡ after_cursor id (map (row_to_event db) (keep (of_session k) s.rows)))
          (any (is_cursor k id) s.rows)
          (λ _.
            ap (map (row_to_event db)) (nothing_behind k id s.rows e)
            ∙ sym (after-missing k id s.rows e))
          (λ _. sym (after-missing k id s.rows e))
  ]
