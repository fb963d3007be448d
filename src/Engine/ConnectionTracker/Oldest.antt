-- ===== src/Engine/ConnectionTracker/Oldest.antt =====
-- packages/engine/src/util/connection-tracker.ts: whom `findOldestNonBuyer` finds.
use ghost_bazaar.Prelude.{
  String, true, false, Option-cases, List, [], ◌∷◌, map, find, keep, All, All-map, All-both,
  All-keep, ◌∙◌, Option, none, some, ◌≡◌, refl, sym, subst, ◌≤◌, ◌⊎◌, inl, inr, arith,
}
use ghost_bazaar.Engine.ConnectionTracker.{
  ConnectionRecord, ConnectionTracker, has_id, get_record, older, oldest_of, find_oldest_non_buyer,
}
use ghost_bazaar.Engine.ConnectionTracker.Linked.{in_session, cid, IsLinked, IsKeyed}

-- The loop over records, not over their ids.
oldest_in : List ConnectionRecord → Option ConnectionRecord → Option ConnectionRecord
unfolding older
oldest_in [] o = o
oldest_in (c ∷ cs) o = oldest_in cs (older (some c) o)

abbrev IsStranger : ConnectionRecord → Type 0
IsStranger c = c.is_buyer ≡ false

-- One round takes the record or keeps the one it has.
older-cases :
    (c : ConnectionRecord) (o : Option ConnectionRecord) (b : ConnectionRecord)
    → older (some c) o ≡ some b
    → ((c ≡ b) × IsStranger c) ⊎ (o ≡ some b)
unfolding older
older-cases c none b e = ground arith
older-cases c (some a) b e = ground arith

older_le_new :
    (c : ConnectionRecord) (o : Option ConnectionRecord) (b : ConnectionRecord)
    → older (some c) o ≡ some b
    → IsStranger c
    → b.opened_at ≤ c.opened_at
unfolding older
older_le_new c none b e s = ground arith
older_le_new c (some a) b e s = ground arith

older_le_old :
    (c a b : ConnectionRecord) → older (some c) (some a) ≡ some b → b.opened_at ≤ a.opened_at
unfolding older
older_le_old c a b e = ground arith

older-none :
    (c : ConnectionRecord) (o : Option ConnectionRecord)
    → older (some c) o ≡ none
    → (o ≡ none) × (c.is_buyer ≡ true)
unfolding older
older-none c none e = ground arith
older-none c (some a) e = ground arith

oldest_in-fits :
    (P : ConnectionRecord → Type 0) (ys : List ConnectionRecord) (o : Option ConnectionRecord)
    → All P ys
    → ((b : ConnectionRecord) → o ≡ some b → P b × IsStranger b)
    → (r : ConnectionRecord) → oldest_in ys o ≡ some r
    → P r × IsStranger r
unfolding oldest_in
oldest_in-fits P [] o h f r e = f r e
oldest_in-fits P (c ∷ cs) o (hc, h) f r e =
    oldest_in-fits P cs (older (some c) o) h
      (λ b eb. elim (older-cases c o b eb) [
        | inl (same, s) ↦ subst (λ x. P x × IsStranger x) same (hc, s)
        | inr eo ↦ f b eo
      ])
      r e

oldest_in_le_start :
    (ys : List ConnectionRecord) (a r : ConnectionRecord)
    → oldest_in ys (some a) ≡ some r
    → r.opened_at ≤ a.opened_at
unfolding oldest_in
oldest_in_le_start [] a r e = ground arith
oldest_in_le_start (c ∷ cs) a r e = elim (Option-cases (older (some c) (some a))) [
  | inl en ↦ absurd (ground (arith, older-none c (some a) en))
  | inr (b, eb) ↦ omega (arith, older_le_old c a b eb, oldest_in_le_start cs b r (rw eb at e))
]

oldest_in_le_each :
    (ys : List ConnectionRecord) (o : Option ConnectionRecord) (r : ConnectionRecord)
    → oldest_in ys o ≡ some r
    → All (λ c. IsStranger c → r.opened_at ≤ c.opened_at) ys
unfolding oldest_in
oldest_in_le_each [] o r e = tt
oldest_in_le_each (c ∷ cs) o r e = (
  λ s. elim (Option-cases (older (some c) o)) [
    | inl en ↦ absurd (ground (arith, older-none c o en, s))
    | inr (b, eb) ↦ omega (arith, older_le_new c o b eb s, oldest_in_le_start cs b r (rw eb at e))
  ],
  oldest_in_le_each cs (older (some c) o) r e,
)

oldest_in-none :
    (ys : List ConnectionRecord) (o : Option ConnectionRecord)
    → oldest_in ys o ≡ none
    → (o ≡ none) × All (λ c. c.is_buyer ≡ true) ys
unfolding oldest_in
oldest_in-none [] o e = (e, tt)
oldest_in-none (c ∷ cs) o e =
    let (eo, h) = oldest_in-none cs (older (some c) o) e in
    let (en, b) = older-none c o eo in (en, (b, h))

-- The loop over the ids of records that are found is the loop over the records.
oldest_of-map :
    (t : ConnectionTracker) (ys : List ConnectionRecord) (o : Option ConnectionRecord)
    → IsKeyed t.connections t.next_id ys
    → oldest_of t (map cid ys) o ≡ oldest_in ys o
unfolding oldest_of oldest_in get_record
oldest_of-map t [] o h = refl
oldest_of-map t (c ∷ cs) o ((le, own), h) =
    rw (oldest_of, own) (oldest_of-map t cs (older (some c) o) h)

find_oldest-oldest_in :
    (k : String) (t : ConnectionTracker)
    → IsLinked t
    → find_oldest_non_buyer k t ≡ oldest_in (keep (in_session k) t.connections) none
unfolding find_oldest_non_buyer IsLinked
find_oldest-oldest_in k t (keyed, linked) =
    rw (linked k)
      (oldest_of-map t (keep (in_session k) t.connections) none (All-keep _ (in_session k) _ keyed))

-- The record found is in the tracker, in the session, no buyer's, and the oldest such.
unfoldable pub IsOldest : String → ConnectionTracker → ConnectionRecord → Type 0
IsOldest k t r =
    (get_record r.connection_id t ≡ some r)
    × (in_session k r ≡ true)
    × (r.is_buyer ≡ false)
    × All (λ c. c.is_buyer ≡ false → r.opened_at ≤ c.opened_at) (keep (in_session k) t.connections)

pub found-IsOldest :
    (k : String) (t : ConnectionTracker) (r : ConnectionRecord)
    → IsLinked t
    → find_oldest_non_buyer k t ≡ some r
    → IsOldest k t r
unfolding IsOldest IsLinked get_record
found-IsOldest k t r h e =
    let e' = sym (find_oldest-oldest_in k t h) ∙ e in
    let ((own, here), stranger) =
      oldest_in-fits
        (λ c. (find (has_id c.connection_id) t.connections ≡ some c) × (in_session k c ≡ true))
        (keep (in_session k) t.connections) none
        (All-map _ _ _ (λ c ((le, own), here). (own, here)) (All-both _ (in_session k) _ h.0))
        (λ b eb. absurd (cc)) r e' in
    (own, here, stranger, oldest_in_le_each (keep (in_session k) t.connections) none r e')

pub not_found-buyers :
    (k : String) (t : ConnectionTracker)
    → IsLinked t
    → find_oldest_non_buyer k t ≡ none
    → All (λ c. c.is_buyer ≡ true) (keep (in_session k) t.connections)
not_found-buyers k t h e = (oldest_in-none _ none (sym (find_oldest-oldest_in k t h) ∙ e)).1
