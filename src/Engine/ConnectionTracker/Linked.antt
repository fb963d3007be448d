-- ===== src/Engine/ConnectionTracker/Linked.antt =====
-- packages/engine/src/util/connection-tracker.ts: the index by session agrees with the records.
use ghost_bazaar.Prelude.{
  ℕ, suc, String, ◌===◌, ===_iff, ◌==◌, ==_refl, Bool, false, not, Bool-cases, Option-cases, List,
  [], ◌∷◌, ◌++◌, map, map-append, find, keep, keep-append, All, All-append, All-map, All-both,
  find-keep, keep-everything, keep_swap, find-append, find_last, append-nil, if◌then◌else◌, Option,
  none, some, ◌≡◌, refl, sym, ap, ◌∙◌, ◌≤◌, inl, inr, arith,
}
use ghost_bazaar.Prelude.Dict.{Dict, lookup, lookup-insert, lookup-remove}
use ghost_bazaar.Engine.ConnectionTracker.{
  ConnectionRecord, ConnectionTracker, Request, has_id, get_record, ids_in, put_ids, drop_id,
  removed, close_each, remove_record, close_record, add_record,
}

-- A record of the session.
abbrev pub in_session : String → ConnectionRecord → Bool
in_session k c = c.rfq_id === k

abbrev pub cid : ConnectionRecord → ℕ
cid c = c.connection_id

-- The ids are no newer than the last one given, and each finds its own record.
abbrev pub IsKeyed : List ConnectionRecord → ℕ → List ConnectionRecord → Type 0
IsKeyed all last = All λ c. (c.connection_id ≤ last) × (find (has_id c.connection_id) all ≡ some c)

-- A session's set of ids lists the session's records.
unfoldable pub IsLinked : ConnectionTracker → Type 0
IsLinked t =
    IsKeyed t.connections t.next_id t.connections
    × ((k : String) → ids_in (lookup k t.by_session) ≡ map cid (keep (in_session k) t.connections))

pub map-keep :
    (id : ℕ) (xs : List ConnectionRecord)
    → map cid (keep (λ c. not (has_id id c)) xs) ≡ keep (λ i. not (i == id)) (map cid xs)
unfolding keep
map-keep id [] = refl
map-keep id (x ∷ xs) = ground (arith, map-keep id xs)

-- The records without the one of the id.
abbrev pub others : ℕ → List ConnectionRecord → List ConnectionRecord
others id = keep (λ c. not (has_id id c))

pub others-IsKeyed :
    (id n : ℕ) (xs : List ConnectionRecord)
    → IsKeyed xs n xs
    → IsKeyed (others id xs) n (others id xs)
others-IsKeyed id n xs h =
    All-map _ _ (others id xs)
      (λ c ((le, at), e). (
        le,
        find-keep (has_id c.connection_id) (λ d. not (has_id id d)) xs at e (λ d ed. ground arith),
      ))
      (All-both _ (λ c. not (has_id id c)) xs h)

-- The record of an id lies in one session: a set of another session does not hold the id.
pub elsewhere :
    (id : ℕ) (k : String) (all xs : List ConnectionRecord) (n : ℕ) (r : ConnectionRecord)
    → IsKeyed all n xs
    → find (has_id id) all ≡ some r
    → (r.rfq_id === k) ≡ false
    → others id (keep (in_session k) xs) ≡ keep (in_session k) xs
elsewhere id k all xs n r h at off =
    keep-everything (λ c. not (has_id id c)) (keep (in_session k) xs)
      (All-map _ _ (keep (in_session k) xs)
        (λ c ((le, own), e). elim (Bool-cases (has_id id c)) [
          | inr out ↦ rw out refl
          | inl same ↦ ground (arith, at, own, off)
        ])
        (All-both _ (in_session k) xs h))

pub ids_in-put_ids :
    (k j : String) (ids : List ℕ) (m : Dict (List ℕ))
    → ids_in (lookup j (put_ids k ids m)) ≡ (if k === j then ids else ids_in (lookup j m))
ids_in-put_ids k j [] m = ground (arith, lookup-remove k j m)
ids_in-put_ids k j (id ∷ ids) m = ground (arith, lookup-insert k j (id ∷ ids) m)

pub ids_in-drop_id :
    (k j : String) (id : ℕ) (o : Option (List ℕ)) (m : Dict (List ℕ))
    → lookup k m ≡ o
    → ids_in (lookup j (drop_id k id o m))
      ≡ (if k === j then keep (λ i. not (i == id)) (ids_in o) else ids_in (lookup j m))
unfolding keep
ids_in-drop_id k j id none m e = ground (arith, e, ===_iff k j)
ids_in-drop_id k j id (some ids) m e = ids_in-put_ids k j (keep (λ i. not (i == id)) ids) m

-- A session's records after one record is removed.
pub session-others :
    (id : ℕ) (k : String) (r : ConnectionRecord) (t : ConnectionTracker)
    → IsLinked t
    → get_record id t ≡ some r
    → map cid (keep (in_session k) (others id t.connections)) ≡ (
        if r.rfq_id === k
        then keep (λ i. not (i == id)) (ids_in (lookup k t.by_session))
        else ids_in (lookup k t.by_session))
unfolding IsLinked get_record
session-others id k r t (keyed, linked) at =
    rw (keep_swap (in_session k) (λ c. not (has_id id c)) t.connections, linked k)
      (elim (Bool-cases (r.rfq_id === k)) [
        | inl here ↦ rw here (map-keep id (keep (in_session k) t.connections))
        | inr off ↦
            rw off
              (ap (map cid) (elsewhere id k t.connections t.connections t.next_id r keyed at off))
      ])

pub removed-IsLinked :
    (id : ℕ) (o : Option ConnectionRecord) (t : ConnectionTracker)
    → get_record id t ≡ o
    → IsLinked t
    → IsLinked (removed id o t)
unfolding IsLinked
removed-IsLinked id none t e h = h
removed-IsLinked id (some r) t e (keyed, linked) = (
  others-IsKeyed id t.next_id t.connections keyed,
  λ k.
      ids_in-drop_id r.rfq_id k id (lookup r.rfq_id t.by_session) t.by_session refl
      ∙ ground (arith, ===_iff r.rfq_id k)
      ∙ sym (session-others id k r t (keyed, linked) e),
)

pub remove_record-IsLinked :
    (id : ℕ) (t : ConnectionTracker) → IsLinked t → IsLinked (remove_record id t)
unfolding remove_record
remove_record-IsLinked id t h = removed-IsLinked id (get_record id t) t refl h

-- A record whose id is new.
pub added-IsKeyed :
    (n : ℕ) (c : ConnectionRecord) (all : List ConnectionRecord)
    → c.connection_id ≡ suc n
    → IsKeyed all n all
    → IsKeyed (all ++ c ∷ []) (suc n) (all ++ c ∷ [])
added-IsKeyed n c all e h =
    All-append _ all (c ∷ [])
      (All-map _ _ all
        (λ d (le, own). (omega (arith, le), find-append (has_id d.connection_id) all (c ∷ []) own))
        h)
      (
        (
          omega (arith, e),
          find_last (has_id c.connection_id) all c
              (All-map _ _ all (λ d (le, own). ground (arith, le, e)) h) (==_refl c.connection_id),
        ),
        tt,
      )

pub add_record-IsLinked :
    (q : Request) (now : ℕ) (t : ConnectionTracker) → IsLinked t → IsLinked (add_record q now t).1
unfolding IsLinked add_record keep
add_record-IsLinked q now t (keyed, linked) = (
  added-IsKeyed t.next_id _ t.connections refl keyed,
  λ k.
      rw
        (
          lookup-insert q.rfq_id k (ids_in (lookup q.rfq_id t.by_session) ++ suc t.next_id ∷ [])
              t.by_session,
          keep-append (in_session k) t.connections,
          map-append cid (keep (in_session k) t.connections),
        )
        (elim (Bool-cases (q.rfq_id === k)) [
          | inl e ↦ rw e (rw (sym (linked k)) (ground (arith, ===_iff q.rfq_id k)))
          | inr e ↦ rw e (linked k ∙ sym (append-nil _))
        ]),
)

pub close_record-IsLinked :
    (id : ℕ) (t : ConnectionTracker) → IsLinked t → IsLinked (close_record id t)
unfolding IsLinked close_record
close_record-IsLinked id t h =
    remove_record-IsLinked id (record t { closed = t.closed ++ id ∷ [] }) h

-- What each closing keeps, the loop of `closeAll` keeps.
pub close_each_keeps :
    (P : ConnectionTracker → Type 0)
    → ((id : ℕ) (t : ConnectionTracker) → P t → P (close_record id t))
    → (ids : List ℕ) (t : ConnectionTracker) → P t
    → P (close_each ids t)
unfolding close_each
close_each_keeps P f [] t h = h
close_each_keeps P f (id ∷ ids) t h = elim (Option-cases (get_record id t)) [
  | inl e ↦ rw (close_each, e) (close_each_keeps P f ids t h)
  | inr (r, e) ↦ rw (close_each, e) (close_each_keeps P f ids (close_record id t) (f id t h))
]
