-- ===== src/Engine/EventStore/Linked.antt =====
-- The heap of subscriber sets: each session that has subscribers has a cell of its own, and the
-- subscribers in it have identities of their own.
use mathlib.Core.Option
use ghost_bazaar.Prelude.{
  ℕ, ◌<◌, ◌==◌, String, ◌===◌, ===_iff, ◌≡◌, ◌≢◌, refl, ap, ◌∙◌, true, List, [], ◌∷◌, map, Option,
  some, arith, find, find-map, ok, All, Option-cases, Bool-cases, inl, inr, if◌then◌else◌,
}
use ghost_bazaar.Prelude.Dict.{lookup}
use ghost_bazaar.Engine.Types.{NegotiationEvent}
use ghost_bazaar.Engine.EventStore.{
  EventStore, Subscriber, append, notify, notify_subscribers, notify_terminal, store_event, update,
  empty_store,
}
use ghost_bazaar.Engine.EventStore.Log.{append-eq_ok, notify_terminal-frame}

pub record IsLinked (st : EventStore) : Type 0 where
  pub allocated : (k : String) (r : ℕ) → lookup k st.subscribers ≡ some r → r < st.next_set
  pub own_cell :
      (j k : String) (r : ℕ)
      → lookup j st.subscribers ≡ some r
      → lookup k st.subscribers ≡ some r
      → j ≡ k
  pub own_id : (r : ℕ) → All (λ sub. sub.id < st.next_id) (st.sets r)

-- The subscriber that a handle names.
abbrev pub watch : ℕ × ℕ → EventStore → Option Subscriber
watch (r, id) st = find (λ sub. sub.id == id) (st.sets r)

notify_subscribers-sets :
    (k : String) (e : NegotiationEvent) (st : EventStore) (r : ℕ)
    → ((lookup k st.subscribers ≡ some r
          → (notify_subscribers k e st).sets r ≡ map (notify e) (st.sets r))
        × (lookup k st.subscribers ≢ some r → (notify_subscribers k e st).sets r ≡ st.sets r)
        × ((notify_subscribers k e st).subscribers ≡ st.subscribers)
        × ((notify_subscribers k e st).next_set ≡ st.next_set)
        × ((notify_subscribers k e st).next_id ≡ st.next_id))
unfolding notify_subscribers
notify_subscribers-sets k e st r = elim (Option-cases (lookup k st.subscribers)) [
  | inl p ↦ rw (p, notify_subscribers) ((λ h. absurd (cc)), (λ n. refl), refl, refl, refl)
  | inr (q, p) ↦ elim (Bool-cases (q == r)) [
    | inl same ↦
        rw (p, notify_subscribers)
          ((λ h. ground arith), (λ n. absurd (n (ap some (ground arith)))), refl, refl, refl)
    | inr other ↦
        rw (p, notify_subscribers) ((λ h. ground arith), (λ n. ground arith), refl, refl, refl)
  ]
]

notify_terminal-next :
    (k : String) (e : NegotiationEvent) (st : EventStore)
    → ((notify_terminal k e st).next_set ≡ st.next_set)
      × ((notify_terminal k e st).next_id ≡ st.next_id)
unfolding notify_terminal
notify_terminal-next k e st = ground arith

-- What an append does to the subscribers: those of its session are notified, no other is touched.
pub append-sets :
    (k : String) (e : NegotiationEvent) (st st' : EventStore)
    → append k e st ≡ ok st'
    → (r : ℕ)
    → (lookup k st.subscribers ≡ some r → st'.sets r ≡ map (notify e) (st.sets r))
      × (lookup k st.subscribers ≢ some r → st'.sets r ≡ st.sets r)
      × (st'.subscribers ≡ st.subscribers)
      × (st'.next_set ≡ st.next_set)
      × (st'.next_id ≡ st.next_id)
unfolding store_event
append-sets k e st st' h r =
    let (_, _, same) = append-eq_ok k e st st' h in
    let mid = notify_subscribers k e (store_event k e st) in
    let (hit, miss, subs, set, id) = notify_subscribers-sets k e (store_event k e st) r in
    let (_, _, sets, subs') = notify_terminal-frame k e mid in
    let (set', id') = notify_terminal-next k e mid in
    rw same (
      (λ p. ap (λ f. f r) sets ∙ hit p),
      (λ p. ap (λ f. f r) sets ∙ miss p),
      subs' ∙ subs,
      set' ∙ set,
      id' ∙ id,
    )

pub notify-id : (e : NegotiationEvent) (sub : Subscriber) → (notify e sub).id ≡ sub.id
unfolding notify
notify-id e sub = ground arith

notify-All :
    (e : NegotiationEvent) (n : ℕ) (subs : List Subscriber)
    → All (λ sub. sub.id < n) subs
    → All (λ sub. sub.id < n) (map (notify e) subs)
notify-All e n [] h = tt
notify-All e n (sub ∷ subs) (p, h) = (omega (arith, notify-id e sub), notify-All e n subs h)

pub append-IsLinked :
    (k : String) (e : NegotiationEvent) (st st' : EventStore)
    → append k e st ≡ ok st'
    → IsLinked st
    → IsLinked st'
append-IsLinked k e st st' h v =
    let (_, _, subs, set, id) = append-sets k e st st' h 0 in
    record {
      allocated = λ j r p. rw set (v.allocated j r (rw subs at p));
      own_cell = λ i j r p q. v.own_cell i j r (rw subs at p) (rw subs at q);
      own_id = λ r. elim (Option-cases (lookup k st.subscribers)) [
        | inl none_yet ↦ rw (id, (append-sets k e st st' h r).1 (λ p. cc)) (v.own_id r)
        | inr (q, found) ↦ elim (Bool-cases (q == r)) [
          | inl same ↦
              rw (id, (append-sets k e st st' h r).0 (found ∙ ap some (ground arith)))
                (notify-All e st.next_id (st.sets r) (v.own_id r))
          | inr other ↦ rw (id, (append-sets k e st st' h r).1 (λ p. ground arith)) (v.own_id r)
        ]
      ];
    }

-- A subscriber of the session is notified by an append to it, and by no other append.
pub watch-append :
    (k j : String) (r id : ℕ) (e : NegotiationEvent) (st st' : EventStore)
    → IsLinked st
    → append j e st ≡ ok st'
    → lookup k st.subscribers ≡ some r
    → watch (r, id) st'
      ≡ (if j === k then Option.map (notify e) (watch (r, id) st) else watch (r, id) st)
watch-append k j r id e st st' v h p = elim (Bool-cases (j === k)) [
  | inl same ↦
      let q : lookup j st.subscribers ≡ some r =
        ap (λ i. lookup i st.subscribers) ((===_iff j k).0 same) ∙ p in
      rw (same, (append-sets j e st st' h r).0 q)
        (find-map (λ sub. sub.id == id) (notify e) (st.sets r) (λ sub. rw (notify-id e sub)))
  | inr other ↦
      let n : lookup j st.subscribers ≢ some r =
        λ q. absurd (ground (arith, ===_iff j k, v.own_cell j k r q p)) in
      rw (other, (append-sets j e st st' h r).1 n)
]

pub empty_store-IsLinked : IsLinked empty_store
unfolding empty_store lookup
empty_store-IsLinked = record {
  allocated = λ k r h. absurd (cc);
  own_cell = λ j k r h g. absurd (cc);
  own_id = λ r. tt;
}

map-own_id :
    (f : Subscriber → Subscriber) (n : ℕ) (subs : List Subscriber)
    → ((sub : Subscriber) → (f sub).id ≡ sub.id)
    → All (λ sub. sub.id < n) subs
    → All (λ sub. sub.id < n) (map f subs)
map-own_id f n [] p h = tt
map-own_id f n (sub ∷ subs) p (b, h) = (omega (arith, p sub), map-own_id f n subs p h)

-- Rewriting the subscribers of one cell, their identities kept.
pub rewrite-IsLinked :
    (st : EventStore) (r : ℕ) (f : Subscriber → Subscriber)
    → ((sub : Subscriber) → (f sub).id ≡ sub.id)
    → IsLinked st
    → IsLinked (record st { sets = update st.sets r (map f (st.sets r)) })
rewrite-IsLinked st r f p v = record {
  allocated = v.allocated;
  own_cell = v.own_cell;
  own_id = λ i. elim (Bool-cases (r == i)) [
    | inl same ↦ rw same (map-own_id f st.next_id (st.sets r) p (v.own_id r))
    | inr other ↦ rw other (v.own_id i)
  ];
}

pub watch-rewrite :
    (st : EventStore) (r id : ℕ) (f : Subscriber → Subscriber)
    → ((sub : Subscriber) → (f sub).id ≡ sub.id)
    → watch (r, id) (record st { sets = update st.sets r (map f (st.sets r)) })
      ≡ Option.map f (watch (r, id) st)
watch-rewrite st r id f p =
    let hit : (r == r) ≡ true = ground arith in
    rw hit (find-map (λ sub. sub.id == id) f (st.sets r) (λ sub. rw (p sub)))
