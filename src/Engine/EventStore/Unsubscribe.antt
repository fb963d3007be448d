-- ===== src/Engine/EventStore/Unsubscribe.antt =====
-- Leaving a session, once and twice.
use mathlib.Core.Option
use ghost_bazaar.Prelude.{
  ℕ, String, ◌==◌, ===_refl, ==_refl, ◌≡◌, ◌≢◌, refl, ◌∙◌, not, List, [], ◌∷◌, none, some, arith,
  find, keep, ok, map, find-map, ap, true, sym, Bool-cases, inl, inr,
}
use ghost_bazaar.Prelude.Dict.{lookup, lookup-remove}
use ghost_bazaar.Engine.Types.{NegotiationEvent}
use ghost_bazaar.Engine.EventStore.{EventStore, Subscriber, append, unsubscribe, is_empty, notify}
use ghost_bazaar.Engine.EventStore.Linked.{watch, append-sets, notify-id}

find-keep_other :
    (id other : ℕ) (subs : List Subscriber)
    → other ≢ id
    → find (λ sub. sub.id == other) (keep (λ sub. not (sub.id == id)) subs)
      ≡ find (λ sub. sub.id == other) subs
unfolding find keep
find-keep_other id other [] n = refl
find-keep_other id other (sub ∷ subs) n = ground (arith, find-keep_other id other subs n)

find-keep_self :
    (id : ℕ) (subs : List Subscriber)
    → find (λ sub. sub.id == id) (keep (λ sub. not (sub.id == id)) subs) ≡ none
unfolding find keep
find-keep_self id [] = refl
find-keep_self id (sub ∷ subs) = ground (arith, find-keep_self id subs)

empty-eq : (subs : List Subscriber) → is_empty subs ≡ true → subs ≡ []
empty-eq [] h = refl
empty-eq (x ∷ subs) h = absurd (cc)

-- What the next append to a session does with the set that a subscriber has left.
append-left :
    (k : String) (r id : ℕ) (e : NegotiationEvent) (st st' : EventStore)
    → lookup k st.subscribers ≡ some r
    → append k e (unsubscribe k (r, id) st) ≡ ok st'
    → st'.sets r ≡ map (notify e) (keep (λ sub. not (sub.id == id)) (st.sets r))
unfolding unsubscribe
append-left k r id e st st' found h =
    let left = keep (λ sub. not (sub.id == id)) (st.sets r) in
    let (hit, miss, _, _, _) = append-sets k e (unsubscribe k (r, id) st) st' h r in
    elim (Bool-cases (is_empty left)) [
      | inl emptied ↦
          let gone : lookup k (unsubscribe k (r, id) st).subscribers ≡ none =
            rw (emptied, lookup-remove k k st.subscribers) (rw (===_refl k) refl) in
          miss (λ p. cc)
          ∙ rw (==_refl r)
              (empty-eq left emptied ∙ ap (map (notify e)) (sym (empty-eq left emptied)))
      | inr held ↦ hit (rw held found) ∙ rw (==_refl r) refl
    ]

-- When a subscriber has left, the next event of its session does not reach it, even if it was the
-- only one of the session, and reaches every other subscriber as if nobody had left.
pub unsubscribe_once :
    (k : String) (r id : ℕ) (e : NegotiationEvent) (st st' : EventStore)
    → lookup k st.subscribers ≡ some r
    → append k e (unsubscribe k (r, id) st) ≡ ok st'
    → (watch (r, id) st' ≡ none)
      × ((other : ℕ)
          → other ≢ id
          → watch (r, other) st' ≡ Option.map (notify e) (watch (r, other) st))
unsubscribe_once k r id e st st' found h =
    let left = keep (λ sub. not (sub.id == id)) (st.sets r) in
    let after : (i : ℕ)
        → watch (r, i) st' ≡ Option.map (notify e) (find (λ sub. sub.id == i) left) =
      λ i.
        ap (find (λ sub. sub.id == i)) (append-left k r id e st st' found h)
        ∙ find-map (λ sub. sub.id == i) (notify e) left (λ sub. rw (notify-id e sub)) in
    (
      after id ∙ ap (Option.map (notify e)) (find-keep_self id (st.sets r)),
      λ other n. after other ∙ ap (Option.map (notify e)) (find-keep_other id other (st.sets r) n),
    )

-- If a closure that subscribe returned is called after its set was emptied and its session got a
-- new set, the new set is dropped from the map, and no event that is appended to the session
-- afterwards reaches its subscribers.
pub stale_unsubscribe_drops_others :
    (k : String) (r id current : ℕ) (e : NegotiationEvent) (st st' : EventStore)
    → st.sets r ≡ []
    → lookup k st.subscribers ≡ some current
    → r ≢ current
    → append k e (unsubscribe k (r, id) st) ≡ ok st'
    → (lookup k (unsubscribe k (r, id) st).subscribers ≡ none)
      × (st'.sets current ≡ st.sets current)
unfolding unsubscribe keep
stale_unsubscribe_drops_others k r id current e st st' emptied found n h =
    let dropped : lookup k (unsubscribe k (r, id) st).subscribers ≡ none =
      rw (emptied, lookup-remove k k st.subscribers) (rw (===_refl k) refl) in
    (dropped, (append-sets k e (unsubscribe k (r, id) st) st' h current).1 (λ p. cc) ∙ ground arith)
