-- ===== src/Engine/EventStore/Unique.antt =====
-- Event ids are unique in the whole store: replays and double appends are refused.
use ghost_bazaar.Prelude.{
  String, ◌===◌, ===_iff, ◌≡◌, ◌≢◌, refl, sym, ◌∙◌, subst, true, false, List, [], ◌∷◌, ◌++◌, ◌⊎◌,
  inl, inr, arith, any, All, All-append, All-map, ok, Bool-cases,
}
use ghost_bazaar.Prelude.Dict.{lookup}
use ghost_bazaar.Engine.Types.{NegotiationEvent}
use ghost_bazaar.Engine.EventStore.{EventStore, append, empty_store, get_all_events}
use ghost_bazaar.Engine.EventStore.Log.{
  log, is_seen, append-eq_ok, append-events, get_all_events-append,
}

abbrev pub AllSeen : EventStore → List NegotiationEvent → Type 0
AllSeen st = All (λ e. is_seen e.event_id st ≡ true)

abbrev pub DifferFrom : NegotiationEvent → List NegotiationEvent → Type 0
DifferFrom f = All (λ e. e.event_id ≢ f.event_id)

abbrev pub Distinct : List NegotiationEvent → Type 0
Distinct [] = Unit
Distinct (e ∷ es) = DifferFrom e es × Distinct es

abbrev pub Disjoint : List NegotiationEvent → List NegotiationEvent → Type 0
Disjoint es fs = All (λ e. DifferFrom e fs) es

pub record IsUnique (st : EventStore) : Type 0 where
  pub seen : (k : String) → AllSeen st (log k st)
  pub owned : (k : String) → All (λ e. e.rfq_id ≡ k) (log k st)
  pub distinct : (k : String) → Distinct (log k st)
  pub disjoint : (j k : String) → j ≢ k → Disjoint (log j st) (log k st)

-- An id that no append has used differs from all that are stored.
fresh-DifferFrom :
    (e : NegotiationEvent) (st : EventStore) (es : List NegotiationEvent)
    → is_seen e.event_id st ≡ false
    → AllSeen st es
    → DifferFrom e es
fresh-DifferFrom e st es n =
    All-map _ _ es (λ f s same. absurd (clash (subst (λ i. is_seen i st ≡ true) same s)))
  where
    clash : is_seen e.event_id st ≡ true → ⊥
    clash s = cc

Distinct-snoc :
    (es : List NegotiationEvent) (e : NegotiationEvent)
    → Distinct es
    → DifferFrom e es
    → Distinct (es ++ e ∷ [])
Distinct-snoc [] e d n = (tt, tt)
Distinct-snoc (f ∷ es) e (away, d) (n, ns) =
    (All-append _ es (e ∷ []) away ((λ same. n (sym same)), tt), Distinct-snoc es e d ns)

Disjoint-snoc_right :
    (es fs : List NegotiationEvent) (e : NegotiationEvent)
    → Disjoint es fs
    → DifferFrom e es
    → Disjoint es (fs ++ e ∷ [])
Disjoint-snoc_right [] fs e d n = tt
Disjoint-snoc_right (f ∷ es) fs e (away, d) (n, ns) =
    (All-append _ fs (e ∷ []) away ((λ same. n (sym same)), tt), Disjoint-snoc_right es fs e d ns)

Disjoint-sym_one :
    (e : NegotiationEvent) (fs : List NegotiationEvent) → DifferFrom e fs → Disjoint (e ∷ []) fs
Disjoint-sym_one e fs n = (n, tt)

-- The log of any session after an append, in the two cases.
module _ (k : String) (e : NegotiationEvent) (st st' : EventStore) (h : append k e st ≡ ok st')
    (u : IsUnique st) where
  log_same : log k st' ≡ log k st ++ e ∷ []
  unfolding get_all_events
  log_same = rw ((===_iff k k).1 refl) at (get_all_events-append k k e st st' h)

  log_other : (j : String) → k ≢ j → log j st' ≡ log j st
  unfolding get_all_events
  log_other j n = ground (arith, get_all_events-append k j e st st' h, ===_iff k j)

  log_cases :
      (j : String)
      → ((k ≡ j) × (log j st' ≡ log j st ++ e ∷ [])) ⊎ ((k ≢ j) × (log j st' ≡ log j st))
  log_cases j = elim (Bool-cases (k === j)) [
    | inl same ↦ inl (
      (===_iff k j).0 same,
      subst (λ i. log i st' ≡ log i st ++ e ∷ []) ((===_iff k j).0 same) log_same,
    )
    | inr other ↦ inr (differs other, log_other j (differs other))
  ]
    where
      differs : (k === j) ≡ false → k ≢ j
      differs other = ground (arith, ===_iff k j)

  fresh : is_seen e.event_id st ≡ false
  fresh = (append-eq_ok k e st st' h).1

  seen_self : is_seen e.event_id st' ≡ true
  unfolding any
  seen_self = rw ((append-events k e st st' h).1, (===_iff e.event_id e.event_id).1 refl)

  seen_later : (es : List NegotiationEvent) → AllSeen st es → AllSeen st' es
  unfolding any
  seen_later es = All-map _ _ es (λ f s. ground (arith, append-events k e st st' h))

  new : (j : String) → DifferFrom e (log j st)
  new j = fresh-DifferFrom e st (log j st) fresh (u.seen j)

  seen-append : (j : String) → AllSeen st' (log j st')
  seen-append j = elim (log_cases j) [
    | inl (_, p) ↦
        rw p (All-append _ (log j st) (e ∷ []) (seen_later (log j st) (u.seen j)) (seen_self, tt))
    | inr (_, p) ↦ rw p (seen_later (log j st) (u.seen j))
  ]

  owned-append : (j : String) → All (λ f. f.rfq_id ≡ j) (log j st')
  owned-append j = elim (log_cases j) [
    | inl (same, p) ↦ rw p (
        All-append _ (log j st) (e ∷ []) (u.owned j) (sym (append-eq_ok k e st st' h).0 ∙ same, tt))
    | inr (_, p) ↦ rw p (u.owned j)
  ]

  Distinct-append : (j : String) → Distinct (log j st')
  Distinct-append j = elim (log_cases j) [
    | inl (_, p) ↦ rw p (Distinct-snoc (log j st) e (u.distinct j) (new j))
    | inr (_, p) ↦ rw p (u.distinct j)
  ]

  Disjoint-append : (i j : String) → i ≢ j → Disjoint (log i st') (log j st')
  Disjoint-append i j n = elim (log_cases i) [
    | inl (a, p) ↦ elim (log_cases j) [
      | inl (b, q) ↦ absurd (n (sym a ∙ b))
      | inr (_, q) ↦ rw (p, q) (All-append _ (log i st) (e ∷ []) (u.disjoint i j n) (new j, tt))
    ]
    | inr (_, p) ↦ elim (log_cases j) [
      | inl (_, q) ↦
          rw (p, q) (Disjoint-snoc_right (log i st) (log j st) e (u.disjoint i j n) (new i))
      | inr (_, q) ↦ rw (p, q) (u.disjoint i j n)
    ]
  ]

-- Every append that succeeds keeps the event ids of all logs distinct, and each event in the log
-- of the session that it names.
pub append-IsUnique :
    (k : String) (e : NegotiationEvent) (st st' : EventStore)
    → append k e st ≡ ok st'
    → IsUnique st
    → IsUnique st'
append-IsUnique k e st st' h u = record {
  seen = seen-append k e st st' h u;
  owned = owned-append k e st st' h u;
  distinct = Distinct-append k e st st' h u;
  disjoint = Disjoint-append k e st st' h u;
}

pub empty_store-IsUnique : IsUnique empty_store
unfolding empty_store lookup
empty_store-IsUnique = record {
  seen = λ k. tt;
  owned = λ k. tt;
  distinct = λ k. tt;
  disjoint = λ j k n. tt;
}
