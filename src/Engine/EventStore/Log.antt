-- ===== src/Engine/EventStore/Log.antt =====
-- The logs of the store: what an append adds, and what a reader gets from a cursor on.
use ghost_bazaar.Prelude.{
  String, ◌===◌, ===_iff, ◌≡◌, ◌≢◌, refl, sym, ap, Bool, true, false, not, List, [], ◌∷◌, ◌++◌, ◌∙◌,
  append_assoc, Option, none, some, inl, inr, arith, any, any-append, keep-append, All, ok,
  require-eq-ok, if◌then◌else◌, Bool-cases, Option-cases,
}
use ghost_bazaar.Prelude.Dict.{lookup, insert, lookup-insert}
use ghost_bazaar.Engine.Types.{NegotiationEvent}
use ghost_bazaar.Engine.Visibility.{is_terminal_type}
use ghost_bazaar.Engine.EventStore.{
  EventStore, or_empty, notify_subscribers, notify_terminal, store_event, append, get_all_events,
  after_cursor, from_cursor, visible, get_events, has_cursor,
}

abbrev pub log : String → EventStore → List NegotiationEvent
log rfq_id st = or_empty (lookup rfq_id st.events)

notify_subscribers-events :
    (k : String) (e : NegotiationEvent) (st : EventStore)
    → ((notify_subscribers k e st).events ≡ st.events)
      × ((notify_subscribers k e st).seen_event_ids ≡ st.seen_event_ids)
unfolding notify_subscribers
notify_subscribers-events k e st = elim (Option-cases (lookup k st.subscribers)) [
  | inl p ↦ rw (p, notify_subscribers) (refl, refl)
  | inr (r, p) ↦ rw (p, notify_subscribers) (refl, refl)
]

-- Telling the terminal listeners changes neither logs nor subscribers.
pub notify_terminal-frame :
    (k : String) (e : NegotiationEvent) (st : EventStore)
    → ((notify_terminal k e st).events ≡ st.events)
      × ((notify_terminal k e st).seen_event_ids ≡ st.seen_event_ids)
      × ((notify_terminal k e st).sets ≡ st.sets)
      × ((notify_terminal k e st).subscribers ≡ st.subscribers)
unfolding notify_terminal
notify_terminal-frame k e st = elim (Option-cases (lookup k st.terminal_subscribers)) [
  | inl p ↦ rw (p, notify_terminal) (refl, refl, refl, refl)
  | inr (r, p) ↦ elim (Bool-cases (is_terminal_type e.type)) [
    | inl q ↦ rw (p, notify_terminal) (rw q (refl, refl, refl, refl))
    | inr q ↦ rw (p, notify_terminal) (rw q (refl, refl, refl, refl))
  ]
]

abbrev pub is_seen : String → EventStore → Bool
is_seen id st = any (λ j. j === id) st.seen_event_ids

-- What a successful append checked, and what it stored.
pub append-eq_ok :
    (k : String) (e : NegotiationEvent) (st st' : EventStore)
    → append k e st ≡ ok st'
    → (k ≡ e.rfq_id)
      × (is_seen e.event_id st ≡ false)
      × (st' ≡ notify_terminal k e (notify_subscribers k e (store_event k e st)))
unfolding append
append-eq_ok k e st st' h =
    let (same, rest) = require-eq-ok (k === e.rfq_id) _ _ h in
    let (fresh, done) = require-eq-ok (not (is_seen e.event_id st)) _ _ rest in
    ((===_iff _ _).0 same, ground arith, cc)

pub append-events :
    (k : String) (e : NegotiationEvent) (st st' : EventStore)
    → append k e st ≡ ok st'
    → (st'.events ≡ insert k (log k st ++ e ∷ []) st.events)
      × (st'.seen_event_ids ≡ e.event_id ∷ st.seen_event_ids)
unfolding store_event
append-events k e st st' h =
    let (_, _, same) = append-eq_ok k e st st' h in
    let mid = notify_subscribers k e (store_event k e st) in
    ground (
      arith,
      notify_terminal-frame k e mid,
      notify_subscribers-events k e (store_event k e st),
      same,
    )

-- An append that succeeds puts the event at the end of its session's log and leaves every other
-- log alone.
pub get_all_events-append :
    (k j : String) (e : NegotiationEvent) (st st' : EventStore)
    → append k e st ≡ ok st'
    → get_all_events j st'
      ≡ (if k === j then get_all_events j st ++ e ∷ [] else get_all_events j st)
unfolding get_all_events
get_all_events-append k j e st st' h = ground (
  arith,
  append-events k e st st' h,
  lookup-insert k j (log k st ++ e ∷ []) st.events,
  ===_iff k j,
)

-- The events behind a known cursor: the log splits at it.
pub after_cursor_split :
    (id : String) (es : List NegotiationEvent)
    → any (λ e. e.event_id === id) es ≡ true
    → (before : List NegotiationEvent) × (c : NegotiationEvent) × (es
        ≡ before ++ c ∷ after_cursor id es)
      × (c.event_id ≡ id)
      × All (λ e. e.event_id ≢ id) before
unfolding after_cursor any
after_cursor_split id [] h = absurd (cc)
after_cursor_split id (e ∷ es) h = elim (Bool-cases (e.event_id === id)) [
  | inl p ↦ ([], e, rw p, (===_iff _ _).0 p, tt)
  | inr p ↦
      let (before, c, splits, found, others) = after_cursor_split id es (rw p at h) in
      (
        e ∷ before,
        c,
        rw p (ap (◌∷◌ e) splits),
        found,
        (ground (arith, ===_iff e.event_id id), others),
      )
]

after_cursor-append :
    (id : String) (es fs : List NegotiationEvent)
    → any (λ e. e.event_id === id) es ≡ true
    → after_cursor id (es ++ fs) ≡ after_cursor id es ++ fs
unfolding after_cursor any
after_cursor-append id [] fs h = absurd (cc)
after_cursor-append id (e ∷ es) fs h = elim (Bool-cases (e.event_id === id)) [
  | inl p ↦ rw p
  | inr p ↦ rw p (after_cursor-append id es fs (rw p at h))
]

-- A cursor that is absent, or that names an event of the session.
abbrev pub IsCursor : String → Option String → EventStore → Type 0
IsCursor k none st = Unit {0}
IsCursor k (some id) st = has_cursor k id st ≡ true

pub from_cursor-append :
    (k : String) (after_id : Option String) (st : EventStore) (fs : List NegotiationEvent)
    → IsCursor k after_id st
    → from_cursor after_id (log k st ++ fs) ≡ from_cursor after_id (log k st) ++ fs
unfolding from_cursor has_cursor
from_cursor-append k none st fs h = refl
from_cursor-append k (some id) st fs h = after_cursor-append id (log k st) fs h

-- An append extends what a reader gets from a known cursor by the event, if the reader may see it.
pub get_events-append :
    (k caller buyer : String) (after_id : Option String) (e : NegotiationEvent)
    (st st' : EventStore)
    → append k e st ≡ ok st'
    → IsCursor k after_id st
    → get_events k caller buyer after_id st'
      ≡ get_events k caller buyer after_id st ++ visible caller buyer (e ∷ [])
unfolding get_events get_all_events
get_events-append k caller buyer after_id e st st' h c =
    rw
      (
        (rw ((===_iff k k).1 refl) at (get_all_events-append k k e st st' h)),
        from_cursor-append k after_id st (e ∷ []) c,
      )
      (keep-append _ (from_cursor after_id (log k st)) (e ∷ []))

-- An append to one session is not seen by the readers of another.
pub get_events-append_ne :
    (k j caller buyer : String) (after_id : Option String) (e : NegotiationEvent)
    (st st' : EventStore)
    → append k e st ≡ ok st'
    → k ≢ j
    → get_events j caller buyer after_id st' ≡ get_events j caller buyer after_id st
unfolding get_events get_all_events
get_events-append_ne k j caller buyer after_id e st st' h n =
    let same : log j st' ≡ log j st =
      ground (arith, get_all_events-append k j e st st' h, ===_iff k j) in
    rw same

pub IsCursor-append :
    (k j : String) (after_id : Option String) (e : NegotiationEvent) (st st' : EventStore)
    → append k e st ≡ ok st'
    → IsCursor j after_id st
    → IsCursor j after_id st'
unfolding has_cursor get_all_events
IsCursor-append k j none e st st' h c = tt
IsCursor-append k j (some id) e st st' h c = ground (
  arith,
  get_all_events-append k j e st st' h,
  any-append (λ f. f.event_id === id) (log j st) (e ∷ []),
)

-- The log of a session splits at a cursor in it: reading on from the cursor gives the visible
-- events behind it, and together with the visible events up to it this is what a reader from the
-- start gets, so paging loses and repeats nothing.
pub get_events_resume :
    (k id caller buyer : String) (st : EventStore)
    → has_cursor k id st ≡ true
    → (before rest : List NegotiationEvent) × (c : NegotiationEvent) × (c.event_id ≡ id)
      × All (λ e. e.event_id ≢ id) before
      × (get_all_events k st ≡ before ++ c ∷ rest)
      × (get_events k caller buyer (some id) st ≡ visible caller buyer rest)
      × (get_events k caller buyer none st
          ≡ visible caller buyer (before ++ c ∷ []) ++ get_events k caller buyer (some id) st)
unfolding has_cursor get_events from_cursor get_all_events
get_events_resume k id caller buyer st h =
    let (before, c, splits, found, others) = after_cursor_split id (log k st) h in
    (
      before,
      after_cursor id (log k st),
      c,
      found,
      others,
      splits,
      refl,
      ap (visible caller buyer) (splits ∙ sym (append_assoc before (c ∷ []) _))
          ∙ keep-append _ (before ++ c ∷ []) (after_cursor id (log k st)),
    )
