-- ===== src/Engine/EventStore/Stream.antt =====
-- `subscribeFrom` loses and repeats nothing: replay, buffered events and live events together are
-- the visible part of the log behind the cursor.
pub mod Joining
pub mod Following
use mathlib.Core.Option
use ghost_bazaar.Prelude.{
  ℕ, suc, ◌<◌, ◌==◌, String, ◌===◌, ===_iff, ◌≡◌, refl, sym, ap, ◌∙◌, true, List, [], ◌∷◌, ◌++◌,
  map, Option, none, some, arith, find, find_passes, Result-cases, keep, append-nil, append_assoc,
  ok, err, Result, All, All-append, All-map, Option-cases, Bool-cases, inl, inr, if◌then◌else◌,
  subst, ◌⊎◌, ==_refl, ===_refl, suc,
}
use ghost_bazaar.Prelude.Dict.{lookup, insert, lookup-insert}
use ghost_bazaar.Engine.Types.{NegotiationEvent}
use ghost_bazaar.Engine.EventStore.{
  EventStore, StoreError, Subscriber, Mode, buffering, live, append, notify, update, subscribe,
  Subscription, subscribe_from, get_events, has_cursor, buffer_of, dedup, go_live, activate,
  visible,
}
use ghost_bazaar.Engine.EventStore.Log.{
  IsCursor, IsCursor-append, get_events-append, get_events-append_ne,
}
use ghost_bazaar.Engine.EventStore.Linked.{
  IsLinked, watch, append-sets, watch-append, append-IsLinked, rewrite-IsLinked, watch-rewrite,
}
use ghost_bazaar.Engine.EventStore.Stream.Joining.{
  Follows, subscribe_from-Follows, get_events-events,
}
use ghost_bazaar.Engine.EventStore.Stream.Following.{
  append-Follows, activate-Follows, activate-events,
}

-- What may happen between `subscribeFrom` and the end of the stream.
pub data StreamStep : Type 0 where
  appends : String → NegotiationEvent → StreamStep
  activates : StreamStep

unfoldable pub stream_step : Subscription → StreamStep → EventStore → Result StoreError EventStore
stream_step s (appends j e) st = append j e st
stream_step s activates st = ok (activate s st)

unfoldable pub run_stream :
    Subscription → List StreamStep → EventStore → Result StoreError EventStore
run_stream s [] st = ok st
run_stream s (x ∷ xs) st = elim (stream_step s x st) [
  | ok st' ↦ run_stream s xs st'
  | err e ↦ err e
]

step-Follows :
    (k caller buyer : String) (after_id : Option String) (s : Subscription) (x : StreamStep)
    (st st' : EventStore) (sub : Subscriber)
    → stream_step s x st ≡ ok st'
    → Follows k caller buyer after_id s st sub
    → (sub' : Subscriber) × Follows k caller buyer after_id s st' sub'
unfolding stream_step
step-Follows k caller buyer after_id s (appends j e) st st' sub h f =
    append-Follows k caller buyer after_id s j e st st' sub h f
step-Follows k caller buyer after_id s activates st st' sub h f =
    let (sub', f', _) = activate-Follows k caller buyer after_id s st sub f in
    (sub', subst (λ t. Follows k caller buyer after_id s t sub') (cc) f')

run-Follows :
    (k caller buyer : String) (after_id : Option String) (s : Subscription) (xs : List StreamStep)
    (st st' : EventStore) (sub : Subscriber)
    → run_stream s xs st ≡ ok st'
    → Follows k caller buyer after_id s st sub
    → (sub' : Subscriber) × Follows k caller buyer after_id s st' sub'
unfolding run_stream
run-Follows k caller buyer after_id s [] st st' sub h f =
    (sub, subst (λ t. Follows k caller buyer after_id s t sub) (cc) f)
run-Follows k caller buyer after_id s (x ∷ xs) st st' sub h f =
    elim (Result-cases (stream_step s x st)) [
      | inl (mid, p) ↦
          let (sub', f') = step-Follows k caller buyer after_id s x st mid sub p f in
          run-Follows k caller buyer after_id s xs mid st' sub' (rw (p, run_stream) at h) f'
      | inr (e, p) ↦ absurd (stuck e p)
    ]
  where
    stuck : (e : StoreError) → stream_step s x st ≡ err e → ⊥
    stuck e p = ground arith

-- What a subscriber's listener was called with, and what waits in its buffer.
unfoldable pub calls_of : Subscription → EventStore → List NegotiationEvent
calls_of s st = elim (watch s.handle st) [ none ↦ [] | some sub ↦ sub.delivered ]

unfoldable pub waiting_for : Subscription → EventStore → List NegotiationEvent
waiting_for s st = elim (watch s.handle st) [ none ↦ [] | some sub ↦ sub.buffer ]

-- A reader subscribes from a cursor of the session, and then any events are appended and activate
-- is called any number of times: the replay, the snapshot, the listener's calls and the buffer
-- are, in this order, exactly the events behind the cursor that the reader may see, and
-- activating at the end leaves nothing waiting.
pub subscribe_from_exact :
    (k caller buyer : String) (after_id : Option String) (st st₁ end : EventStore)
    (s : Subscription) (xs : List StreamStep)
    → IsLinked st
    → IsCursor k after_id st
    → subscribe_from k caller buyer after_id st ≡ (s, st₁)
    → run_stream s xs st₁ ≡ ok end
    → ((s.replay ++ s.buffered) ++ (calls_of s end ++ waiting_for s end)
        ≡ get_events k caller buyer after_id end)
      × ((s.replay ++ s.buffered) ++ calls_of s (activate s end)
          ≡ get_events k caller buyer after_id end)
unfolding calls_of waiting_for
subscribe_from_exact k caller buyer after_id st st₁ end s xs v c made h =
    let (sub₀, f₀) = subscribe_from-Follows k caller buyer after_id st v c in
    let f₁ : Follows k caller buyer after_id s st₁ sub₀ =
      subst (λ (p : Subscription × EventStore). Follows k caller buyer after_id p.0 p.1 sub₀) made
        f₀ in
    let (sub, f) = run-Follows k caller buyer after_id s xs st₁ end sub₀ h f₁ in
    let (sub', f', is_live) = activate-Follows k caller buyer after_id s end sub f in
    (
      rw (f.watched, calls_of, waiting_for) f.complete,
      rw (f'.watched, calls_of)
          (ground (arith, f'.complete, f'.running, append-nil sub'.delivered)
            ∙ get_events-events k caller buyer after_id end (activate s end)
                (activate-events s end)),
    )
