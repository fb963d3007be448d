-- ===== src/Engine/EventStore/Stream/Following.antt =====
-- A reader keeps following its session while events are appended and when it goes live.
use mathlib.Core.Option
use ghost_bazaar.Prelude.{
  ℕ, ◌==◌, String, ◌===◌, ===_iff, ◌≡◌, refl, sym, ap, ◌∙◌, true, List, [], ◌∷◌, ◌++◌, Option, some,
  arith, find, find_passes, keep, append-nil, append_assoc, ok, Bool-cases, inl, inr, if◌then◌else◌,
  subst, ◌⊎◌,
}
use ghost_bazaar.Engine.Types.{NegotiationEvent}
use ghost_bazaar.Engine.EventStore.{
  EventStore, Subscriber, buffering, live, append, notify, Subscription, get_events, has_cursor,
  go_live, activate, visible,
}
use ghost_bazaar.Engine.EventStore.Log.{IsCursor-append, get_events-append, get_events-append_ne}
use ghost_bazaar.Engine.EventStore.Linked.{
  append-sets, watch-append, append-IsLinked, rewrite-IsLinked, watch-rewrite,
}
use ghost_bazaar.Engine.EventStore.Stream.Joining.{Follows, IsCursor-events}

-- The visible part of one event, delivered or buffered according to the mode.
notify_complete :
    (e : NegotiationEvent) (sub : Subscriber) (caller buyer : String)
    → sub.caller_did ≡ caller
    → sub.buyer ≡ buyer
    → ((sub.mode ≡ buffering) ⊎ ((sub.mode ≡ live) × (sub.buffer ≡ [])))
    → ((notify e sub).delivered ++ (notify e sub).buffer
        ≡ (sub.delivered ++ sub.buffer) ++ visible caller buyer (e ∷ []))
      × (((notify e sub).mode ≡ buffering)
          ⊎ (((notify e sub).mode ≡ live) × ((notify e sub).buffer ≡ [])))
      × ((notify e sub).caller_did ≡ sub.caller_did)
      × ((notify e sub).buyer ≡ sub.buyer)
unfolding notify keep
notify_complete e sub caller buyer c b m = ground (
  arith,
  append_assoc sub.delivered sub.buffer (e ∷ []),
  append-nil (sub.delivered ++ sub.buffer),
  append-nil sub.delivered,
  append-nil (sub.delivered ++ e ∷ []),
)

pub append-Follows :
    (k caller buyer : String) (after_id : Option String) (s : Subscription) (j : String)
    (e : NegotiationEvent) (st st' : EventStore) (sub : Subscriber)
    → append j e st ≡ ok st'
    → Follows k caller buyer after_id s st sub
    → (sub' : Subscriber) × Follows k caller buyer after_id s st' sub'
append-Follows k caller buyer after_id s j e st st' sub h f = elim (Bool-cases (j === k)) [
  | inl same ↦
      let (more, running, c, b) =
        notify_complete e sub caller buyer f.caller_kept f.buyer_kept f.running in
      let at_k : append k e st ≡ ok st' =
        subst (λ i. append i e st ≡ ok st') ((===_iff j k).0 same) h in
      (
        notify e sub,
        record {
          linked = append-IsLinked j e st st' h f.linked;
          registered = rw (append-sets j e st st' h 0).2 f.registered;
          watched =
              watch-append k j s.handle.0 s.handle.1 e st st' f.linked h f.registered
              ∙ rw (same, f.watched);
          caller_kept = c ∙ f.caller_kept;
          buyer_kept = b ∙ f.buyer_kept;
          running = running;
          cursor = IsCursor-append j k after_id e st st' h f.cursor;
          complete =
              ap (◌++◌ (s.replay ++ s.buffered)) more
              ∙ sym (append_assoc (s.replay ++ s.buffered) (sub.delivered ++ sub.buffer) _)
              ∙ ap (λ es. es ++ visible caller buyer (e ∷ [])) f.complete
              ∙ sym (get_events-append k caller buyer after_id e st st' at_k f.cursor);
        },
      )
  | inr other ↦ (
    sub,
    record {
      linked = append-IsLinked j e st st' h f.linked;
      registered = rw (append-sets j e st st' h 0).2 f.registered;
      watched =
          watch-append k j s.handle.0 s.handle.1 e st st' f.linked h f.registered
          ∙ rw (other, f.watched);
      caller_kept = f.caller_kept;
      buyer_kept = f.buyer_kept;
      running = f.running;
      cursor = IsCursor-append j k after_id e st st' h f.cursor;
      complete =
          f.complete
          ∙ sym (
              get_events-append_ne j k caller buyer after_id e st st' h
                (ground (arith, ===_iff j k)));
    },
  )
]

go_live-id : (sub : Subscriber) → (go_live sub.mode sub).id ≡ sub.id
unfolding go_live
go_live-id sub = ground arith

abbrev activated : ℕ → Subscriber → Subscriber
activated id sub = if sub.id == id then go_live sub.mode sub else sub

activated-id : (id : ℕ) (sub : Subscriber) → (activated id sub).id ≡ sub.id
activated-id id sub = ground (arith, go_live-id sub)

find-id :
    (id : ℕ) (subs : List Subscriber) (sub : Subscriber)
    → find (λ other. other.id == id) subs ≡ some sub
    → (sub.id == id) ≡ true
find-id id subs sub h = find_passes (λ other. other.id == id) subs sub h

-- After `activate` the subscriber is live and nothing is left in its buffer.
go_live_complete :
    (sub : Subscriber)
    → ((sub.mode ≡ buffering) ⊎ ((sub.mode ≡ live) × (sub.buffer ≡ [])))
    → let sub' = go_live sub.mode sub in
      (sub'.delivered ++ sub'.buffer ≡ sub.delivered ++ sub.buffer)
      × (sub'.mode ≡ live)
      × (sub'.buffer ≡ [])
      × (sub'.caller_did ≡ sub.caller_did)
      × (sub'.buyer ≡ sub.buyer)
unfolding go_live
go_live_complete sub m = ground (arith, append-nil (sub.delivered ++ sub.buffer))

pub activate-Follows :
    (k caller buyer : String) (after_id : Option String) (s : Subscription) (st : EventStore)
    (sub : Subscriber)
    → Follows k caller buyer after_id s st sub
    → (sub' : Subscriber) × Follows k caller buyer after_id s (activate s st) sub'
      × (sub'.mode ≡ live)
unfolding activate has_cursor get_events
activate-Follows k caller buyer after_id s st sub f =
    let (same, is_live, drained, c, b) = go_live_complete sub f.running in
    (
      go_live sub.mode sub,
      record {
        linked =
            rewrite-IsLinked st s.handle.0 (activated s.handle.1) (activated-id s.handle.1)
              f.linked;
        registered = f.registered;
        watched =
            watch-rewrite st s.handle.0 s.handle.1 (activated s.handle.1) (activated-id s.handle.1)
            ∙ ap (Option.map (activated s.handle.1)) f.watched
            ∙ rw (find-id s.handle.1 (st.sets s.handle.0) sub f.watched);
        caller_kept = c ∙ f.caller_kept;
        buyer_kept = b ∙ f.buyer_kept;
        running = inr (is_live, drained);
        cursor = IsCursor-events k after_id st _ refl f.cursor;
        complete = ap (◌++◌ (s.replay ++ s.buffered)) same ∙ f.complete;
      },
      is_live,
    )

pub activate-events : (s : Subscription) (st : EventStore) → (activate s st).events ≡ st.events
unfolding activate
activate-events s st = refl
