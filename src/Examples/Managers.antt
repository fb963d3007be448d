-- ===== src/Examples/Managers.antt =====
-- A manager that serves an RFQ and an offer.
use ghost_bazaar.Prelude.{◌≡◌, refl, ◌===◌, any, [], ◌∷◌, ◌++◌, some, ok, keep}
use ghost_bazaar.Prelude.Dict.{lookup, insert}
use ghost_bazaar.Prelude.Json.{get, put}
use ghost_bazaar.Prelude.Text.{matches, is_blank}
use ghost_bazaar.Core.Amounts.{
  normalize_amount, normalize_with_decimals, normalize_parts, split_point, is_decimal, all_digits,
  read_digits, fit,
}
use ghost_bazaar.Core.Schemas.{
  has_fields, is_uuid_v4, is_did, is_signature_format, is_future_iso, validate_rfq, validate_offer,
}
use ghost_bazaar.Engine.Types.{NegotiationEvent}
use ghost_bazaar.Engine.StateMachine.{is_valid_transition, transition_rules}
use ghost_bazaar.Engine.Session.{
  DerivedSession, open_session, apply_event, derive_state, replay, read_rfq, initial, handle,
  on_offer, read_offer,
}
use ghost_bazaar.Engine.EventStore.{
  EventStore, empty_store, append, store_event, notify_subscribers, notify_terminal, get_all_events,
  size,
}
use ghost_bazaar.Engine.SessionManager.{
  SessionManager, append_event, get_session, load_session, has_session, enter_lock, leave_lock,
}
use ghost_bazaar.Engine.SessionManager.Soundness.{
  IsSound, Reads, get_session-Reads, append_event-IsSound,
}
use ghost_bazaar.Engine.Http.{
  require_positive_amount, verify_signature, did_key, pre_check_signature_format, is_base64_text,
  locked_append,
}
use ghost_bazaar.Engine.Routes.Rfqs.{rfq_event, post_rfq, check_rfq, validate_spec_and_extensions}
use ghost_bazaar.Engine.Routes.Offers.{
  offer_event, decide_offer, check_offer, check_extensions, post_offer, find_by_seller_and_id,
}
use ghost_bazaar.Engine.Routes.Steps.Served.{offer_served, Served-Advances, StepsOn}
use ghost_bazaar.Engine.Routes.Steps.System.{
  Run, started, rfq_posted, request_served, IsReached, Run-IsReached, post_rfq-Opens,
}
use ghost_bazaar.Engine.Routes.Steps.Sections.{fresh, Opens}
use ghost_bazaar.Examples.World.{
  world, rfq_id, now, moment, rfq_body, offer_body, listing, listings, session_opened,
  session_offered,
}

abbrev pub rfq_sent : NegotiationEvent
rfq_sent = rfq_event rfq_body (moment "e0")

abbrev pub offer_sent : NegotiationEvent
offer_sent = offer_event rfq_id offer_body listing (moment "e1")

abbrev pub store_opened : EventStore
store_opened = record {
  events = (rfq_id, rfq_sent ∷ []) ∷ [];
  seen_event_ids = "e0" ∷ [];
  subscribers = [];
  sets = λ r. [];
  next_set = 0;
  next_id = 0;
  terminal_subscribers = [];
  terminal_sets = λ r. [];
  next_terminal_set = 0;
  terminal_calls = [];
}

abbrev manager_opened : SessionManager
manager_opened = record {
  store = store_opened;
  active_locks = [];
  session_cache =
      (rfq_id, record { event_count = 1; session = session_opened; last_accessed_at = now }) ∷ [];
}

abbrev pub manager_offered : SessionManager
manager_offered = record {
  store = record store_opened {
    events = (rfq_id, rfq_sent ∷ offer_sent ∷ []) ∷ [];
    seen_event_ids = "e1" ∷ "e0" ∷ [];
  };
  active_locks = [];
  session_cache =
      (rfq_id, record { event_count = 2; session = session_offered; last_accessed_at = now }) ∷ [];
}

rfq_is_served :
    post_rfq world (some rfq_body) now fresh (moment "e0") fresh
    ≡ ok (session_opened, manager_opened)
unfolding post_rfq check_rfq validate_rfq validate_spec_and_extensions has_fields is_uuid_v4 is_did
    is_signature_format is_future_iso matches require_positive_amount normalize_amount
    normalize_with_decimals normalize_parts split_point is_decimal all_digits read_digits fit
    pre_check_signature_format is_base64_text did_key verify_signature has_session append_event
    derive_state replay open_session read_rfq initial append store_event notify_subscribers
    notify_terminal get_all_events size empty_store enter_lock leave_lock any keep get put lookup
    insert ◌===◌
rfq_is_served = refl

offer_is_served :
    post_offer world rfq_id
      (some offer_body)
      listings
      now
      manager_opened
      (moment "e1")
      manager_opened
    ≡ ok (session_offered, manager_offered)
unfolding post_offer check_offer validate_offer check_extensions decide_offer locked_append
    find_by_seller_and_id has_fields is_uuid_v4 is_did is_signature_format is_future_iso matches
    is_blank require_positive_amount normalize_amount normalize_with_decimals normalize_parts
    split_point is_decimal all_digits read_digits fit pre_check_signature_format is_base64_text
    did_key verify_signature has_session append_event get_session load_session derive_state replay
    open_session read_rfq initial apply_event handle on_offer read_offer is_valid_transition
    transition_rules append store_event notify_subscribers notify_terminal get_all_events size
    empty_store enter_lock leave_lock any keep get put lookup insert ◌===◌
offer_is_served = refl

pub offered_Run : Run world manager_offered
offered_Run =
    request_served rfq_id manager_opened manager_offered session_offered
      (rfq_posted fresh manager_opened rfq_body now fresh (moment "e0") session_opened started
        rfq_is_served)
      (offer_served (some offer_body) listings now manager_opened (moment "e1") offer_is_served)

Run-IsReached_example : IsReached world manager_offered
Run-IsReached_example = Run-IsReached world manager_offered offered_Run

opened_IsSound : IsSound manager_opened
opened_IsSound =
    (Run-IsReached world manager_opened (
      rfq_posted fresh manager_opened rfq_body now fresh (moment "e0") session_opened started
        rfq_is_served)).sound

Served-Advances_example : StepsOn world rfq_id manager_opened session_offered manager_offered
Served-Advances_example =
    Served-Advances world rfq_id manager_opened manager_offered session_offered opened_IsSound
      (offer_served (some offer_body) listings now manager_opened (moment "e1") offer_is_served)

post_rfq-Opens_example : Opens rfq_id rfq_sent session_opened fresh manager_opened
unfolding get ◌===◌
post_rfq-Opens_example =
    post_rfq-Opens world rfq_body now fresh (moment "e0") fresh manager_opened session_opened
      (Run-IsReached world fresh started).sound rfq_is_served

get_session-Reads_example : Reads rfq_id manager_offered (get_session rfq_id 999500 manager_offered)
get_session-Reads_example =
    get_session-Reads rfq_id 999500 manager_offered
      (Run-IsReached world manager_offered offered_Run).sound

locked_IsSound : IsSound (enter_lock rfq_id manager_opened)
unfolding enter_lock
locked_IsSound = record { valid = opened_IsSound.valid; cached = opened_IsSound.cached }

append_event-IsSound_example :
    IsSound (enter_lock rfq_id manager_offered)
    × (derive_state (get_all_events rfq_id manager_offered.store) ≡ ok (some session_offered))
    × (get_all_events rfq_id manager_offered.store
        ≡ get_all_events rfq_id manager_opened.store ++ offer_sent ∷ [])
    × ((before : DerivedSession)
        → derive_state (get_all_events rfq_id manager_opened.store) ≡ ok (some before)
        → apply_event offer_sent before ≡ ok session_offered)
unfolding append_event derive_state replay open_session read_rfq initial apply_event handle on_offer
    read_offer is_valid_transition transition_rules append store_event notify_subscribers
    notify_terminal get_all_events size enter_lock any get lookup insert ◌===◌
append_event-IsSound_example =
    append_event-IsSound rfq_id offer_sent now (enter_lock rfq_id manager_opened)
      (enter_lock rfq_id manager_offered) session_offered locked_IsSound refl
