-- ===== src/Examples/Settling.antt =====
-- The negotiation of the examples from its offer to the settlement, reported twice.
use ghost_bazaar.Prelude.{
  ℕ, ◌≤◌, String, ◌≡◌, refl, ◌===◌, any, find, [], ◌∷◌, List, none, some, ok, keep,
}
use ghost_bazaar.Prelude.Dict.{lookup, insert}
use ghost_bazaar.Prelude.Json.{str, obj, Payload, field, end, get, put}
use ghost_bazaar.Prelude.Text.{matches}
use ghost_bazaar.Core.Amounts.{
  devnet_usdc, mint_decimals, normalize_amount, normalize_with_decimals, normalize_parts,
  split_point, is_decimal, all_digits, read_digits, fit,
}
use ghost_bazaar.Core.Schemas.{is_nonce}
use ghost_bazaar.Core.Quotes.{verify_quote}
use ghost_bazaar.Engine.Types.{NegotiationEvent}
use ghost_bazaar.Engine.StateMachine.{is_valid_transition, transition_rules}
use ghost_bazaar.Engine.Session.{
  DerivedSession, open_session, apply_event, derive_state, replay, read_rfq, initial, handle,
  on_offer, read_offer, on_winner, on_quote_signed, on_quote_committed,
}
use ghost_bazaar.Engine.EventStore.{
  append, store_event, notify_subscribers, notify_terminal, get_all_events, size,
}
use ghost_bazaar.Engine.SessionManager.{
  SessionManager, append_event, get_session, load_session, enter_lock, leave_lock,
}
use ghost_bazaar.Engine.Http.{
  Moment, require_positive_amount, verify_signature, did_key, pre_check_signature_format,
  is_base64_text, locked_append, verify_quote_signature,
}
use ghost_bazaar.Engine.ControlEnvelope.{
  Tombstones, is_used, use_envelope, checked_envelope, validate_control_envelope,
}
use ghost_bazaar.Engine.Routes.Accept.{accept_event, decide_accept, build_quote, post_accept}
use ghost_bazaar.Engine.Routes.QuoteSign.{
  quote_signed_event, decide_quote_sign, check_quote_expiry, put_quote_sign,
}
use ghost_bazaar.Engine.Routes.Cosign.{quote_committed_event, decide_cosign, put_cosign}
use ghost_bazaar.Engine.Routes.Settle.{
  settlement_event, post_execute, record_settlement, append_unless,
}
use ghost_bazaar.Engine.Routes.Settle.Once.{settlements, settled_once}
use ghost_bazaar.Engine.Routes.Steps.Served.{accept_served, quote_sign_served, cosign_served}
use ghost_bazaar.Engine.Routes.Steps.System.{Run, request_served, execute_served}
use ghost_bazaar.Settlement.{quote_for_recording, read_quote_header, recording_outcome}
use ghost_bazaar.Settlement.Transaction.{
  collect_instructions, first_parsed, parsed_transfer, extract_spl_transfer,
}
use ghost_bazaar.Settlement.Memo.{extract_memo}
use ghost_bazaar.Settlement.Execute.{
  fetch_transaction, check_transfer, check_memo, verify_settlement,
}
use ghost_bazaar.Examples.World.{
  world, rfq_id, seller, signature, now, moment, ids, quote, offer, session_offered,
  session_accepted, session_signed, session_committed,
}
use ghost_bazaar.Examples.Managers.{
  rfq_sent, offer_sent, store_opened, manager_offered, offered_Run,
}
use ghost_bazaar.Examples.Chain.{chain, verified}
use ghost_bazaar.Engine.Routes.Steps.System.{Run-IsReached}
use ghost_bazaar.Engine.DeadlineEnforcer.{is_overdue, decide_timeout, locked_maybe}
use ghost_bazaar.Engine.DeadlineEnforcer.Scan.Timeouts.{IsOverdue, IsReleased, timeout_releases}

-- The manager when the log holds these events.
abbrev manager_at : List NegotiationEvent → List String → ℕ → DerivedSession → SessionManager
manager_at events seen n s = record {
  store = record store_opened { events = (rfq_id, events) ∷ []; seen_event_ids = seen };
  active_locks = [];
  session_cache = (rfq_id, record { event_count = n; session = s; last_accessed_at = now }) ∷ [];
}

abbrev accepted : NegotiationEvent
accepted = accept_event rfq_id seller offer.offer_id quote (moment "e2") session_offered

abbrev signed : NegotiationEvent
signed = quote_signed_event rfq_id signature (moment "e3") session_accepted

abbrev cosigned : NegotiationEvent
cosigned = quote_committed_event rfq_id signature seller (moment "e4")

abbrev settled : NegotiationEvent
settled = settlement_event rfq_id (some (str "quote-1")) verified (moment "e5")

abbrev manager_accepted : SessionManager
manager_accepted =
    manager_at (rfq_sent ∷ offer_sent ∷ accepted ∷ []) ("e2" ∷ "e1" ∷ "e0" ∷ []) 3 session_accepted

abbrev manager_signed : SessionManager
manager_signed =
    manager_at (rfq_sent ∷ offer_sent ∷ accepted ∷ signed ∷ []) ("e3" ∷ "e2" ∷ "e1" ∷ "e0" ∷ []) 4
      session_signed

abbrev manager_committed : SessionManager
manager_committed =
    manager_at (rfq_sent ∷ offer_sent ∷ accepted ∷ signed ∷ cosigned ∷ [])
      ("e4" ∷ "e3" ∷ "e2" ∷ "e1" ∷ "e0" ∷ []) 5 session_committed

abbrev manager_settled : SessionManager
manager_settled =
    manager_at (rfq_sent ∷ offer_sent ∷ accepted ∷ signed ∷ cosigned ∷ settled ∷ [])
      ("e5" ∷ "e4" ∷ "e3" ∷ "e2" ∷ "e1" ∷ "e0" ∷ []) 6
      (record session_committed { last_event_id = "e5" })

abbrev accept_body : Payload
accept_body = field "envelope_id" (str "envelope-1") (
    field "action" (str "accept") (
      field "rfq_id" (str rfq_id) (
        field "session_revision" (str "e1") (
          field "payload"
            (obj (field "seller" (str seller) (field "offer_id" (str offer.offer_id) end)))
            (field "issued_at" (str "2026-01-01T00:16:40.000Z") (
              field "expires_at" (str "2026-01-01T00:16:40.000Z")
                (field "signature" (str signature) end)))))))

abbrev used : Tombstones
used = record { tombstones = ("envelope-1", 4599000) ∷ []; next_expiry = some 4599000 }

accept_is_served :
    post_accept world none rfq_id
      (some accept_body)
      ids
      now
      (record { tombstones = []; next_expiry = none })
      now
      (record { tombstones = []; next_expiry = none })
      manager_offered
      (moment "e2")
      manager_offered
    ≡ ok (ok (session_accepted, manager_accepted), used)
unfolding post_accept validate_control_envelope checked_envelope is_used use_envelope
    pre_check_signature_format is_base64_text did_key verify_signature locked_append decide_accept
    build_quote require_positive_amount normalize_amount normalize_with_decimals normalize_parts
    split_point is_decimal all_digits read_digits fit append_event get_session load_session
    derive_state replay open_session read_rfq initial apply_event handle on_offer read_offer
    on_winner is_valid_transition transition_rules append store_event notify_subscribers
    notify_terminal get_all_events size enter_lock leave_lock any find keep get put lookup insert
    ◌===◌
accept_is_served = refl

quote_sign_is_served :
    put_quote_sign world rfq_id
      (some (field "buyer_signature" (str signature) end))
      now
      manager_accepted
      (moment "e3")
      manager_accepted
    ≡ ok (session_signed, manager_signed)
unfolding put_quote_sign pre_check_signature_format is_base64_text did_key verify_quote_signature
    check_quote_expiry locked_append decide_quote_sign append_event get_session load_session
    derive_state replay open_session read_rfq initial apply_event handle on_offer read_offer
    on_winner on_quote_signed is_valid_transition transition_rules append store_event
    notify_subscribers notify_terminal get_all_events size enter_lock leave_lock any find keep get
    put lookup insert ◌===◌
quote_sign_is_served = refl

cosign_is_served :
    put_cosign world rfq_id
      (some (field "seller_signature" (str signature) end))
      now
      manager_signed
      (moment "e4")
      manager_signed
    ≡ ok (session_committed, manager_committed)
unfolding put_cosign pre_check_signature_format is_base64_text did_key verify_quote_signature
    check_quote_expiry locked_append decide_cosign append_event get_session load_session
    derive_state replay open_session read_rfq initial apply_event handle on_offer read_offer
    on_winner on_quote_signed on_quote_committed is_valid_transition transition_rules append
    store_event notify_subscribers notify_terminal get_all_events size enter_lock leave_lock any
    find keep get put lookup insert ◌===◌
cosign_is_served = refl

-- The first report is recorded, the second changes nothing.
execute_is_served :
    post_execute world chain mint_decimals devnet_usdc none
      (some "header")
      (some "payment-1")
      now
      manager_committed
      (moment "e5")
      manager_committed
    ≡ ok (verified, manager_settled)
unfolding post_execute verify_settlement quote_for_recording read_quote_header recording_outcome
    verify_quote fetch_transaction check_transfer extract_spl_transfer first_parsed parsed_transfer
    collect_instructions normalize_amount normalize_with_decimals normalize_parts split_point
    is_decimal all_digits read_digits fit check_memo extract_memo is_nonce matches record_settlement
    append_unless append_event get_session load_session derive_state replay open_session read_rfq
    initial apply_event handle on_offer read_offer on_winner on_quote_signed on_quote_committed
    is_valid_transition transition_rules append store_event notify_subscribers notify_terminal
    get_all_events size enter_lock leave_lock any find keep get put lookup insert ◌===◌
execute_is_served = refl

second_report_is_served :
    post_execute world chain mint_decimals devnet_usdc none
      (some "header")
      (some "payment-1")
      now
      manager_settled
      (moment "e6")
      manager_settled
    ≡ ok (verified, manager_settled)
unfolding post_execute verify_settlement quote_for_recording read_quote_header recording_outcome
    verify_quote fetch_transaction check_transfer extract_spl_transfer first_parsed parsed_transfer
    collect_instructions normalize_amount normalize_with_decimals normalize_parts split_point
    is_decimal all_digits read_digits fit check_memo extract_memo is_nonce matches record_settlement
    append_unless get_session get_all_events size enter_lock leave_lock any keep get put lookup
    insert ◌===◌
second_report_is_served = refl

accepted_Run : Run world manager_accepted
accepted_Run = request_served rfq_id manager_offered manager_accepted session_accepted offered_Run (
    accept_served none (some accept_body) ids now now
      (record { tombstones = []; next_expiry = none })
      (record { tombstones = []; next_expiry = none }) used manager_offered (moment "e2")
      accept_is_served)

committed_Run : Run world manager_committed
committed_Run =
    request_served rfq_id manager_signed manager_committed session_committed
      (request_served rfq_id manager_accepted manager_signed session_signed accepted_Run (
        quote_sign_served (some (field "buyer_signature" (str signature) end)) now manager_accepted
          (moment "e3") quote_sign_is_served))
      (cosign_served (some (field "seller_signature" (str signature) end)) now manager_signed
        (moment "e4") cosign_is_served)

settled_Run : Run world manager_settled
settled_Run =
    execute_served chain mint_decimals devnet_usdc none (some "header") (some "payment-1") now
      manager_settled (moment "e6") manager_settled manager_settled verified
      (execute_served chain mint_decimals devnet_usdc none (some "header") (some "payment-1") now
        manager_committed (moment "e5") manager_committed manager_settled verified committed_Run
        execute_is_served)
      second_report_is_served

settled_once_example : settlements (get_all_events rfq_id manager_settled.store) ≤ 1
settled_once_example = settled_once world manager_settled rfq_id settled_Run

-- A minute and more after the accept, nobody has cosigned.
abbrev late : Moment
late = record { now = 1100000; uuid = "e9"; timestamp = "2026-01-01T00:18:20.000Z" }

accepted-IsOverdue : IsOverdue world 60000 rfq_id late manager_accepted
unfolding get_all_events derive_state replay open_session read_rfq initial apply_event handle
    on_offer read_offer on_winner is_valid_transition transition_rules is_overdue any find get
    lookup insert ◌===◌
accepted-IsOverdue = record {
  session = session_accepted;
  since = "2026-01-01T00:16:39.000Z";
  seller = seller;
  derived = refl;
  pending = refl;
  began = refl;
  overdue = refl;
  dated = refl;
  selected = refl;
  named = refl;
}

timeout_releases_example :
    (m : SessionManager) × ((locked_maybe rfq_id late
          (decide_timeout world 60000 rfq_id late)
          manager_accepted
        ≡ ok m)
      × IsReleased world 60000 rfq_id m)
unfolding any ◌===◌
timeout_releases_example =
    timeout_releases world 60000 rfq_id late manager_accepted
      (Run-IsReached world manager_accepted accepted_Run).sound refl accepted-IsOverdue
