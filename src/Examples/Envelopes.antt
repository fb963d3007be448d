-- ===== src/Examples/Envelopes.antt =====
-- An envelope, replayed after a sweep.
use ghost_bazaar.Prelude.{◌≡◌, ◌≢◌, refl, ◌===◌, arith, true, [], ◌∷◌, none, some, ok}
use ghost_bazaar.Prelude.Dict.{lookup, insert}
use ghost_bazaar.Prelude.Json.{str, obj, Payload, field, end, get, put}
use ghost_bazaar.Engine.Http.{pre_check_signature_format, is_base64_text, did_key, verify_signature}
use ghost_bazaar.Engine.ControlEnvelope.{
  Tombstones, Envelope, is_used, use_envelope, sweep, checked_envelope, validate_control_envelope,
}
use ghost_bazaar.Engine.ControlEnvelope.SingleUse.{
  at_once, swept, accepted_once, racing_validations_accept_twice,
}
use ghost_bazaar.Examples.World.{world, rfq_id, buyer, seller, signature, now}

abbrev accept_payload : Payload
accept_payload = field "seller" (str seller) end

abbrev body : Payload
body = field "envelope_id" (str "envelope-1") (
    field "action" (str "accept") (
      field "rfq_id" (str rfq_id) (
        field "session_revision" (str "e1") (
          field "payload" (obj accept_payload) (
            field "issued_at" (str "2026-01-01T00:16:40.000Z") (
              field "expires_at" (str "2026-01-01T00:16:40.000Z")
                (field "signature" (str signature) end)))))))

abbrev envelope : Envelope
envelope = record { envelope_id = "envelope-1"; session_revision = "e1"; payload = accept_payload }

abbrev no_tombstones : Tombstones
no_tombstones = record { tombstones = []; next_expiry = none }

abbrev used : Tombstones
used = record { tombstones = ("envelope-1", 4599000) ∷ []; next_expiry = some 4599000 }

checked :
    checked_envelope world body "accept" rfq_id buyer "invalid_buyer_signature" now no_tombstones
    ≡ ok envelope
unfolding checked_envelope is_used pre_check_signature_format is_base64_text did_key
    verify_signature get put lookup ◌===◌
checked = refl

first_use :
    validate_control_envelope world body "accept" rfq_id buyer "invalid_buyer_signature" now
      no_tombstones now no_tombstones
    ≡ ok (envelope, used)
unfolding validate_control_envelope use_envelope insert
first_use = rw checked refl

accepted_once_example :
    validate_control_envelope world body "accept" rfq_id buyer "invalid_buyer_signature" 999500
      (sweep 999500 used)
      999600
      (sweep 999500 used)
    ≢ ok (envelope, used)
accepted_once_example =
    accepted_once world body "accept" rfq_id buyer "invalid_buyer_signature" now now no_tombstones
      no_tombstones used envelope 999500 (sweep 999500 used) (at_once now no_tombstones) first_use
      (swept now now used used (at_once now used) 999500 (omega arith)) "accept" rfq_id buyer
      "invalid_buyer_signature" 999600 (sweep 999500 used) (envelope, used)

racing_validations_accept_twice_example :
    (u₁ u₂ : Tombstones) × (validate_control_envelope world body "accept" rfq_id buyer
        "invalid_buyer_signature" now no_tombstones now no_tombstones
      ≡ ok (envelope, u₁))
    × (is_used "envelope-1" u₁ ≡ true)
    × (validate_control_envelope world body "accept" rfq_id buyer "invalid_buyer_signature" now
          no_tombstones now u₁
        ≡ ok (envelope, u₂))
racing_validations_accept_twice_example =
    racing_validations_accept_twice world body "accept" rfq_id buyer "invalid_buyer_signature" now
      now now now no_tombstones no_tombstones no_tombstones envelope envelope checked checked
