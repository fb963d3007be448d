-- ===== src/Engine/ControlEnvelope.antt =====
-- packages/engine/src/security/control-envelope.ts: signed envelopes that may be used once.
pub mod SingleUse
use ghost_bazaar.Prelude.{
  ℕ, ◌+◌, ◌-◌, ltb, leb, String, ◌===◌, Bool, true, false, not, ◌||◌, ◌&&◌, List, [], ◌∷◌, Option,
  none, some, Result, ok, err, ◌>>=◌, ◌>>◌, require, or_throw, if◌then◌else◌,
}
use ghost_bazaar.Prelude.Dict.{Dict, lookup, insert, remove}
use ghost_bazaar.Prelude.Json.{Value, str, obj, Payload, field, end, get, as_string}
use ghost_bazaar.Core.External.{Externals}
use ghost_bazaar.Core.Schemas.{says}
use ghost_bazaar.Engine.Http.{Failure, http, Reply, pre_check_signature_format, verify_signature}

-- `EnvelopeTombstones`: envelope id and time of expiry. `nextExpiry` is `none` for `Infinity`.
pub record Tombstones : Type 0 where
  pub tombstones : Dict ℕ
  pub next_expiry : Option ℕ

abbrev pub is_some {ℓ} : {A : Type ℓ} → Option A → Bool
is_some none = false
is_some (some a) = true

unfoldable pub is_used : String → Tombstones → Bool
is_used id t = is_some (lookup id t.tombstones)

-- `expiry < this.nextExpiry`
abbrev pub sooner : ℕ → Option ℕ → Option ℕ
sooner e none = some e
sooner e (some n) = if ltb e n then some e else some n

unfoldable pub use_envelope : String → ℕ → ℕ → Tombstones → Tombstones
use_envelope id now retention t = record {
  tombstones = insert id (now + retention) t.tombstones;
  next_expiry = sooner (now + retention) t.next_expiry;
}

-- The loop of `sweep` over the entries that the map held when it began.
unfoldable pub sweep_from : ℕ → Dict ℕ → Dict ℕ → Option ℕ → Dict ℕ × Option ℕ
sweep_from now [] map soonest = (map, soonest)
sweep_from now ((id, expiry) ∷ entries) map soonest =
    sweep_from now entries (if leb expiry now then remove id map else map)
      (if leb expiry now then soonest else sooner expiry soonest)

abbrev pub before : ℕ → Option ℕ → Bool
before now none = true
before now (some t) = ltb now t

unfoldable pub sweep : ℕ → Tombstones → Tombstones
sweep now t =
    let (left, soonest) = sweep_from now t.tombstones t.tombstones none in
    if before now t.next_expiry then t else record { tombstones = left; next_expiry = soonest }

pub record Envelope : Type 0 where
  pub envelope_id : String
  pub session_revision : String
  pub payload : Payload

-- An hour, and the drift of a minute that `issued_at` may have.
abbrev pub retention_ms : ℕ
retention_ms = 3600000

abbrev pub max_issued_age_ms : ℕ
max_issued_age_ms = 60000

-- `payload` must be an object that is no array.
abbrev pub as_plain_object : Option Value → Option Payload
as_plain_object (some (obj p)) = some p
as_plain_object _ = none

abbrev pub malformed : Failure
malformed = http 400 "malformed_payload"

abbrev pub nonempty : Option String → Option String
nonempty none = none
nonempty (some s) = if s === "" then none else some s

module _ (x : Externals) where
  -- The checks of `validateControlEnvelope`, on the tombstones that are there when it is called.
  unfoldable pub checked_envelope :
      Payload → String → String → String → String → ℕ → Tombstones → Reply Envelope
  unfolding is_used
  checked_envelope body action rfq_id signer code now t = do
    id ← or_throw (nonempty (as_string (get body "envelope_id"))) malformed
    require (says (get body "action") action) malformed
    require (says (get body "rfq_id") rfq_id) (http 400 "rfq_id_mismatch")
    revision ← or_throw (nonempty (as_string (get body "session_revision"))) malformed
    payload ← or_throw (as_plain_object (get body "payload")) malformed
    issued_at ← or_throw (as_string (get body "issued_at")) malformed
    expires_at ← or_throw (as_string (get body "expires_at")) malformed
    signature ← or_throw (as_string (get body "signature")) malformed
    issued ← or_throw (x.parse_date issued_at) malformed
    require (leb now (issued + max_issued_age_ms) && leb issued (now + max_issued_age_ms)) malformed
    expires ← or_throw (x.parse_date expires_at) malformed
    require (ltb now expires) malformed
    require (not (is_used id t)) (http 409 "duplicate_control_envelope")
    pre_check_signature_format x (some signature) (some signer)
    verify_signature x
        (field "envelope_id" (str id) (
          field "action" (str action) (
            field "rfq_id" (str rfq_id) (
              field "session_revision" (str revision) (
                field "payload" (obj payload) (
                  field "issued_at" (str issued_at) (
                    field "expires_at" (str expires_at)
                      (field "signature" (str signature) end))))))))
        signature signer code
    ok (record { envelope_id = id; session_revision = revision; payload = payload })

  -- `validateControlEnvelope`, called at `now` on the tombstones `t`. It awaits the verification of
  -- the signature, which is done at `later`, when the tombstones are `u`; those it returns hold the
  -- envelope's id.
  unfoldable pub validate_control_envelope :
      Payload
      → String
      → String
      → String
      → String
      → ℕ
      → Tombstones
      → ℕ
      → Tombstones
      → Reply (Envelope × Tombstones)
  unfolding checked_envelope use_envelope
  validate_control_envelope body action rfq_id signer code now t later u = do
    envelope ← checked_envelope body action rfq_id signer code now t
    ok (envelope, use_envelope envelope.envelope_id later retention_ms u)
