-- ===== src/Core/Schemas.antt =====
-- packages/core/src/schemas.ts: the checks of a request's fields. A failed check gives the error
-- code; `none` is `{ ok: true }`. The tests on texts are `false` on values of other
-- types, but for the test of a budget commitment, which coerces them.
use text.Mathlib.Text.{starts_with}
use ghost_bazaar.Prelude.{
  ℕ, ◌≡◌, refl, String, ◌===◌, Bool, true, false, ◌&&◌, ◌||◌, not, ltb, ◌==◌, List, [], ◌∷◌, Option,
  none, some, Result, ok, ◌>>◌, require, if◌then◌else◌,
}
use ghost_bazaar.Prelude.Json.{Value, null, num, str, Payload, get}
use ghost_bazaar.Prelude.Text.{codes, matches, repeated, literally, is_hex, is_blank}
use ghost_bazaar.Core.External.{Externals}

pub data Code : Type 0 where
  malformed_payload invalid_amount invalid_deadline unsupported_currency : Code
  invalid_budget_commitment_format rfq_id_mismatch currency_mismatch invalid_expiry : Code
  invalid_round missing_budget_proof invalid_budget_proof unexpected_budget_proof : Code

abbrev pub Check : Type 0
Check = Result Code (Unit {0})

-- The fields of an RFQ that the validators of offers and counter-offers read.
pub record RfqTerms : Type 0 where
  pub rfq_id : String
  pub currency : String
  pub budget_commitment : Option String

-- `field === text`, `field !== undefined && field !== null`
abbrev pub says : Option Value → String → Bool
says (some (str s)) t = s === t
says _ t = false

abbrev pub is_present : Option Value → Bool
is_present none = false
is_present (some null) = false
is_present _ = true

abbrev pub passes : (String → Bool) → Option Value → Bool
passes p (some (str s)) = p s
passes p _ = false

-- What `Date.parse` and the `test` of a regular expression make of their argument.
abbrev pub coerced : Externals → Option Value → String
coerced x (some (str s)) = s
coerced x v = x.to_text v

unfoldable pub has_fields : Payload → List String → Bool
has_fields p [] = true
has_fields p (f ∷ fs) = is_present (get p f) && has_fields p fs

abbrev uuid_pattern : List (ℕ → Bool)
uuid_pattern = repeated 8 is_hex (
    literally (codes "-") (
      repeated 4 is_hex (
        literally (codes "-4") (
          repeated 3 is_hex (
            literally (codes "-") (
              (λ c. c == b'8' || c == b'9' || c == b'a' || c == b'b')
              ∷ repeated 3 is_hex (literally (codes "-") (repeated 12 is_hex []))))))))

unfoldable pub is_uuid_v4 : String → Bool
is_uuid_v4 s = matches uuid_pattern (codes s)

unfoldable pub is_did : String → Bool
is_did s = starts_with s "did:key:z6Mk"

unfoldable pub is_signature_format : String → Bool
is_signature_format s = starts_with s "ed25519:"

unfoldable pub is_budget_commitment : String → Bool
is_budget_commitment s = matches (literally (codes "poseidon:") (repeated 64 is_hex [])) (codes s)

unfoldable pub is_nonce : String → Bool
is_nonce s = matches (literally (codes "0x") (repeated 64 is_hex [])) (codes s)

abbrev pub is_positive_integer : Option Value → Bool
is_positive_integer (some (num n)) = ltb 0 n
is_positive_integer _ = false

-- `SUPPORTED_CURRENCIES`
abbrev pub is_supported : String → Bool
is_supported s = s === "USDC"

abbrev protocol_version : String
protocol_version = "ghost-bazaar-v4"

abbrev pub is_after : Option ℕ → ℕ → Bool
is_after none now = false
is_after (some t) now = ltb now t

-- A proof is present if it is truthy: neither missing, null, false, 0 nor "".
abbrev pub is_truthy : Option Value → Bool
is_truthy none = false
is_truthy (some null) = false
is_truthy (some (Value.boolean b)) = b
is_truthy (some (num n)) = ltb 0 n
is_truthy (some (str s)) = not (s === "")
is_truthy _ = true

-- `v.key` of an object.
abbrev pub member : Option Value → String → Option Value
member (some (Value.obj p)) key = get p key
member _ key = none

abbrev rfq_fields : List String
rfq_fields =
    "rfq_id" ∷ "protocol" ∷ "buyer" ∷ "service_type" ∷ "spec" ∷ "anchor_price" ∷ "currency"
    ∷ "deadline" ∷ "signature" ∷ []

abbrev offer_fields : List String
offer_fields =
    "offer_id" ∷ "rfq_id" ∷ "seller" ∷ "listing_id" ∷ "price" ∷ "currency" ∷ "valid_until"
    ∷ "signature" ∷ []

abbrev counter_fields : List String
counter_fields =
    "counter_id" ∷ "rfq_id" ∷ "round" ∷ "from" ∷ "to" ∷ "price" ∷ "currency" ∷ "valid_until"
    ∷ "signature" ∷ []

module _ (x : Externals) where
  unfoldable pub is_future_iso : ℕ → String → Bool
  is_future_iso now s = is_after (x.parse_date s) now

  unfoldable pub validate_rfq : ℕ → Payload → Check
  unfolding has_fields
  validate_rfq now rfq = do
    require (has_fields rfq rfq_fields) malformed_payload
    require (passes is_uuid_v4 (get rfq "rfq_id")) malformed_payload
    require (says (get rfq "protocol") protocol_version) malformed_payload
    require (passes is_did (get rfq "buyer")) malformed_payload
    require (passes x.is_decimal_positive (get rfq "anchor_price")) invalid_amount
    require (passes (is_future_iso now) (get rfq "deadline")) invalid_deadline
    require (passes is_supported (get rfq "currency")) unsupported_currency
    require (passes is_signature_format (get rfq "signature")) malformed_payload
    elim (get rfq "budget_commitment") [
      | none ↦ ok tt
      | some v ↦
          require (is_budget_commitment (coerced x (some v))) invalid_budget_commitment_format
    ]

  unfoldable pub validate_offer : ℕ → Payload → RfqTerms → Check
  validate_offer now offer rfq = do
    require (has_fields offer offer_fields) malformed_payload
    require (passes is_uuid_v4 (get offer "offer_id")) malformed_payload
    require (says (get offer "rfq_id") rfq.rfq_id) rfq_id_mismatch
    require (passes is_did (get offer "seller")) malformed_payload
    require (passes (λ s. not (is_blank (codes s))) (get offer "listing_id")) malformed_payload
    require (passes x.is_decimal_positive (get offer "price")) invalid_amount
    require (says (get offer "currency") rfq.currency) currency_mismatch
    require (passes (is_future_iso now) (get offer "valid_until")) invalid_expiry
    require (passes is_signature_format (get offer "signature")) malformed_payload

  -- The last step of `validateCounter`: a proof is there exactly if a budget was committed.
  unfoldable pub check_budget_proof : Option String → Option Value → Check
  check_budget_proof none proof = require (not (is_truthy proof)) unexpected_budget_proof
  check_budget_proof (some commitment) proof =
      if commitment === "" then require (not (is_truthy proof)) unexpected_budget_proof else do
        require (is_truthy proof) missing_budget_proof
        require (says (member proof "protocol") "groth16") invalid_budget_proof
        require (says (member proof "curve") "bn128") invalid_budget_proof

  unfoldable pub validate_counter : ℕ → Payload → RfqTerms → Check
  validate_counter now counter rfq = do
    require (has_fields counter counter_fields) malformed_payload
    require (passes is_uuid_v4 (get counter "counter_id")) malformed_payload
    require (says (get counter "rfq_id") rfq.rfq_id) rfq_id_mismatch
    require (is_positive_integer (get counter "round")) invalid_round
    require (passes is_did (get counter "from")) malformed_payload
    require (passes is_did (get counter "to")) malformed_payload
    require (passes x.is_decimal_positive (get counter "price")) invalid_amount
    require (says (get counter "currency") rfq.currency) currency_mismatch
    require (passes (is_future_iso now) (get counter "valid_until")) invalid_expiry
    require (passes is_signature_format (get counter "signature")) malformed_payload
    check_budget_proof rfq.budget_commitment (get counter "budget_proof")

test_uuid : is_uuid_v4 "0b1c2d3e-4f50-4a6b-8c7d-0123456789ab" ≡ true
unfolding is_uuid_v4 matches
test_uuid = refl
