-- ===== src/Core/External.antt =====
-- What the packages take from elsewhere, as one record of functions: dates of the JavaScript
-- runtime, decimal.js, Ed25519 with the encodings of keys, the zero-knowledge verifier, SHA-256.
use ghost_bazaar.Prelude.{ℕ, String, Bool, Option}
use ghost_bazaar.Prelude.Json.{Value, Payload}

pub record Externals : Type 0 where
  -- `Date.parse(s)` and `new Date(s).getTime()`; `NaN` is `none`.
  pub parse_date : String → Option ℕ
  -- `new Date(ms).toISOString()`
  pub iso_date : ℕ → String
  -- `String(v)` of a value that is no text.
  pub to_text : Option Value → String
  -- `new Decimal(s)` is finite and greater than 0.
  pub is_decimal_positive : String → Bool
  -- The number of bytes that `Buffer.from(s, "base64")` holds.
  pub base64_bytes : String → ℕ
  -- `didToPublicKey`: base58 and the multicodec prefix.
  pub did_to_public_key : String → Option String
  -- `verifyEd25519` over the canonical JSON of an object.
  pub verify_ed25519 : Payload → String → String → Bool
  -- The Groth16 verifier, `false` where it throws.
  pub verify_budget_proof : Value → ℕ → String → Bool
  -- The decimal digits of a number.
  pub show_number : ℕ → String
  -- `computeSpecHash`: SHA-256 over the canonical JSON.
  pub spec_hash : Value → String
  -- `JSON.stringify(v).length`
  pub json_length : Value → ℕ
