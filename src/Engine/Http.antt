-- ===== src/Engine/Http.antt =====
-- What the routes share: errors with an HTTP status (middleware/error-handler.ts), the checks of a
-- signature (middleware/validate-signature.ts) and of a state (middleware/require-state.ts), the
-- currency table (util/currency.ts), and the frame of a handler that works inside `withLock`.
pub mod Locked
use text.Mathlib.Text.{starts_with}
use Prim.Native.String.{slice, len}
use ghost_bazaar.Prelude.{
  ℕ, ◌==◌, leb, String, ◌===◌, Bool, true, false, any, List, [], ◌∷◌, Option, none, some, Result,
  ok, err, ◌>>=◌, ◌>>◌, require, or_throw, ◌||◌, ◌&&◌,
}
use ghost_bazaar.Prelude.Json.{Value, str, Payload, get, put, as_string}
use ghost_bazaar.Prelude.Text.{codes, is_base64}
use ghost_bazaar.Core.External.{Externals}
use ghost_bazaar.Core.Amounts.{devnet_usdc, mint_decimals, normalize_amount}
use ghost_bazaar.Engine.Types.{SessionState, is_state, NegotiationEvent}
use ghost_bazaar.Engine.Session.{DerivedSession}
use ghost_bazaar.Engine.SessionManager.{
  SessionManager, ManagerError, get_session, append_event, enter_lock, leave_lock,
}

-- An `EngineError` with its status and code, or an error of the session manager, which the error
-- handler reports as status 500.
pub data Failure : Type 0 where
  http : ℕ → String → Failure
  internal : ManagerError → Failure

abbrev pub Reply {ℓ} : Type ℓ → Type ℓ
Reply A = Result Failure A

-- The clock and the random source, read once for each section of a handler.
pub record Moment : Type 0 where
  pub now : ℕ
  pub uuid : String
  pub timestamp : String

abbrev pub lift {ℓ} : {A : Type ℓ} → Result ManagerError A → Reply A
lift (ok a) = ok a
lift (err e) = err (internal e)

-- A field that the handler casts to a string.
abbrev pub text_of : Payload → String → String
text_of body key = elim (as_string (get body key)) [ none ↦ "" | some s ↦ s ]

-- `assertState`
abbrev pub assert_state : SessionState → List SessionState → Reply (Unit {0})
assert_state current allowed =
    require (any (λ s. is_state current s) allowed) (http 409 "invalid_state_transition")

-- `mintFor`
abbrev pub mint_for : String → Reply String
mint_for currency =
    require (currency === "USDC") (http 422 "unsupported_currency") >> ok devnet_usdc

-- `normalizeAmount(price, mint) <= 0n`, where a string that does not parse throws.
unfoldable pub require_positive_amount : String → String → String → Reply (Unit {0})
require_positive_amount price currency code = do
  mint ← mint_for currency
  amount ← or_throw (normalize_amount price mint mint_decimals) (http 500 "internal_error")
  require (leb 1 amount) (http 422 code)

-- `/^[A-Za-z0-9+/]*={0,2}$/`
unfoldable pub is_base64_text : List ℕ → Bool
is_base64_text [] = true
is_base64_text (c ∷ cs) = (is_base64 c && is_base64_text cs) || (c == b'=' && (is_padding cs))
  where
    is_padding : List ℕ → Bool
    is_padding [] = true
    is_padding (d ∷ []) = d == b'='
    is_padding (d ∷ f ∷ ds) = false

module _ (x : Externals) where
  -- `Date.now() >= new Date(s).getTime()`, which is false for a date that does not parse.
  abbrev pub has_passed : String → ℕ → Bool
  has_passed s now = elim (x.parse_date s) [ none ↦ false | some t ↦ leb t now ]

  unfoldable pub did_key : String → Reply String
  did_key did = or_throw (x.did_to_public_key did) (http 400 "malformed_payload")

  -- `preCheckSignatureFormat`
  unfoldable pub pre_check_signature_format : Option String → Option String → Reply (Unit {0})
  unfolding did_key is_base64_text
  pre_check_signature_format sig did = do
    signature ← or_throw sig (http 400 "malformed_payload")
    signer ← or_throw did (http 400 "malformed_payload")
    require (starts_with signature "ed25519:") (http 400 "malformed_payload")
    require (is_base64_text (codes (slice signature 8 (len signature))))
        (http 400 "malformed_payload")
    require (x.base64_bytes (slice signature 8 (len signature)) == 64)
        (http 400 "malformed_payload")
    key ← did_key signer
    ok tt

  -- `verifySignature`: over the object with an empty signature.
  unfoldable pub verify_signature : Payload → String → String → String → Reply (Unit {0})
  unfolding did_key
  verify_signature object signature signer code = do
    key ← did_key signer
    require (x.verify_ed25519 (put "signature" (str "") object) signature key) (http 401 code)

  -- `verifyQuoteSignature`: over the quote with both signatures empty.
  unfoldable pub verify_quote_signature : Payload → String → String → String → Reply (Unit {0})
  unfolding did_key
  verify_quote_signature quote signature signer code = do
    key ← did_key signer
    require
        (x.verify_ed25519 (put "seller_signature" (str "") (put "buyer_signature" (str "") quote))
          signature key)
        (http 401 code)

-- A handler inside `withLock(rfqId, …)`: the session as it is under the lock, a decision, and one
-- `appendEvent`. A request that fails leaves the manager as it was, but for the time at which the
-- cache entry was read, and the lock is released.
unfoldable pub locked_append :
    String
    → Moment
    → (DerivedSession → Reply NegotiationEvent)
    → SessionManager
    → Reply (DerivedSession × SessionManager)
locked_append k t decide m = do
  (session, m₁) ← lift (get_session k t.now (enter_lock k m))
  s ← or_throw session (http 404 "session_not_found")
  e ← decide s
  (s', m₂) ← lift (append_event k e t.now m₁)
  ok (s', leave_lock k m₂)
