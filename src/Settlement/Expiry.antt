-- ===== src/Settlement/Expiry.antt =====
-- packages/settlement/src/execute.ts: what is checked of a quote that has expired.
use ghost_bazaar.Prelude.{ℕ, ◌≡◌, refl, true, false, some, ok}
use ghost_bazaar.Prelude.Json.{obj, Payload, get}
use ghost_bazaar.Core.External.{Externals}
use ghost_bazaar.Core.Schemas.{passes, coerced, is_supported, is_after, is_truthy}
use ghost_bazaar.Core.Quotes.{verify_quote, is_price, is_memo_policy}
use ghost_bazaar.Settlement.{read_quote_header, recording_outcome, quote_for_recording}

module _ (x : Externals) where
  -- The quote is well formed in the fields that are checked before its expiry.
  abbrev pub IsPayable : Payload → Type 0
  IsPayable quote =
      (is_price x (get quote "final_price") ≡ true)
      × (passes is_supported (get quote "currency") ≡ true)
      × (passes is_memo_policy (get quote "memo_policy") ≡ true)

  abbrev pub IsUnexpired : ℕ → Payload → Type 0
  IsUnexpired now quote = is_after (x.parse_date (coerced x (get quote "expires_at"))) now ≡ true

  -- An expired quote with an id and a valid price, currency and memo policy passes the first
  -- three steps of verifySettlement, whatever its signatures and its nonce are.
  pub expired_quote_needs_no_signature :
      (now : ℕ) (quote : Payload)
      → IsPayable quote
      → is_truthy (get quote "quote_id") ≡ true
      → is_after (x.parse_date (coerced x (get quote "expires_at"))) now ≡ false
      → quote_for_recording x now (some (obj quote)) ≡ ok quote
  unfolding quote_for_recording read_quote_header recording_outcome verify_quote
  expired_quote_needs_no_signature now quote (price, currency, memo) has_id late =
      rw (has_id, price, currency, memo, late) refl
