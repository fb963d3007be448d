-- ===== src/Examples/Settlements.antt =====
-- The committed quote at the settlement, before and after it expires.
use ghost_bazaar.Prelude.{◌≡◌, refl, ◌===◌, false, some, ok}
use ghost_bazaar.Prelude.Text.{matches}
use ghost_bazaar.Prelude.Json.{obj, Payload, get, put}
use ghost_bazaar.Core.External.{Externals}
use ghost_bazaar.Core.Schemas.{is_nonce}
use ghost_bazaar.Core.Quotes.{verify_quote}
use ghost_bazaar.Engine.Routes.Cosign.{cosigned_quote}
use ghost_bazaar.Settlement.{quote_for_recording}
use ghost_bazaar.Settlement.Handover.{committed_quote_is_accepted}
use ghost_bazaar.Examples.World.{world, now, session_committed}
use ghost_bazaar.Examples.Commitments.{committed_Reachable}
use ghost_bazaar.Settlement.Expiry.{expired_quote_needs_no_signature}

abbrev pub final_quote : Payload
final_quote = cosigned_quote session_committed

committed_quote_is_accepted_example : verify_quote world now final_quote ≡ ok tt
unfolding get put is_nonce matches ◌===◌
committed_quote_is_accepted_example =
    committed_quote_is_accepted world session_committed now committed_Reachable refl
      (refl, refl, refl) refl refl

-- No signature verifies.
abbrev forger : Externals
forger = record world { verify_ed25519 = λ p s k. false }

expired_quote_needs_no_signature_example :
    quote_for_recording forger 2000000 (some (obj final_quote)) ≡ ok final_quote
unfolding get put ◌===◌
expired_quote_needs_no_signature_example =
    expired_quote_needs_no_signature forger 2000000 final_quote (refl, refl, refl) refl refl
