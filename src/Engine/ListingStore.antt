-- ===== src/Engine/ListingStore.antt =====
-- packages/engine/src/registry/listing-store.ts and registry-binding.ts: the sellers' listings and the
-- ids that bind them to the registry.
pub mod Valid
use ghost_bazaar.Prelude.{
  ℕ, String, ◌===◌, ◌==◌, ltb, Bool, true, false, ◌&&◌, ◌||◌, not, List, [], ◌∷◌, Option, none,
  some, any, keep, length, Result, ok, err, ◌>>=◌, ◌>>◌, require, or_throw, if◌then◌else◌,
}
use ghost_bazaar.Prelude.Dict.{Dict, lookup, insert}
use ghost_bazaar.Prelude.Json.{Payload}
use ghost_bazaar.Prelude.Text.{codes, is_digit, is_blank}
use ghost_bazaar.Core.External.{Externals}
use ghost_bazaar.Engine.Http.{Failure, http, Reply}
use Prim.Native.Char.{code}

-- `Listing` of packages/core.
pub record Listing : Type 0 where
  pub listing_id : String
  pub seller : String
  pub registry_agent_id : Option String
  pub title : String
  pub category : String
  pub service_type : String
  pub negotiation_endpoint : String
  pub payment_endpoint : String
  pub base_terms : Payload
  pub negotiation_profile : Option Payload

pub data ListingError : Type 0 where
  capacity_reached duplicate_listing_id listing_id_required invalid_seller : ListingError
  invalid_negotiation_endpoint invalid_payment_endpoint service_type_required : ListingError
  invalid_registry_agent_id : ListingError

abbrev pub max_listings : ℕ
max_listings = 10000

-- What `.` does not match.
abbrev pub is_line_terminator : ℕ → Bool
is_line_terminator c = c == 10 || c == 13 || c == 0x2028 || c == 0x2029

abbrev pub starts : List ℕ → List ℕ → Bool
starts [] [] = false
starts [] (d ∷ ds) = not (is_line_terminator d)
starts (c ∷ cs) [] = false
starts (c ∷ cs) (d ∷ ds) = c == d && starts cs ds

-- `HTTPS_URL_RE`
unfoldable pub is_https_url : String → Bool
is_https_url s = starts (b'h' ∷ b't' ∷ b't' ∷ b'p' ∷ b's' ∷ b':' ∷ b'/' ∷ b'/' ∷ []) (codes s)

-- `BigInt(agentId).toString()` of a text of digits, but for zero: the leading zeros go.
unfoldable pub strip_zeros : String → String
strip_zeros String.[] = String.[]
strip_zeros (String.◌∷◌ c s) =
    let rest = strip_zeros s in if code c == b'0' then rest else String.◌∷◌ c s

unfoldable pub all_of_digits : String → Bool
all_of_digits String.[] = true
all_of_digits (String.◌∷◌ c s) = is_digit (code c) && all_of_digits s

abbrev pub is_nil : String → Bool
is_nil String.[] = true
is_nil (String.◌∷◌ c s) = false

-- `normalizeRegistryAgentId` and `normalizeRegistryAgentIdForStorage`, with the error that they throw.
unfoldable pub normalize_agent_id {ℓ} : {E : Type ℓ} → E → String → Result E String
unfolding strip_zeros all_of_digits is_blank
normalize_agent_id e s = do
  require (not (is_blank (codes s))) e
  require (not (is_nil s) && all_of_digits s) e
  require (not (is_nil (strip_zeros s))) e
  ok (strip_zeros s)

abbrev pub with_agent_id : Listing → Result ListingError String → Result ListingError Listing
with_agent_id l (ok id) = ok (record l { registry_agent_id = some id })
with_agent_id l (err e) = err e

abbrev pub normalize_binding : Listing → Option String → Result ListingError Listing
normalize_binding l none = ok l
normalize_binding l (some id) = with_agent_id l (normalize_agent_id invalid_registry_agent_id id)

-- `DiscoveredAgent`, as far as the binding reads it; the id is its `toString()`.
pub record DiscoveredAgent : Type 0 where
  pub agent_id : String
  pub did : String

abbrev pub is_absent : Option Listing → Bool
is_absent none = true
is_absent (some l) = false

module _ (x : Externals) where
  unfoldable pub normalize_listing_for_storage : Listing → Result ListingError Listing
  unfolding is_https_url normalize_agent_id
  normalize_listing_for_storage l = do
    require (not (l.listing_id === "")) listing_id_required
    key ← or_throw (x.did_to_public_key l.seller) invalid_seller
    require (is_https_url l.negotiation_endpoint) invalid_negotiation_endpoint
    require (is_https_url l.payment_endpoint) invalid_payment_endpoint
    require (not (l.service_type === "")) service_type_required
    normalize_binding l l.registry_agent_id

  -- `add`, on the map of the store.
  unfoldable pub add : Listing → Dict Listing → Result ListingError (Dict Listing)
  unfolding normalize_listing_for_storage
  add l listings = do
    require (ltb (length listings) max_listings) capacity_reached
    normalized ← normalize_listing_for_storage l
    require (is_absent (lookup normalized.listing_id listings)) duplicate_listing_id
    ok (insert normalized.listing_id normalized listings)

abbrev pub values : Dict Listing → List Listing
values [] = []
values ((k, l) ∷ m) = l ∷ values m

unfoldable pub get_by_id : String → Dict Listing → Option Listing
get_by_id id listings = lookup id listings

unfoldable pub filter_by_service_type : String → Dict Listing → List Listing
filter_by_service_type service_type listings =
    keep (λ l. l.service_type === service_type) (values listings)

unfoldable pub find_all_by_seller : String → Dict Listing → List Listing
find_all_by_seller seller listings = keep (λ l. l.seller === seller) (values listings)

unfoldable pub find_by_seller_and_id : String → String → Dict Listing → Option Listing
find_by_seller_and_id seller id listings = elim (lookup id listings) [
  | none ↦ none
  | some l ↦ if l.seller === seller then some l else none
]

-- What the registry answers: nothing if it is not configured, `none` if the call throws.
abbrev pub Discover : Type 0
Discover = Option (String → Option (Option DiscoveredAgent))

unfoldable pub verify_registry_agent_binding :
    Option String → String → Discover → Reply (Option String)
unfolding normalize_agent_id
verify_registry_agent_binding none seller discover = ok none
verify_registry_agent_binding (some id) seller discover = do
  ask ← or_throw discover (http 503 "registry_unavailable")
  normalized ← normalize_agent_id (http 422 "invalid_registry_agent_id") id
  answered ← or_throw (ask normalized) (http 503 "registry_unavailable")
  agent ← or_throw answered (http 422 "invalid_registry_agent_id")
  require (agent.agent_id === normalized) (http 422 "invalid_registry_agent_id")
  require (agent.did === seller) (http 422 "registry_did_mismatch")
  ok (some normalized)
